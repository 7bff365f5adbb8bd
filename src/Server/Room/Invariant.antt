-- ===== src/Server/Room/Invariant.antt =====
-- The limits of a room, and the helpers of its handlers under them.
pub mod Registering
pub mod Responding
pub mod Leaving
pub mod Moving
pub mod Running
use gametunnel.Base.{
  ℕ, zero, suc, ◌+◌, ◌-◌, ◌≤◌, ◌<◌, ◌≡◌, refl, ap, Bool, true, false, not, ◌&&◌, Option, none, some,
  List, [], ◌∷◌, ◌++◌, arith, leb, ltb, ◌==◌, if◌then◌else◌, length, Bool-cases, Option-cases, inl,
  inr, ◌⊎◌,
}
use gametunnel.Net.{Ip, UdpAddr, RateKey, addr_to_rate_key, conn_ip_key, ip_key}
use gametunnel.Map.{
  Map, Eq, lookup, insert, erase, bytes_key, lookup-insert_self, lookup-insert_ne,
  lookup-erase_self, lookup-erase_ne, length-erase-le, length-insert-le,
}
use gametunnel.Protocol.Register.{RegisterPayload}
use gametunnel.Server.Bitmap.{next_available}
use gametunnel.Server.Room.Helpers.{
  or_zero, decrement_ip_conn_count, increment_ip_conn_count, release_addr, send_kick_code,
  send_kick, cleanup_pending_auth, check_reg_rate, check_capacity_and_duplicate, CheckResult,
  check_ok, check_room_full, check_duplicate, do_register_client,
}
use gametunnel.Server.Room.{Room, Client, Env, KickReason, rate_key}

-- No address has more connections counted than the limit.
abbrev pub IsWithin : ℕ → Map (List ℕ) ℕ → Type 0
IsWithin limit m = (ip : List ℕ) → or_zero (lookup ip m) ≤ limit

erase-IsWithin :
    (limit : ℕ) (k : List ℕ) (m : Map (List ℕ) ℕ) → IsWithin limit m → IsWithin limit (erase k m)
erase-IsWithin limit k m h ip = elim (Bool-cases (bytes_key.beq k ip)) [
  | inl t ↦
      let e : k ≡ ip = bytes_key.beq→eq k ip t in rw (← e, lookup-erase_self k m) (omega arith)
  | inr f ↦ rw (lookup-erase_ne k ip m f) (h ip)
]

insert-IsWithin :
    (limit n : ℕ) (k : List ℕ) (m : Map (List ℕ) ℕ)
    → n ≤ limit
    → IsWithin limit m
    → IsWithin limit (insert k n m)
insert-IsWithin limit n k m l h ip = elim (Bool-cases (bytes_key.beq k ip)) [
  | inl t ↦ let e : k ≡ ip = bytes_key.beq→eq k ip t in rw (← e, lookup-insert_self k n m) l
  | inr f ↦ rw (lookup-insert_ne k ip n m f) (h ip)
]

pub decrement-IsWithin :
    (limit : ℕ) (k : List ℕ) (m : Map (List ℕ) ℕ)
    → IsWithin limit m
    → IsWithin limit (decrement_ip_conn_count k m)
unfolding decrement_ip_conn_count
decrement-IsWithin limit k m h = elim (Option-cases (lookup k m)) [
  | inl e ↦ rw (e, decrement_ip_conn_count) (erase-IsWithin limit k m h)
  | inr (n, e) ↦
      let l : n ≤ limit = (rw e at (h k)) in
      rw (e, decrement_ip_conn_count)
        (elim (Bool-cases (ltb 1 n)) [
          | inl t ↦ rw t (insert-IsWithin limit (n - 1) k m (omega arith) h)
          | inr f ↦ rw f (erase-IsWithin limit k m h)
        ])
]

pub increment-IsWithin :
    (limit : ℕ) (k : List ℕ) (m : Map (List ℕ) ℕ)
    → leb limit (or_zero (lookup k m)) ≡ false
    → IsWithin limit m
    → IsWithin limit (increment_ip_conn_count k m)
unfolding increment_ip_conn_count
increment-IsWithin limit k m l h = insert-IsWithin limit _ k m (ground arith) h

pub release-IsWithin :
    (limit : ℕ) (a : Option UdpAddr) (m : Map (List ℕ) ℕ)
    → IsWithin limit m
    → IsWithin limit (release_addr a m)
unfolding release_addr
release-IsWithin limit none m h = h
release-IsWithin limit (some a) m h = decrement-IsWithin limit (conn_ip_key a) m h

-- The limits of the room: players, connections of one address, and clients waiting for an answer
-- to their challenge.
pub record Inv (r : Room) : Type 0 where
  pub capacity : length r.clients ≤ r.max_players
  pub within : IsWithin r.max_per_ip r.ip_conn_count
  pub pending : r.pending_auth ≤ r.max_pending

pub send_kick_code-Inv :
    (to : UdpAddr) (code : ℕ) (reason : KickReason) (r : Room)
    → Inv r
    → Inv (send_kick_code to code reason r).0
unfolding send_kick_code
send_kick_code-Inv to code reason r v = record {
  capacity = v.capacity;
  within = v.within;
  pending = v.pending;
}

pub send_kick-Inv :
    (to : UdpAddr) (reason : KickReason) (r : Room) → Inv r → Inv (send_kick to reason r).0
unfolding send_kick
send_kick-Inv to reason r v = record {
  capacity = v.capacity;
  within = v.within;
  pending = v.pending;
}

pub cleanup_pending_auth-Inv :
    (k : RateKey) (c : Client) (r : Room) → Inv r → Inv (cleanup_pending_auth k c r)
unfolding cleanup_pending_auth
cleanup_pending_auth-Inv k c r v = record {
  capacity = v.capacity;
  within = release-IsWithin r.max_per_ip c.public_addr r.ip_conn_count v.within;
  pending = omega (arith, v.pending);
}

pub check_reg_rate-Inv : (a : UdpAddr) (r : Room) → Inv r → Inv (check_reg_rate a r).0
unfolding check_reg_rate
check_reg_rate-Inv a r v = record { capacity = v.capacity; within = v.within; pending = v.pending }

-- A successful check leaves room for one more client.
pub check_ok-lt :
    (username room_id : List ℕ) (r : Room)
    → check_capacity_and_duplicate username room_id r ≡ check_ok
    → length r.clients < r.max_players
unfolding check_capacity_and_duplicate
check_ok-lt username room_id r h = ground arith

pub CheckResult-cases :
    (c : CheckResult) → (c ≡ check_ok) ⊎ ((c ≡ check_room_full) ⊎ (c ≡ check_duplicate))
CheckResult-cases check_ok = inl refl
CheckResult-cases check_room_full = inr (inl refl)
CheckResult-cases check_duplicate = inr (inr refl)

pub do_register_client-Inv :
    (env : Env) (reg : RegisterPayload) (from : UdpAddr) (r : Room)
    → Inv r
    → length r.clients < r.max_players
    → Inv (do_register_client env reg from r).0
unfolding do_register_client
do_register_client-Inv env reg from r v h = elim (Option-cases (next_available r.ip_bitmap)) [
  | inl e ↦ rw (e, do_register_client) v
  | inr (octet, e) ↦
      rw (e, do_register_client)
        (elim (Option-cases env.new_token) [
          | inl f ↦ rw f (record { capacity = v.capacity; within = v.within; pending = v.pending })
          | inr (token, f) ↦ rw f (record {
            capacity = omega (arith, length-insert-le _ r.next_ref r.clients);
            within = v.within;
            pending = v.pending;
          })
        ])
]
