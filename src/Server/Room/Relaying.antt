-- ===== src/Server/Room/Relaying.antt =====
-- Who can have packets relayed, and who can take over a client's address.
use gametunnel.Server.Room.Seats.Moves.{store_self}
use gametunnel.Base.{
  ℕ, ◌≡◌, ◌<◌, refl, ap, ◌∙◌, Bool, true, false, Option, none, some, List, ltb, if◌then◌else◌,
  length, take, bytes_eq, bytes_eq→eq, Bool-cases, Option-cases, inl, inr, arith,
}
use gametunnel.Bytes.{Result, ok, err, panic}
use gametunnel.Net.{Ip, UdpAddr, RateKey, addr_to_rate_key, ip_key, to4}
use gametunnel.Map.{lookup, bytes_key, lookup-insert_self}
use gametunnel.Protocol.Data.{parse_data_header, has_token}
use gametunnel.Server.Room.{Client, Ref, Room, Env, rate_key}
use gametunnel.Server.Room.Relay.{
  check_token, move_client, migrate_locked, try_migrate, forward, relay_from, handle_relay,
  if_accepted,
}

-- What stands behind a packet that is sent on.
abbrev pub IsAuthentic : UdpAddr → List ℕ → Room → Type 0
IsAuthentic from payload r =
    (sender : Ref) × (lookup (addr_to_rate_key from) r.addr_map ≡ some sender)
    × (to4 (r.heap sender).virtual_ip ≡ some (take 4 payload))
    × (check_token (r.heap sender) payload ≡ ok true)

module _ (allow : UdpAddr → ℕ → Bool) (payload : List ℕ) (sender : Ref) (r : Room) where
  accepted_token :
      (out : List UdpAddr × List ℕ) (t : Result Bool)
      → (elim t as (λ _. Option (List UdpAddr × List ℕ)) [
        | ok accepted ↦ if accepted then some (forward allow payload sender r) else none
        | err e ↦ none
        | panic ↦ none
      ])
        ≡ some out
      → t ≡ ok true
  accepted_token out (ok true) h = refl
  accepted_token out (ok false) h = cc
  accepted_token out (err e) h = cc
  accepted_token out panic h = cc

  relay_from-authentic :
      (out : List UdpAddr × List ℕ)
      → relay_from allow payload sender r ≡ some out
      → (to4 (r.heap sender).virtual_ip ≡ some (take 4 payload))
        × (check_token (r.heap sender) payload ≡ ok true)
  unfolding relay_from
  relay_from-authentic out h = elim (Option-cases (to4 (r.heap sender).virtual_ip)) [
    | inl e ↦ let bad = rw (e, relay_from) at h in cc
    | inr (vip, e) ↦
        let h' = rw (e, relay_from) at h in
        elim (Bool-cases (bytes_eq vip (take 4 payload))) [
          | inl t ↦
              let h'' = rw t at h' in
              (
                e ∙ ap some (bytes_eq→eq vip (take 4 payload) t),
                accepted_token out (check_token (r.heap sender) payload) h'',
              )
          | inr f ↦ let bad = rw f at h' in cc
        ]
  ]

module _ (env : Env) (from : UdpAddr) (src : Ip) (p : Ref) (r : Room) where
  lookup-move_client : lookup (addr_to_rate_key from) (move_client env from p r).addr_map ≡ some p
  unfolding move_client
  lookup-move_client = lookup-insert_self (addr_to_rate_key from) p _

  lookup-migrate_locked :
      (s : Ref)
      → (migrate_locked env from src p r).1 ≡ some s
      → lookup (addr_to_rate_key from) (migrate_locked env from src p r).0.addr_map ≡ some s
  unfolding migrate_locked
  lookup-migrate_locked s h = elim (Option-cases (lookup (addr_to_rate_key from) r.addr_map)) [
    | inr (q, e) ↦ rw (e, migrate_locked) (e ∙ (rw (e, migrate_locked) at h))
    | inl e ↦ elim (Option-cases (lookup (ip_key src) r.clients)) [
      | inl f ↦ let bad = rw (e, migrate_locked, f) at h in cc
      | inr (q, f) ↦
          rw (e, migrate_locked, f) (lookup-move_client ∙ (rw (e, migrate_locked, f) at h))
    ]
  ]

lookup-if_accepted :
    (k : RateKey) (s : Ref) (moved : Room × Option Ref) (r : Room) (t : Result Bool)
    → (moved.1 ≡ some s → lookup k moved.0.addr_map ≡ some s)
    → (if_accepted moved r t).1 ≡ some s
    → lookup k (if_accepted moved r t).0.addr_map ≡ some s
lookup-if_accepted k s moved r (ok true) g h = g h
lookup-if_accepted k s moved r (ok false) g h = cc
lookup-if_accepted k s moved r (err e) g h = cc
lookup-if_accepted k s moved r panic g h = cc

lookup-try_migrate :
    (env : Env) (from : UdpAddr) (src : Ip) (payload : List ℕ) (r : Room) (s : Ref)
    → (try_migrate env from src payload r).1 ≡ some s
    → lookup (addr_to_rate_key from) (try_migrate env from src payload r).0.addr_map ≡ some s
unfolding try_migrate
lookup-try_migrate env from src payload r s h =
    elim (Option-cases (lookup (ip_key src) r.clients)) [
      | inl e ↦ let bad = rw (e, try_migrate) at h in cc
      | inr (p, e) ↦
          rw (e, try_migrate)
            (lookup-if_accepted (addr_to_rate_key from) s (migrate_locked env from src p r) r
              (check_token (r.heap p) payload) (lookup-migrate_locked env from src p r s)
              (rw (e, try_migrate) at h))
    ]

-- What a room sends on for an address comes from the client at that address: the packet names its
-- sender's own address inside the network as the source, and passes the check of its session token,
-- which lets a packet through that announces no token.
pub handle_relay-IsAuthentic :
    (allow : UdpAddr → ℕ → Bool) (env : Env) (payload : List ℕ) (from : UdpAddr) (r : Room)
    (out : List UdpAddr × List ℕ)
    → (handle_relay allow env payload from r).1 ≡ some out
    → IsAuthentic from payload (handle_relay allow env payload from r).0
unfolding handle_relay
handle_relay-IsAuthentic allow env payload from r out h =
    elim (Bool-cases (ltb (length payload) 8)) [
      | inl t ↦ let bad = rw (handle_relay, t) at h in cc
      | inr long ↦ elim (Option-cases (lookup (addr_to_rate_key from) r.addr_map)) [
        | inr (s, e) ↦
            let h' = rw (handle_relay, long, e) at h in
            let (v, t) = relay_from-authentic allow payload s r out h' in
            rw (handle_relay, long, e) (s, e, v, t)
        | inl e ↦ elim (Option-cases (try_migrate env from (take 4 payload) payload r).1) [
          | inl f ↦ let bad = rw (handle_relay, long, e, f) at h in cc
          | inr (s, f) ↦
              let h' = rw (handle_relay, long, e, f) at h in
              let (v, t) =
                relay_from-authentic allow payload s
                  (try_migrate env from (take 4 payload) payload r).0 out h' in
              rw (handle_relay, long, e, f)
                (s, lookup-try_migrate env from (take 4 payload) payload r s f, v, t)
        ]
      ]
    ]

check_token-unannounced :
    (c : Client) (payload : List ℕ) (flags off : ℕ) (is_new : Bool)
    → 8 < length payload
    → parse_data_header payload ≡ ok (flags, off, is_new)
    → has_token flags ≡ false
    → check_token c payload ≡ ok true
unfolding check_token
check_token-unannounced c payload flags off is_new long h bare = ground (arith, h, bare)

try_migrate_accepted :
    (env : Env) (from : UdpAddr) (src : Ip) (payload : List ℕ) (r : Room) (p : Ref)
    → lookup (ip_key src) r.clients ≡ some p
    → lookup (addr_to_rate_key from) r.addr_map ≡ none
    → check_token (r.heap p) payload ≡ ok true
    → try_migrate env from src payload r ≡ (move_client env from p r, some p)
unfolding try_migrate
try_migrate_accepted env from src payload r p c a accepted =
    rw (c, try_migrate, accepted, a, migrate_locked, c) refl

-- A packet whose flags announce no token moves a client to its sender, though the client has a token:
-- when the sender holds no entry of the address map and the packet names the client's address
-- inside the network, the client keeps its place and its token, its public address becomes that of
-- the sender, and the sender's entry leads to it.
pub try_migrate-unannounced :
    (env : Env) (from : UdpAddr) (src : Ip) (payload : List ℕ) (r : Room) (p : Ref) (flags off : ℕ)
    (is_new : Bool)
    → lookup (ip_key src) r.clients ≡ some p
    → lookup (addr_to_rate_key from) r.addr_map ≡ none
    → 8 < length payload
    → parse_data_header payload ≡ ok (flags, off, is_new)
    → has_token flags ≡ false
    → let (after, found) = try_migrate env from src payload r in
      (found ≡ some p)
      × (lookup (ip_key src) after.clients ≡ some p)
      × ((after.heap p).public_addr ≡ some from)
      × ((after.heap p).session_token ≡ (r.heap p).session_token)
      × (lookup (addr_to_rate_key from) after.addr_map ≡ some p)
unfolding move_client
try_migrate-unannounced env from src payload r p flags off is_new c a long hd bare =
    let moved =
      try_migrate_accepted env from src payload r p c a
        (check_token-unannounced (r.heap p) payload flags off is_new long hd bare) in
    let written : (move_client env from p r).heap p
        ≡ record (r.heap p) { public_addr = some from; last_seen = env.now } =
      store_self p _ r.heap in
    rw moved (
      refl,
      c,
      ap (λ x. x.public_addr) written,
      ap (λ x. x.session_token) written,
      lookup-insert_self (addr_to_rate_key from) p _,
    )
