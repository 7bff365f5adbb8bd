-- ===== src/Server/Room/Seats/Moving.antt =====
-- The relay, which moves a client to a new public address, keeps the table of the clients, the map of
-- the addresses and the bitmap together.
use gametunnel.Base.{
  ℕ, ◌≡◌, refl, ap, sym, ◌∙◌, Bool, true, false, Option, none, some, List, ltb, length, take,
  Bool-cases, Option-cases, inl, inr,
}
use gametunnel.Bytes.{Result, ok, err, panic}
use gametunnel.Net.{Ip, UdpAddr, RateKey, addr_to_rate_key, ip_key}
use gametunnel.Map.{lookup, bytes_key}
use gametunnel.Server.Room.{Room, Ref, Env, rate_key, is_pending}
use gametunnel.Server.Room.Relay.{
  forget_old, move_client, migrate_locked, if_accepted, try_migrate, handle_relay, check_token,
}
use gametunnel.Server.Room.Seats.{Table, IsSeated}
use gametunnel.Server.Room.Seats.Moves.{unlist-Table, no_entry, no_entry_none}
use gametunnel.Server.Room.Seats.Seating.{readdress-Table}

-- After its old entry is gone, a client of the table has none.
pub forget_old-Table :
    (p : Ref) (addr : Option UdpAddr) (r : Room)
    → is_pending (r.heap p) ≡ false
    → (r.heap p).public_addr ≡ addr
    → IsSeated r
    → Table r.subnet r.ip_bitmap r.heap r.next_ref r.clients (forget_old addr r.addr_map)
      × ((j : RateKey) → lookup j (forget_old addr r.addr_map) ≡ some p → ⊥)
unfolding forget_old
forget_old-Table p none r settled e v = (v, no_entry_none v p settled e)
forget_old-Table p (some a) r settled e v =
    (unlist-Table v (addr_to_rate_key a), no_entry v p a settled e)

move_client-IsSeated :
    (env : Env) (from : UdpAddr) (k : List ℕ) (p : Ref) (r : Room)
    → lookup k r.clients ≡ some p
    → IsSeated r
    → IsSeated (move_client env from p r)
unfolding move_client
move_client-IsSeated env from k p r found v =
    let (small, s) = v.seats k p found in
    let (u, gone) = forget_old-Table p (r.heap p).public_addr r s.settled refl v in
    readdress-Table u p (record (r.heap p) { public_addr = some from; last_seen = env.now })
      (addr_to_rate_key from) small gone refl refl
      (λ settled. ((from, refl, refl), ap (λ x. lookup x r.clients) (sym s.key) ∙ found))

migrate_locked-IsSeated :
    (env : Env) (from : UdpAddr) (src : Ip) (p : Ref) (r : Room)
    → lookup (ip_key src) r.clients ≡ some p
    → IsSeated r
    → IsSeated (migrate_locked env from src p r).0
unfolding migrate_locked
migrate_locked-IsSeated env from src p r found v =
    elim (Option-cases (lookup (addr_to_rate_key from) r.addr_map)) [
      | inr (q, e) ↦ rw (e, migrate_locked) v
      | inl e ↦
          rw (e, migrate_locked, found) (move_client-IsSeated env from (ip_key src) p r found v)
    ]

if_accepted-IsSeated :
    (moved : Room × Option Ref) (r : Room) (res : Result Bool)
    → IsSeated r
    → IsSeated moved.0
    → IsSeated (if_accepted moved r res).0
if_accepted-IsSeated moved r (ok true) v w = w
if_accepted-IsSeated moved r (ok false) v w = v
if_accepted-IsSeated moved r (err e) v w = v
if_accepted-IsSeated moved r panic v w = v

try_migrate-IsSeated :
    (env : Env) (from : UdpAddr) (src : Ip) (payload : List ℕ) (r : Room)
    → IsSeated r
    → IsSeated (try_migrate env from src payload r).0
unfolding try_migrate
try_migrate-IsSeated env from src payload r v =
    elim (Option-cases (lookup (ip_key src) r.clients)) [
      | inl e ↦ rw (e, try_migrate) v
      | inr (p, e) ↦
          rw (e, try_migrate)
            (if_accepted-IsSeated (migrate_locked env from src p r) r
              (check_token (r.heap p) payload) v (migrate_locked-IsSeated env from src p r e v))
    ]

pub handle_relay-IsSeated :
    (allow : UdpAddr → ℕ → Bool) (env : Env) (payload : List ℕ) (from : UdpAddr) (r : Room)
    → IsSeated r
    → IsSeated (handle_relay allow env payload from r).0
unfolding handle_relay
handle_relay-IsSeated allow env payload from r v = elim (Bool-cases (ltb (length payload) 8)) [
  | inl t ↦ rw (t, handle_relay) v
  | inr t ↦ elim (Option-cases (lookup (addr_to_rate_key from) r.addr_map)) [
    | inr (p, e) ↦ rw (t, handle_relay, e) v
    | inl e ↦
        let u = try_migrate-IsSeated env from (take 4 payload) payload r v in
        rw (t, handle_relay, e)
          (elim (Option-cases (try_migrate env from (take 4 payload) payload r).1) [
            | inl f ↦ rw f u
            | inr (q, f) ↦ rw f u
          ])
  ]
]
