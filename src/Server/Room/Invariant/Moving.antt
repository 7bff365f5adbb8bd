-- ===== src/Server/Room/Invariant/Moving.antt =====
-- The relay keeps the limits of the room: a move changes neither the table nor a count.
use gametunnel.Base.{
  ℕ, Bool, true, false, Option, List, ltb, length, take, Bool-cases, Option-cases, inl, inr,
}
use gametunnel.Bytes.{Result, ok, err, panic}
use gametunnel.Net.{Ip, UdpAddr, addr_to_rate_key, ip_key}
use gametunnel.Map.{lookup, bytes_key}
use gametunnel.Server.Room.{Room, Ref, Env, rate_key}
use gametunnel.Server.Room.Relay.{
  migrate_locked, if_accepted, try_migrate, handle_relay, check_token,
}
use gametunnel.Server.Room.Invariant.{Inv}

migrate_locked-Inv :
    (env : Env) (from : UdpAddr) (src : Ip) (p : Ref) (r : Room)
    → Inv r
    → Inv (migrate_locked env from src p r).0
unfolding migrate_locked
migrate_locked-Inv env from src p r v =
    elim (Option-cases (lookup (addr_to_rate_key from) r.addr_map)) [
      | inr (q, e) ↦ rw (e, migrate_locked) v
      | inl e ↦ elim (Option-cases (lookup (ip_key src) r.clients)) [
        | inl f ↦ rw (e, migrate_locked, f) v
        | inr (q, f) ↦
            rw (e, migrate_locked, f)
              (record { capacity = v.capacity; within = v.within; pending = v.pending })
      ]
    ]

if_accepted-Inv :
    (moved : Room × Option Ref) (r : Room) (res : Result Bool)
    → Inv r
    → Inv moved.0
    → Inv (if_accepted moved r res).0
if_accepted-Inv moved r (ok true) v w = w
if_accepted-Inv moved r (ok false) v w = v
if_accepted-Inv moved r (err e) v w = v
if_accepted-Inv moved r panic v w = v

try_migrate-Inv :
    (env : Env) (from : UdpAddr) (src : Ip) (payload : List ℕ) (r : Room)
    → Inv r
    → Inv (try_migrate env from src payload r).0
unfolding try_migrate
try_migrate-Inv env from src payload r v = elim (Option-cases (lookup (ip_key src) r.clients)) [
  | inl e ↦ rw (e, try_migrate) v
  | inr (p, e) ↦
      rw (e, try_migrate)
        (if_accepted-Inv (migrate_locked env from src p r) r (check_token (r.heap p) payload) v
          (migrate_locked-Inv env from src p r v))
]

pub handle_relay-Inv :
    (allow : UdpAddr → ℕ → Bool) (env : Env) (payload : List ℕ) (from : UdpAddr) (r : Room)
    → Inv r
    → Inv (handle_relay allow env payload from r).0
unfolding handle_relay
handle_relay-Inv allow env payload from r v = elim (Bool-cases (ltb (length payload) 8)) [
  | inl t ↦ rw (t, handle_relay) v
  | inr t ↦ elim (Option-cases (lookup (addr_to_rate_key from) r.addr_map)) [
    | inr (p, e) ↦ rw (t, handle_relay, e) v
    | inl e ↦
        let u = try_migrate-Inv env from (take 4 payload) payload r v in
        rw (t, handle_relay, e)
          (elim (Option-cases (try_migrate env from (take 4 payload) payload r).1) [
            | inl f ↦ rw f u
            | inr (q, f) ↦ rw f u
          ])
  ]
]
