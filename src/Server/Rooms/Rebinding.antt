-- ===== src/Server/Rooms/Rebinding.antt =====
-- handleRebind keeps the invariants of each room.
use gametunnel.Base.{
  ℕ, ◌≡◌, refl, sym, ap, ◌∙◌, false, none, some, List, [], ◌∷◌, Bool-cases, Option-cases, inl, inr,
}
use gametunnel.Bytes.{Result, ok, err, panic}
use gametunnel.Net.{UdpAddr, addr_to_rate_key, ip_key, to4}
use gametunnel.Map.{Map, lookup, bytes_key}
use gametunnel.Protocol.Rebind.{RebindPayload, unmarshal_rebind}
use gametunnel.Server.Room.{Ref, Room, Env, Crypto, rate_key}
use gametunnel.Server.Room.Seats.Seating.{readdress-Table}
use gametunnel.Server.Room.Seats.Moving.{forget_old-Table}
use gametunnel.Server.Rooms.{
  RoomRef, Server, ServerOutput, find_rebind, rebind_allowed, rebind_client, rebind_in,
  handle_rebind, rebind_ack,
}
use gametunnel.Server.Rooms.Keep.{IsSound, Kept, store_room-IsSound}

rebind_client-IsSound :
    (env : Env) (from : UdpAddr) (k : List ℕ) (c : Ref) (r : Room)
    → lookup k r.clients ≡ some c
    → IsSound r
    → IsSound (rebind_client env from c r)
unfolding rebind_client
rebind_client-IsSound env from k c r found (v, i) =
    let (small, s) = v.seats k c found in
    let (u, gone) = forget_old-Table c (r.heap c).public_addr r s.settled refl v in
    (
      readdress-Table u c (record (r.heap c) { public_addr = some from; last_seen = env.now })
          (addr_to_rate_key from) small gone refl refl
          (λ settled. ((from, refl, refl), ap (λ x. lookup x r.clients) (sym s.key) ∙ found)),
      record { capacity = i.capacity; within = i.within; pending = i.pending },
    )

-- The search finds a client in the table of a room.
find_rebind-some :
    (heap : RoomRef → Room) (k : List ℕ) (m : Map (List ℕ) RoomRef) (p : RoomRef) (c : Ref)
    → find_rebind heap k m ≡ some (p, c)
    → lookup k (heap p).clients ≡ some c
unfolding find_rebind
find_rebind-some heap k [] p c h = absurd (let q : none ≡ some (p, c) = h in cc)
find_rebind-some heap k ((id, q) ∷ m) p c h = elim (Option-cases (lookup k (heap q).clients)) [
  | inl e ↦ find_rebind-some heap k m p c (rw (find_rebind, e) at h)
  | inr (d, e) ↦
      let same : some (q, d) ≡ some (p, c) = (rw (find_rebind, e) at h) in
      let f : q ≡ p = cc in
      let g : d ≡ c = cc in ap (λ x. lookup k (heap x).clients) (sym f) ∙ (e ∙ ap some g)
]

rebind_in-Kept :
    (crypto : Crypto) (env : Env) (req : RebindPayload) (from : UdpAddr) (k : List ℕ) (p : RoomRef)
    (c : Ref) (s : Server)
    → lookup k (s.room_heap p).clients ≡ some c
    → Kept s
    → Kept (rebind_in crypto env req from p c s).0
unfolding rebind_in
rebind_in-Kept crypto env req from k p c s found v =
    let r = s.room_heap p in
    elim (Bool-cases (rebind_allowed crypto env req r (r.heap c))) [
      | inr t ↦ rw (t, rebind_in) v
      | inl t ↦
          rw (t, rebind_in)
            (record {
              limit = v.limit;
              sound =
                  store_room-IsSound p (rebind_client env from c r) s.room_heap
                    (rebind_client-IsSound env from k c r found (v.sound p)) v.sound;
            })
    ]

pub handle_rebind-Kept :
    (crypto : Crypto) (env : Env) (payload : List ℕ) (from : UdpAddr) (s : Server)
    → Kept s
    → Kept (handle_rebind crypto env payload from s).0
unfolding handle_rebind
handle_rebind-Kept crypto env payload from s v = go (unmarshal_rebind payload)
  where
    located :
        (req : RebindPayload)
        → Kept
            (elim (find_rebind s.room_heap (ip_key req.virtual_ip) s.rooms)
              as (λ _. Server × List ServerOutput) [
                | none ↦ (s, rebind_ack false from ∷ [])
                | some (p, c) ↦ rebind_in crypto env req from p c s
              ]).0
    located req = elim (Option-cases (find_rebind s.room_heap (ip_key req.virtual_ip) s.rooms)) [
      | inl e ↦ rw e v
      | inr ((p, c), e) ↦
          let k = ip_key req.virtual_ip in
          rw e (
            rebind_in-Kept crypto env req from k p c s
              (find_rebind-some s.room_heap k s.rooms p c e) v)
    ]

    go :
        (res : Result RebindPayload)
        → Kept
            (elim res as (λ _. Server × List ServerOutput) [
              | err e ↦ (s, [])
              | panic ↦ (s, [])
              | ok req ↦ elim (to4 req.virtual_ip) [
                | none ↦ (s, rebind_ack false from ∷ [])
                | some w ↦ elim (find_rebind s.room_heap (ip_key req.virtual_ip) s.rooms) [
                  | none ↦ (s, rebind_ack false from ∷ [])
                  | some (p, c) ↦ rebind_in crypto env req from p c s
                ]
              ]
            ]).0
    go (err e) = v
    go panic = v
    go (ok req) = elim (Option-cases (to4 req.virtual_ip)) [
      | inl e ↦ rw e v
      | inr (w, e) ↦ rw e (located req)
    ]
