-- ===== src/Server/Rooms/Keep.antt =====
-- What the operations of the server keep: the limit on rooms, and the invariants of each room. Here
-- that of a registration.
use gametunnel.Base.{
  ℕ, ◌+◌, ◌≤◌, ◌<◌, ◌≡◌, false, ◌&&◌, ◌||◌, some, List, [], ◌∷◌, arith, leb, ltb, ◌==◌,
  if◌then◌else◌, length, Bool-cases, Option-cases, inl, inr,
}
use gametunnel.Bytes.{Result, ok, err, panic}
use gametunnel.Net.{UdpAddr, addr_to_rate_key}
use gametunnel.Map.{lookup, insert, bytes_key, length-insert-le}
use gametunnel.Protocol.Register.{RegisterPayload, unmarshal_register}
use gametunnel.Server.Room.{Room, Env, rate_key}
use gametunnel.Server.Room.Create.{new_room-Inv}
use gametunnel.Server.Room.Register.{handle_register, max_room_id_len}
use gametunnel.Server.Room.Invariant.{Inv}
use gametunnel.Server.Room.Invariant.Registering.{handle_register-Inv}
use gametunnel.Server.Room.Seats.{IsSeated}
use gametunnel.Server.Room.Seats.Locked.{handle_register-IsSeated}
use gametunnel.Server.Room.Seats.Running.{new_room-IsSeated}
use gametunnel.Server.Subnets.{NetOps, allocate_subnet}
use gametunnel.Server.Rooms.{
  RoomRef, Server, ServerOutput, store_room, register_in, add_room, subnets_of, register_checked_id,
  handle_register_multi_room, kick_invalid_room,
}

-- A room within its limits, whose clients, addresses and bitmap agree.
abbrev pub IsSound : Room → Type 0
IsSound r = IsSeated r × Inv r

pub record Kept (s : Server) : Type 0 where
  pub limit : 0 < s.max_rooms → length s.rooms ≤ s.max_rooms
  pub sound : (p : RoomRef) → IsSound (s.room_heap p)

pub store_room-IsSound :
    (p : RoomRef) (r : Room) (heap : RoomRef → Room)
    → IsSound r
    → ((q : RoomRef) → IsSound (heap q))
    → (q : RoomRef) → IsSound (store_room p r heap q)
unfolding store_room
store_room-IsSound p r heap v h q = elim (Bool-cases (p == q)) [
  | inl t ↦ rw t v
  | inr f ↦ rw f (h q)
]

register_in-Kept :
    (env : Env) (payload : List ℕ) (from : UdpAddr) (p : RoomRef) (s : Server)
    → Kept s
    → Kept (register_in env payload from p s).0
unfolding register_in
register_in-Kept env payload from p s v =
    let r = (handle_register env payload from (s.room_heap p)).0 in
    let (a, b) = v.sound p in
    let u : IsSound r = (
      handle_register-IsSeated env payload from (s.room_heap p) a,
      handle_register-Inv env payload from (s.room_heap p) b,
    ) in
    elim (Option-cases (lookup (addr_to_rate_key from) r.addr_map)) [
      | inl e ↦
          rw (register_in, e)
            (record { limit = v.limit; sound = store_room-IsSound p r s.room_heap u v.sound })
      | inr (c, e) ↦
          rw (register_in, e)
            (record { limit = v.limit; sound = store_room-IsSound p r s.room_heap u v.sound })
    ]

add_room-Kept :
    (env : Env) (room_id : List ℕ) (idx : ℕ) (s : Server)
    → (ltb 0 s.max_rooms && leb s.max_rooms (length s.rooms)) ≡ false
    → Kept s
    → Kept (add_room env room_id idx s)
unfolding add_room
add_room-Kept env room_id idx s h v = record {
  limit = λ bounded. fits (length s.rooms) bounded h (length-insert-le room_id s.next_room s.rooms);
  sound =
      store_room-IsSound s.next_room _ s.room_heap
        (new_room-IsSeated _ env.now, new_room-Inv _ env.now) v.sound;
}
  where
    fits :
        (n : ℕ)
        → 0 < s.max_rooms
        → (ltb 0 s.max_rooms && leb s.max_rooms n) ≡ false
        → length (insert room_id s.next_room s.rooms) ≤ n + 1
        → length (insert room_id s.next_room s.rooms) ≤ s.max_rooms
    fits n b k l = ground arith

register_checked_id-Kept :
    (ops : NetOps) (env : Env) (reg : RegisterPayload) (payload : List ℕ) (from : UdpAddr)
    (s : Server)
    → Kept s
    → Kept (register_checked_id ops env reg payload from s).0
unfolding register_checked_id
register_checked_id-Kept ops env reg payload from s v =
    elim (Option-cases (lookup reg.room_id s.rooms)) [
      | inr (p, e) ↦ rw (e, register_checked_id) (register_in-Kept env payload from p s v)
      | inl e ↦ elim (Bool-cases (ltb 0 s.max_rooms && leb s.max_rooms (length s.rooms))) [
        | inl t ↦ rw (e, register_checked_id, t) v
        | inr t ↦
            elim (Option-cases
              (allocate_subnet ops (some s.base_subnet) (subnets_of s) s.local_subnets)) [
                | inl f ↦ rw (e, register_checked_id, t, f) v
                | inr (idx, f) ↦
                    rw (e, register_checked_id, t, f)
                      (register_in-Kept env payload from s.next_room
                        (add_room env reg.room_id idx s) (add_room-Kept env reg.room_id idx s t v))
              ]
      ]
    ]

pub handle_register_multi_room-Kept :
    (ops : NetOps) (env : Env) (payload : List ℕ) (from : UdpAddr) (s : Server)
    → Kept s
    → Kept (handle_register_multi_room ops env payload from s).0
unfolding handle_register_multi_room
handle_register_multi_room-Kept ops env payload from s v = go (unmarshal_register payload)
  where
    go :
        (res : Result RegisterPayload)
        → Kept
            (elim res as (λ _. Server × List ServerOutput) [
              | err e ↦ (s, [])
              | panic ↦ (s, [])
              | ok reg ↦
                  if length reg.room_id == 0 || ltb max_room_id_len (length reg.room_id)
                  then (s, kick_invalid_room from ∷ [])
                  else register_checked_id ops env reg payload from s
            ]).0
    go (err e) = v
    go panic = v
    go (ok reg) =
        elim (Bool-cases (length reg.room_id == 0 || ltb max_room_id_len (length reg.room_id))) [
          | inl t ↦ rw t v
          | inr t ↦ rw t (register_checked_id-Kept ops env reg payload from s v)
        ]
