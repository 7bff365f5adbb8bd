-- ===== src/Server/Rooms/Running.antt =====
-- The server after any sequence of events.
use gametunnel.Base.{ℕ, ◌≤◌, List, [], ◌∷◌, arith, length, bytes_eq, Bool-cases, inl, inr}
use gametunnel.Map.{Map, bytes_key}
use gametunnel.Server.Room.{Room, Crypto, rate_key}
use gametunnel.Server.Room.Invariant.Running.{step-Inv}
use gametunnel.Server.Room.Seats.Running.{step-IsSeated}
use gametunnel.Server.Subnets.{NetOps}
use gametunnel.Server.Rooms.{
  RoomRef, Server, busy_rooms, cleanup_idle_rooms, cleanup_stale_addr_to_room, is_idle,
  room_idle_timeout, default_id, ServerEvent, registers_in, rebinds, in_room, drops_idle,
  drops_routes, server_step, server_run,
}
use gametunnel.Server.Rooms.Keep.{Kept, store_room-IsSound, handle_register_multi_room-Kept}
use gametunnel.Server.Rooms.Rebinding.{handle_rebind-Kept}

length-busy_rooms-le :
    (now : ℕ) (heap : RoomRef → Room) (m : Map (List ℕ) RoomRef)
    → length (busy_rooms now heap m) ≤ length m
unfolding busy_rooms
length-busy_rooms-le now heap [] = omega arith
length-busy_rooms-le now heap ((k, p) ∷ m) =
    let rest = length-busy_rooms-le now heap m in
    elim (Bool-cases (bytes_eq k default_id)) [
      | inl t ↦ rw t (omega (arith, rest))
      | inr t ↦ elim (Bool-cases (is_idle room_idle_timeout now (heap p))) [
        | inl f ↦ rw (t, f) (omega (arith, rest))
        | inr f ↦ rw (t, f) (omega (arith, rest))
      ]
    ]

server_step-Kept :
    (ops : NetOps) (crypto : Crypto) (s : Server) (e : ServerEvent)
    → Kept s
    → Kept (server_step ops crypto s e)
unfolding server_step cleanup_idle_rooms cleanup_stale_addr_to_room
server_step-Kept ops crypto s (registers_in env payload from) v =
    handle_register_multi_room-Kept ops env payload from s v
server_step-Kept ops crypto s (rebinds env payload from) v =
    handle_rebind-Kept crypto env payload from s v
server_step-Kept ops crypto s (in_room p e) v =
    let (a, b) = v.sound p in
    record {
      limit = v.limit;
      sound =
          store_room-IsSound p _ s.room_heap
            (step-IsSeated crypto (s.room_heap p) e a, step-Inv crypto (s.room_heap p) e b) v.sound;
    }
server_step-Kept ops crypto s (drops_idle now) v = record {
  limit = λ b. omega (arith, v.limit b, length-busy_rooms-le now s.room_heap s.rooms);
  sound = v.sound;
}
server_step-Kept ops crypto s drops_routes v = record { limit = v.limit; sound = v.sound }

-- Whatever registrations, rebinds, events of single rooms and cleanups a server in multi-room mode
-- goes through: if it has no more rooms than its limit, and every room is within its own limits and
-- its table, its map of addresses and its bitmap agree, then this is so afterwards.
pub server_run-Kept :
    (ops : NetOps) (crypto : Crypto) (s : Server) (es : List ServerEvent)
    → Kept s
    → Kept (server_run ops crypto s es)
unfolding server_run
server_run-Kept ops crypto s [] v = v
server_run-Kept ops crypto s (e ∷ es) v =
    server_run-Kept ops crypto (server_step ops crypto s e) es (server_step-Kept ops crypto s e v)
