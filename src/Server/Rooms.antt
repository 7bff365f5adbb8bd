-- ===== src/Server/Rooms.antt =====
-- The rooms of a server: handleRegisterMultiRoom of internal/server/server.go, and handleRebind and the
-- cleanups of internal/server/keepalive_server.go. Rooms are objects on a heap that two maps point
-- into, as in the Go program.
pub mod Keep
pub mod Rebinding
pub mod Running
use gametunnel.Base.{
  ℕ, suc, ◌+◌, ◌-◌, Bool, true, false, ◌&&◌, ◌||◌, Option, none, some, List, [], ◌∷◌, ◌++◌, map,
  leb, ltb, ◌==◌, if◌then◌else◌, length, bytes_eq,
}
use gametunnel.Bytes.{ok, err, panic}
use gametunnel.Net.{Ip, IpNet, UdpAddr, RateKey, addr_to_rate_key, ip_key, to4}
use gametunnel.Map.{Map, lookup, insert, erase, bytes_key}
use gametunnel.Protocol.Register.{RegisterPayload, unmarshal_register}
use gametunnel.Protocol.Rebind.{RebindPayload, unmarshal_rebind}
use gametunnel.Server.Room.{Client, Ref, Room, Env, Crypto, Output, Subnet, rate_key}
use gametunnel.Server.Room.Helpers.{store}
use gametunnel.Server.Room.Create.{RoomConfig, new_room}
use gametunnel.Server.Room.Register.{handle_register, max_room_id_len}
use gametunnel.Server.Room.Lifecycle.{Event, step}
use gametunnel.Server.Room.Relay.{forget_old}
use gametunnel.Server.Subnets.{NetOps, allocate_subnet}

-- Pointers to rooms.
abbrev pub RoomRef : Type 0
RoomRef = ℕ

pub record Server : Type 0 where
  pub multi_room : Bool
  pub room_pass : List ℕ
  pub base_subnet : Subnet
  pub local_subnets : List IpNet
  pub max_rooms : ℕ  -- 0 = no limit
  pub room_heap : RoomRef → Room
  pub next_room : RoomRef
  pub rooms : Map (List ℕ) RoomRef
  pub addr_to_room : Map RateKey RoomRef

pub data ServerOutput : Type 0 where
  of_room : List Output → ServerOutput
  kick_invalid_room kick_room_limit kick_no_subnet : UdpAddr → ServerOutput
  rebind_ack : Bool → UdpAddr → ServerOutput
  peer_info_to : UdpAddr → ServerOutput

-- A write to a room.
unfoldable pub store_room : RoomRef → Room → (RoomRef → Room) → RoomRef → Room
store_room p r h q = if p == q then r else h q

-- The room gets the message, and the sender's address leads to it if it has an entry there now.
unfoldable pub register_in : Env → List ℕ → UdpAddr → RoomRef → Server → Server × List ServerOutput
unfolding store_room
register_in env payload from p s =
    let (r, sent) = handle_register env payload from (s.room_heap p) in
    let s' = record s { room_heap = store_room p r s.room_heap } in
    (
      elim (lookup (addr_to_rate_key from) r.addr_map) [
        | none ↦ s'
        | some c ↦ record s' { addr_to_room = insert (addr_to_rate_key from) p s'.addr_to_room }
      ],
      of_room sent ∷ [],
    )

-- The configuration of a room that a registration creates.
abbrev pub auto_config : Server → Subnet → RoomConfig
auto_config s subnet = record {
  room_pass = s.room_pass;
  subnet = subnet;
  max_players = 254;
  max_per_ip = 3;
}

unfoldable pub add_room : Env → List ℕ → ℕ → Server → Server
unfolding store_room
add_room env room_id idx s =
    let subnet : Subnet = record { b0 = s.base_subnet.b0; b1 = s.base_subnet.b1; b2 = idx } in
    record s {
      room_heap = store_room s.next_room (new_room (auto_config s subnet) env.now) s.room_heap;
      next_room = suc s.next_room;
      rooms = insert room_id s.next_room s.rooms;
    }

abbrev pub subnets_of : Server → List Subnet
subnets_of s = map (λ e. (s.room_heap e.1).subnet) s.rooms

module _ (ops : NetOps) where
  -- The room is there, or is created if the limit and the subnets allow it. Subnets are counted from
  -- `baseSubnet`: a server with several rooms has no default room whose subnet would come first.
  unfoldable pub register_checked_id :
      Env → RegisterPayload → List ℕ → UdpAddr → Server → Server × List ServerOutput
  unfolding register_in add_room
  register_checked_id env reg payload from s = elim (lookup reg.room_id s.rooms) [
    | some p ↦ register_in env payload from p s
    | none ↦
        if ltb 0 s.max_rooms && leb s.max_rooms (length s.rooms)
        then (s, kick_room_limit from ∷ [])
        else elim (allocate_subnet ops (some s.base_subnet) (subnets_of s) s.local_subnets) [
          | none ↦ (s, kick_no_subnet from ∷ [])
          | some idx ↦ register_in env payload from s.next_room (add_room env reg.room_id idx s)
        ]
  ]

  unfoldable pub handle_register_multi_room :
      Env → List ℕ → UdpAddr → Server → Server × List ServerOutput
  unfolding register_checked_id
  handle_register_multi_room env payload from s = elim (unmarshal_register payload) [
    | err e ↦ (s, [])
    | panic ↦ (s, [])
    | ok reg ↦
        if length reg.room_id == 0 || ltb max_room_id_len (length reg.room_id)
        then (s, kick_invalid_room from ∷ [])
        else register_checked_id env reg payload from s
  ]

-- The search of handleRebind, in the order in which the map's entries come.
unfoldable pub find_rebind :
    (RoomRef → Room) → List ℕ → Map (List ℕ) RoomRef → Option (RoomRef × Ref)
find_rebind heap vip_key [] = none
find_rebind heap vip_key ((k, p) ∷ m) = elim (lookup vip_key (heap p).clients) [
  | some c ↦ some (p, c)
  | none ↦ find_rebind heap vip_key m
]

-- 30 seconds.
abbrev pub rebind_window : ℕ
rebind_window = 30_000_000_000

-- A room with a password asks for an HMAC over the address; one without, for a recent sign of life.
unfoldable pub rebind_allowed : Crypto → Env → RebindPayload → Room → Client → Bool
rebind_allowed crypto env req r c =
    if length r.room_pass == 0
    then leb (env.now - c.last_seen) rebind_window
    else if length req.hmac == 0
    then false
    else elim (crypto.derive_key r.room_pass c.auth_room_id) [
      | none ↦ false
      | some key ↦
          crypto.verify_hmac key req.hmac [] c.auth_room_id c.username
            (some (record { ip = req.virtual_ip; port = 0 }))
    ]

-- The client's object and its entry move to the new address.
unfoldable pub rebind_client : Env → UdpAddr → Ref → Room → Room
unfolding store forget_old
rebind_client env from c r =
    let old = r.heap c in
    record r {
      heap = store c (record old { public_addr = some from; last_seen = env.now }) r.heap;
      addr_map = insert (addr_to_rate_key from) c (forget_old old.public_addr r.addr_map);
      last_activity = env.now;
    }

abbrev pub forget_route : Option UdpAddr → Map RateKey RoomRef → Map RateKey RoomRef
forget_route none m = m
forget_route (some a) m = erase (addr_to_rate_key a) m

unfoldable pub rebind_in :
    Crypto → Env → RebindPayload → UdpAddr → RoomRef → Ref → Server → Server × List ServerOutput
unfolding rebind_allowed rebind_client store_room
rebind_in crypto env req from p c s =
    let r = s.room_heap p in
    let routes =
      insert (addr_to_rate_key from) p (forget_route (r.heap c).public_addr s.addr_to_room) in
    if rebind_allowed crypto env req r (r.heap c)
    then (
      record s {
        room_heap = store_room p (rebind_client env from c r) s.room_heap;
        addr_to_room = if s.multi_room then routes else s.addr_to_room;
      },
      rebind_ack true from ∷ peer_info_to from ∷ [],
    )
    else (s, rebind_ack false from ∷ [])

unfoldable pub handle_rebind : Crypto → Env → List ℕ → UdpAddr → Server → Server × List ServerOutput
unfolding find_rebind rebind_in
handle_rebind crypto env payload from s = elim (unmarshal_rebind payload) [
  | err e ↦ (s, [])
  | panic ↦ (s, [])
  | ok req ↦ elim (to4 req.virtual_ip) [
    | none ↦ (s, rebind_ack false from ∷ [])
    | some v ↦ elim (find_rebind s.room_heap (ip_key req.virtual_ip) s.rooms) [
      | none ↦ (s, rebind_ack false from ∷ [])
      | some (p, c) ↦ rebind_in crypto env req from p c s
    ]
  ]
]

-- "default"
abbrev pub default_id : List ℕ
default_id = 100 ∷ 101 ∷ 102 ∷ 97 ∷ 117 ∷ 108 ∷ 116 ∷ []

abbrev pub is_idle : ℕ → ℕ → Room → Bool
is_idle timeout now r = length r.clients == 0 && ltb timeout (now - r.last_activity)

-- 5 minutes.
abbrev pub room_idle_timeout : ℕ
room_idle_timeout = 300_000_000_000

-- cleanupIdleRooms: the map without the rooms that are idle.
unfoldable pub busy_rooms : ℕ → (RoomRef → Room) → Map (List ℕ) RoomRef → Map (List ℕ) RoomRef
busy_rooms now heap [] = []
busy_rooms now heap ((k, p) ∷ m) =
    let rest = busy_rooms now heap m in
    if bytes_eq k default_id
    then (k, p) ∷ rest
    else if is_idle room_idle_timeout now (heap p)
    then rest
    else (k, p) ∷ rest

unfoldable pub cleanup_idle_rooms : ℕ → Server → Server
unfolding busy_rooms
cleanup_idle_rooms now s = record s { rooms = busy_rooms now s.room_heap s.rooms }

-- cleanupStaleAddrToRoom: the routes whose address has an entry in its room.
unfoldable pub live_routes : (RoomRef → Room) → Map RateKey RoomRef → Map RateKey RoomRef
live_routes heap [] = []
live_routes heap ((k, p) ∷ m) =
    let rest = live_routes heap m in
    elim (lookup k (heap p).addr_map) [ none ↦ rest | some c ↦ (k, p) ∷ rest ]

unfoldable pub cleanup_stale_addr_to_room : Server → Server
unfolding live_routes
cleanup_stale_addr_to_room s = record s { addr_to_room = live_routes s.room_heap s.addr_to_room }

-- What can happen to a server in multi-room mode; every room has its own events, too.
pub data ServerEvent : Type 0 where
  registers_in rebinds : Env → List ℕ → UdpAddr → ServerEvent
  in_room : RoomRef → Event → ServerEvent
  drops_idle : ℕ → ServerEvent
  drops_routes : ServerEvent

module _ (ops : NetOps) (crypto : Crypto) where
  unfoldable pub server_step : Server → ServerEvent → Server
  unfolding handle_register_multi_room handle_rebind cleanup_idle_rooms cleanup_stale_addr_to_room
      store_room
  server_step s (registers_in env payload from) =
      (handle_register_multi_room ops env payload from s).0
  server_step s (rebinds env payload from) = (handle_rebind crypto env payload from s).0
  server_step s (in_room p e) = record s {
    room_heap = store_room p (step crypto (s.room_heap p) e) s.room_heap;
  }
  server_step s (drops_idle now) = cleanup_idle_rooms now s
  server_step s drops_routes = cleanup_stale_addr_to_room s

  unfoldable pub server_run : Server → List ServerEvent → Server
  unfolding server_step
  server_run s [] = s
  server_run s (e ∷ es) = server_run (server_step s e) es
