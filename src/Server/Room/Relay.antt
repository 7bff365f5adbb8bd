-- ===== src/Server/Room/Relay.antt =====
-- internal/server/room_relay.go: relaying, and the migration of a client to a new address. The
-- bandwidth limiter is a function that says whether a packet of some size may go to an address; what
-- is sent is a list of packets with their addresses. internal/netutil/broadcast.go is here too.
use gametunnel.Base.{
  ℕ, ◌+◌, Bool, true, false, not, ◌&&◌, ◌||◌, Option, none, some, List, [], ◌∷◌, leb, ltb, ◌==◌,
  if◌then◌else◌, length, take, drop, bytes_eq, replicate,
}
use gametunnel.Bytes.{Result, ok, err, panic, ◌>>=◌, slice}
use gametunnel.Net.{Ip, UdpAddr, RateKey, addr_to_rate_key, ip_key, to4}
use gametunnel.Map.{Map, lookup, insert, erase, bytes_key}
use gametunnel.Protocol.Packet.{min_token_version, encode, encode_checked}
use gametunnel.Protocol.Data.{parse_data_header, has_token, data_token_len}
use gametunnel.Server.Room.{Client, Ref, Room, Env, Subnet, rate_key}
use gametunnel.Server.Room.Helpers.{store}

-- Is the destination a broadcast or multicast address? The mask of a room is that of a /24.
unfoldable pub is_relay_target : List ℕ → Subnet → Bool
is_relay_target dst subnet =
    bytes_eq dst (255 ∷ 255 ∷ 255 ∷ 255 ∷ [])
    || (bytes_eq dst (subnet.b0 ∷ subnet.b1 ∷ subnet.b2 ∷ 255 ∷ [])
        || elim dst [ [] ↦ false | b ∷ bs ↦ leb 224 b && leb b 239 ])

unfoldable pub has_session_token : Client → Bool
has_session_token c = not (bytes_eq c.session_token (replicate 16 0))

unfoldable pub validate_session_token : Client → List ℕ → Bool
validate_session_token c token = length token == 16 && bytes_eq c.session_token token

-- The token at this offset of the payload.
unfoldable pub check_token_at : Client → List ℕ → ℕ → Result Bool
unfolding validate_session_token
check_token_at c payload off =
    if ltb (length payload) (off + data_token_len)
    then ok false
    else (slice payload off (off + data_token_len) >>= λ token. ok (validate_session_token c token))

-- The check of the session token, which handleRelay and tryMigrateAddrMap both make: is the packet
-- let through? A packet whose flags announce no token is.
unfoldable pub check_token : Client → List ℕ → Result Bool
unfolding check_token_at has_session_token
check_token c payload =
    if leb min_token_version c.client_version && has_session_token c
    then if leb (length payload) 8
      then ok false
      else (parse_data_header payload >>= λ header.
          if has_token header.0 then check_token_at c payload header.1 else ok true)
    else ok true

unfoldable pub forget_old : Option UdpAddr → Map RateKey Ref → Map RateKey Ref
forget_old none m = m
forget_old (some old) m = erase (addr_to_rate_key old) m

-- The client moves to the sender's address.
unfoldable pub move_client : Env → UdpAddr → Ref → Room → Room
unfolding store forget_old
move_client env from p r =
    let c = r.heap p in
    record r {
      heap = store p (record c { public_addr = some from; last_seen = env.now }) r.heap;
      addr_map = insert (addr_to_rate_key from) p (forget_old c.public_addr r.addr_map);
    }

-- Under the write lock, where both maps are read again.
unfoldable pub migrate_locked : Env → UdpAddr → Ip → Ref → Room → Room × Option Ref
unfolding move_client
migrate_locked env from src p r = elim (lookup (addr_to_rate_key from) r.addr_map) [
  | some existing ↦ (r, some existing)
  | none ↦ elim (lookup (ip_key src) r.clients) [
    | none ↦ (r, none)
    | some q ↦ (move_client env from p r, some p)
  ]
]

abbrev pub if_accepted : Room × Option Ref → Room → Result Bool → Room × Option Ref
if_accepted moved r (ok accepted) = if accepted then moved else (r, none)
if_accepted moved r (err e) = (r, none)
if_accepted moved r panic = (r, none)

unfoldable pub try_migrate : Env → UdpAddr → Ip → List ℕ → Room → Room × Option Ref
unfolding migrate_locked check_token
try_migrate env from src payload r = elim (lookup (ip_key src) r.clients) [
  | none ↦ (r, none)
  | some p ↦ if_accepted (migrate_locked env from src p r) r (check_token (r.heap p) payload)
]

-- Every client with an address but the sender.
unfoldable pub broadcast_targets : (Ref → Client) → Ref → Map (List ℕ) Ref → List UdpAddr
broadcast_targets heap sender [] = []
broadcast_targets heap sender ((k, p) ∷ m) =
    let rest = broadcast_targets heap sender m in
    if p == sender then rest else elim (heap p).public_addr [ none ↦ rest | some a ↦ a ∷ rest ]

unfoldable pub unicast_targets : List ℕ → Room → List UdpAddr
unicast_targets dst r = elim (lookup (ip_key dst) r.clients) [
  | none ↦ []
  | some p ↦ elim (r.heap p).public_addr [ none ↦ [] | some a ↦ a ∷ [] ]
]

-- `addr.IP.Equal(tcpBridgeAddr)`
unfoldable pub is_bridge : UdpAddr → Bool
is_bridge a = elim (to4 a.ip) [ none ↦ false | some v ↦ bytes_eq v (127 ∷ 0 ∷ 0 ∷ 254 ∷ []) ]

-- Packets for the TCP bridge's address pass the limiter.
unfoldable pub within_limit : (UdpAddr → ℕ → Bool) → ℕ → List UdpAddr → List UdpAddr
unfolding is_bridge
within_limit allow size [] = []
within_limit allow size (a ∷ addrs) =
    let rest = within_limit allow size addrs in
    if is_bridge a || allow a size then a ∷ rest else rest

abbrev pub type_data : ℕ
type_data = 6

-- What is sent on: the receivers and the packet.
unfoldable pub forward : (UdpAddr → ℕ → Bool) → List ℕ → Ref → Room → List UdpAddr × List ℕ
unfolding is_relay_target broadcast_targets unicast_targets within_limit
forward allow payload sender r =
    let dst = take 4 (drop 4 payload) in
    let packet =
      if length r.room_pass == 0
      then encode_checked type_data payload
      else encode type_data payload in
    if is_relay_target dst r.subnet
    then (broadcast_targets r.heap sender r.clients, packet)
    else (within_limit allow (length packet) (unicast_targets dst r), packet)

-- The sender is known: its address inside the network and its token are checked.
unfoldable pub relay_from :
    (UdpAddr → ℕ → Bool) → List ℕ → Ref → Room → Option (List UdpAddr × List ℕ)
unfolding check_token forward
relay_from allow payload sender r =
    let c = r.heap sender in
    elim (to4 c.virtual_ip) [
      | none ↦ none
      | some vip ↦
          if bytes_eq vip (take 4 payload)
          then elim (check_token c payload) [
            | ok accepted ↦ if accepted then some (forward allow payload sender r) else none
            | err e ↦ none
            | panic ↦ none
          ]
          else none
    ]

unfoldable pub handle_relay :
    (UdpAddr → ℕ → Bool) → Env → List ℕ → UdpAddr → Room → Room × Option (List UdpAddr × List ℕ)
unfolding try_migrate relay_from
handle_relay allow env payload from r =
    if ltb (length payload) 8 then (r, none) else elim (lookup (addr_to_rate_key from) r.addr_map) [
      | some sender ↦ (r, relay_from allow payload sender r)
      | none ↦
          let (r', found) = try_migrate env from (take 4 payload) payload r in
          elim found [ none ↦ (r', none) | some sender ↦ (r', relay_from allow payload sender r') ]
    ]
