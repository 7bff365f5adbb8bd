-- ===== src/Examples/Seats.antt =====
-- Two clients in a room without a password, and a server around it.
use gametunnel.Base.{
  All, ℕ, ◌≡◌, ◌≢◌, ◌≤◌, ◌<◌, refl, true, false, List, [], ◌∷◌, replicate, some, none, arith,
}
use gametunnel.Net.{UdpAddr, ip_key, ipv4, addr_to_rate_key, conn_ip_key}
use gametunnel.Map.{lookup, insert, bytes_key}
use gametunnel.Protocol.Register.{RegisterPayload, marshal_register, unmarshal_register}
use gametunnel.Server.Bitmap.{is_used, next_available, empty_bitmap, mark_ip_used}
use gametunnel.Bytes.{need, slice, u16_at, opt_u16_at}
use gametunnel.Protocol.Packet.{is_compatible}
use gametunnel.Utf8.{rune_count}
use gametunnel.Server.Room.{Room, Env, Crypto, rate_key, rate_key_eq, is_pending, Subnet}
use gametunnel.Server.Room.Helpers.{do_register_client}
use gametunnel.Server.Room.Create.{RoomConfig, new_room, new_room-Inv}
use gametunnel.Server.Room.Lifecycle.{Event, registers, run}
use gametunnel.Server.Room.Seats.Running.{run-seated, run-fresh, run-entry, new_room-IsSeated}
use gametunnel.Protocol.Rebind.{marshal_rebind}
use gametunnel.Server.Subnets.{
  NetOps, allocate_subnet, allocate_subnet-some, max_index, candidate_at, subnet_overlaps_any,
}
use gametunnel.Server.Rooms.{
  Server, ServerEvent, registers_in, rebinds, in_room, drops_idle, drops_routes, server_run,
}
use gametunnel.Server.Rooms.Keep.{Kept}
use gametunnel.Server.Rooms.Running.{server_run-Kept}

abbrev no_crypto : Crypto
no_crypto = record {
  derive_key = λ pass id. none;
  verify_hmac = λ key hmac challenge room_id username addr. false;
}

abbrev open_config : RoomConfig
open_config = record {
  room_pass = [];
  subnet = record { b0 = 10; b1 = 10; b2 = 0 };
  max_players = 4;
  max_per_ip = 0;
}

abbrev at_five : Env
at_five = record { now = 5; new_token = some (replicate 16 1); new_challenge = none }

abbrev home : UdpAddr
home = record { ip = 1 ∷ 2 ∷ 3 ∷ 4 ∷ []; port = 4000 }

abbrev office : UdpAddr
office = record { ip = 1 ∷ 2 ∷ 3 ∷ 5 ∷ []; port = 4000 }

abbrev anna : RegisterPayload
anna = record { room_id = 108 ∷ []; username = 97 ∷ []; version = 0x0110 }

abbrev bert : RegisterPayload
bert = record { room_id = 108 ∷ []; username = 98 ∷ []; version = 0x0110 }

abbrev cabin : UdpAddr
cabin = record { ip = 1 ∷ 2 ∷ 3 ∷ 6 ∷ []; port = 4000 }

abbrev carl : RegisterPayload
carl = record { room_id = 108 ∷ []; username = 99 ∷ []; version = 0x0110 }

abbrev both : List Event
both =
    registers at_five (marshal_register anna) home
    ∷ registers at_five (marshal_register bert) office
    ∷ []

abbrev after : Room
after = run no_crypto (new_room open_config 0) both

anna_found : lookup (ip_key (ipv4 10 10 0 2)) after.clients ≡ some 0
unfolding run new_room lookup need slice u16_at ip_key ipv4 marshal_register unmarshal_register
    opt_u16_at is_compatible rune_count insert conn_ip_key next_available mark_ip_used empty_bitmap
    rate_key_eq addr_to_rate_key
anna_found = refl

carl_seated : (do_register_client at_five carl cabin after).1 ≡ some (ipv4 10 10 0 4)
unfolding run new_room lookup need slice u16_at ip_key ipv4 marshal_register unmarshal_register
    opt_u16_at is_compatible rune_count insert conn_ip_key next_available mark_ip_used empty_bitmap
    rate_key_eq addr_to_rate_key do_register_client
carl_seated = refl

route_found : lookup (addr_to_rate_key office) after.addr_map ≡ some 1
unfolding run new_room lookup need slice u16_at ip_key ipv4 marshal_register unmarshal_register
    opt_u16_at is_compatible rune_count insert conn_ip_key next_available mark_ip_used empty_bitmap
    rate_key_eq addr_to_rate_key
route_found = refl

bert_settled : is_pending (after.heap 1) ≡ false
unfolding run new_room lookup need slice u16_at ip_key ipv4 marshal_register unmarshal_register
    opt_u16_at is_compatible rune_count insert conn_ip_key next_available mark_ip_used empty_bitmap
    rate_key_eq addr_to_rate_key
bert_settled = refl

seated_example :
    (is_pending (after.heap 0) ≡ false)
    × (ip_key (ipv4 10 10 0 2) ≡ ip_key (after.heap 0).virtual_ip)
    × ((octet : ℕ) × (2 ≤ octet)
        × (octet < 255)
        × ((after.heap 0).virtual_ip ≡ ipv4 after.subnet.b0 after.subnet.b1 after.subnet.b2 octet)
        × (is_used after.ip_bitmap octet ≡ true))
seated_example = run-seated no_crypto open_config 0 both (ip_key (ipv4 10 10 0 2)) 0 anna_found

fresh_example :
    (lookup (ip_key (ipv4 10 10 0 4)) after.clients ≡ none)
    × (lookup (ip_key (ipv4 10 10 0 4)) (do_register_client at_five carl cabin after).0.clients
        ≡ some after.next_ref)
    × (lookup (ip_key (ipv4 10 10 0 2)) (do_register_client at_five carl cabin after).0.clients
        ≡ some 0)
    × (ipv4 10 10 0 4 ≢ (after.heap 0).virtual_ip)
fresh_example =
    run-fresh no_crypto open_config 0 both at_five carl cabin (ipv4 10 10 0 4)
      (ip_key (ipv4 10 10 0 2)) 0 carl_seated anna_found

entry_example :
    ((a : UdpAddr) × ((after.heap 1).public_addr ≡ some a)
      × (addr_to_rate_key a ≡ addr_to_rate_key office))
    × (lookup (ip_key (after.heap 1).virtual_ip) after.clients ≡ some 1)
entry_example =
    run-entry no_crypto open_config 0 both (addr_to_rate_key office) 1 route_found bert_settled

-- A server in multi-room mode, before its first packet.
abbrev new_server : Server
new_server = record {
  multi_room = true;
  room_pass = [];
  base_subnet = record { b0 = 10; b1 = 10; b2 = 0 };
  local_subnets = [];
  max_rooms = 1;
  room_heap = λ p. new_room open_config 0;
  next_room = 0;
  rooms = [];
  addr_to_room = [];
}

-- Networks that are never the same.
abbrev far_apart : NetOps
far_apart = record { contains = λ n a. false; equal = λ a b. false }

abbrev served : List ServerEvent
served =
    registers_in at_five (marshal_register anna) home
    ∷ in_room 0 (registers at_five (marshal_register bert) office)
    ∷ rebinds at_five (marshal_rebind (record { virtual_ip = ipv4 10 10 2 2; hmac = [] })) office
    ∷ drops_idle 9
    ∷ drops_routes
    ∷ []

new_server-Kept : Kept new_server
new_server-Kept = record {
  limit = λ b. omega arith;
  sound = λ p. (new_room-IsSeated open_config 0, new_room-Inv open_config 0);
}

server_example : Kept (server_run far_apart no_crypto new_server served)
server_example = server_run-Kept far_apart no_crypto new_server served new_server-Kept

subnet_example :
    (0 < 2)
    × All (λ (s : Subnet). s.b2 < 2) []
    × (2 ≤ 254)
    × (subnet_overlaps_any far_apart (candidate_at new_server.base_subnet 2) [] ≡ false)
    × ((j : ℕ)
        → max_index 1 [] < j
        → j < 2
        → subnet_overlaps_any far_apart (candidate_at new_server.base_subnet j) [] ≡ true)
unfolding allocate_subnet max_index
subnet_example = allocate_subnet-some far_apart new_server.base_subnet [] [] 2 refl
