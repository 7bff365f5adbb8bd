-- ===== src/Examples/Relays.antt =====
-- Relayed packets, in a room with one client.
use gametunnel.Base.{ℕ, ◌≡◌, refl, Bool, true, some, none, List, [], ◌∷◌, ◌++◌, replicate, arith}
use gametunnel.Bytes.{byte_at, slice}
use gametunnel.Net.{UdpAddr, addr_to_rate_key, ip_key, to4}
use gametunnel.Map.{lookup, bytes_key}
use gametunnel.Protocol.Data.{parse_data_header, has_token}
use gametunnel.Server.Room.{Room, Client, Env, auth_none, rate_key, rate_key_eq}
use gametunnel.Server.Room.Create.{RoomConfig, new_room}
use gametunnel.Server.Room.Relay.{
  try_migrate, handle_relay, relay_from, check_token, has_session_token, check_token_at,
  validate_session_token, forward,
}
use gametunnel.Server.Room.Relaying.{IsAuthentic, handle_relay-IsAuthentic, try_migrate-unannounced}

abbrev pub home : UdpAddr
home = record { ip = 1 ∷ 2 ∷ 3 ∷ 4 ∷ []; port = 4000 }

abbrev pub away : UdpAddr
away = record { ip = 5 ∷ 6 ∷ 7 ∷ 8 ∷ []; port = 4001 }

abbrev pub clock : Env
clock = record { now = 5; new_token = none; new_challenge = none }

abbrev pub ann : Client
ann = record {
  username = 97 ∷ [];
  virtual_ip = 10 ∷ 10 ∷ 0 ∷ 2 ∷ [];
  public_addr = some home;
  nat_type = 0;
  last_seen = 0;
  session_token = replicate 16 3;
  auth = auth_none;
  challenge = [];
  challenge_at = 0;
  auth_room_id = 108 ∷ [];
  client_version = 0x0110;
}

abbrev open_config : RoomConfig
open_config = record {
  room_pass = [];
  subnet = record { b0 = 10; b1 = 10; b2 = 0 };
  max_players = 2;
  max_per_ip = 0;
}

abbrev pub ann_room : Room
ann_room = record (new_room open_config 0) {
  heap = λ p. ann;
  next_ref = 1;
  clients = (ip_key (10 ∷ 10 ∷ 0 ∷ 2 ∷ []), 0) ∷ [];
  addr_map = (addr_to_rate_key home, 0) ∷ [];
}

-- From ann to herself, with her token.
abbrev to_self : List ℕ
to_self = (10 ∷ 10 ∷ 0 ∷ 2 ∷ 10 ∷ 10 ∷ 0 ∷ 2 ∷ 1 ∷ 2 ∷ []) ++ (replicate 16 3 ++ (69 ∷ []))

-- The same without a token.
abbrev tokenless : List ℕ
tokenless = 10 ∷ 10 ∷ 0 ∷ 2 ∷ 10 ∷ 10 ∷ 0 ∷ 2 ∷ 1 ∷ 0 ∷ 69 ∷ []

abbrev pub unlimited : UdpAddr → ℕ → Bool
unlimited a n = true

unannounced_example :
    let (after, found) = try_migrate clock away (10 ∷ 10 ∷ 0 ∷ 2 ∷ []) tokenless ann_room in
    (found ≡ some 0)
    × (lookup (ip_key (10 ∷ 10 ∷ 0 ∷ 2 ∷ [])) after.clients ≡ some 0)
    × ((after.heap 0).public_addr ≡ some away)
    × ((after.heap 0).session_token ≡ replicate 16 3)
    × (lookup (addr_to_rate_key away) after.addr_map ≡ some 0)
unfolding lookup ip_key addr_to_rate_key rate_key_eq parse_data_header byte_at has_token
unannounced_example =
    try_migrate-unannounced clock away (10 ∷ 10 ∷ 0 ∷ 2 ∷ []) tokenless ann_room 0 0 10 true refl
      refl (omega arith) refl refl

forwarded :
    (handle_relay unlimited clock to_self home ann_room).1
    ≡ some (forward unlimited to_self 0 ann_room)
unfolding handle_relay relay_from lookup addr_to_rate_key ip_key rate_key_eq to4 check_token
    check_token_at has_session_token validate_session_token parse_data_header byte_at has_token
    slice
forwarded = refl

relayed_example : IsAuthentic home to_self (handle_relay unlimited clock to_self home ann_room).0
relayed_example =
    handle_relay-IsAuthentic unlimited clock to_self home ann_room
      (forward unlimited to_self 0 ann_room) forwarded
