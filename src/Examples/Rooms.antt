-- ===== src/Examples/Rooms.antt =====
-- A room and its bitmap at concrete values.
use gametunnel.Base.{
  ℕ, ◌≡◌, ◌⊎◌, refl, ◌<◌, ◌≤◌, true, false, List, [], ◌∷◌, replicate, arith, some, none,
}
use gametunnel.Net.{UdpAddr, ip_key, addr_to_rate_key}
use gametunnel.Map.{lookup, bytes_key}
use gametunnel.Protocol.Register.{RegisterPayload, marshal_register}
use gametunnel.Server.Bitmap.{empty_bitmap, is_used, next_available}
use gametunnel.Server.Bitmap.Scan.{next_available-some}
use gametunnel.Server.Room.{Room, Client, Env, Crypto, auth_none, rate_key}
use gametunnel.Server.Room.Helpers.{find_placeholder}
use gametunnel.Server.Room.Register.{register_locked, handle_register}
use gametunnel.Server.Room.Auth.{handle_auth_response}
use gametunnel.Server.Room.Lifecycle.{Event, registers, disconnects, cleans_up, reg_ticks, run}
use gametunnel.Server.Room.Invariant.{Inv}
use gametunnel.Server.Room.Create.{RoomConfig, new_room, run-new_room}
use gametunnel.Server.Room.Admission.{handle_register-password_room, register_locked-restored}
use gametunnel.Server.Room.Password.{IsAnswered, handle_auth_response-IsAnswered}

lowest_example :
    (2 ≤ 2)
    × (2 < 255)
    × (is_used empty_bitmap 2 ≡ false)
    × ((j : ℕ) → 2 ≤ j → j < 2 → is_used empty_bitmap j ≡ true)
unfolding empty_bitmap next_available
lowest_example =
    next_available-some empty_bitmap 2
      (record { four = refl; wide = (refl, (refl, (refl, (refl, tt)))) }) refl

abbrev lax_crypto : Crypto
lax_crypto = record {
  derive_key = λ pass id. some pass;
  verify_hmac = λ key hmac challenge room_id username addr. true;
}

abbrev config : RoomConfig
config = record {
  room_pass = 115 ∷ [];
  subnet = record { b0 = 10; b1 = 10; b2 = 0 };
  max_players = 2;
  max_per_ip = 0;
}

abbrev env : Env
env = record { now = 5; new_token = some (replicate 16 1); new_challenge = some (replicate 32 2) }

abbrev sender : UdpAddr
sender = record { ip = 1 ∷ 2 ∷ 3 ∷ 4 ∷ []; port = 4000 }

abbrev ann : RegisterPayload
ann = record { room_id = 108 ∷ []; username = 97 ∷ 110 ∷ 110 ∷ []; version = 0x0110 }

abbrev events : List Event
events =
    registers env (marshal_register ann) sender
    ∷ disconnects env sender
    ∷ cleans_up 9 9
    ∷ reg_ticks
    ∷ []

limits_example : Inv (run lax_crypto (new_room config 0) events)
limits_example = run-new_room lax_crypto config 0 events

password_example :
    (handle_register env (marshal_register ann) sender (new_room config 0)).0.clients
    ≡ (new_room config 0).clients
unfolding new_room
password_example =
    handle_register-password_room env (marshal_register ann) sender (new_room config 0)
      (λ p. omega (arith, p))

answer_example :
    ((handle_auth_response lax_crypto env (1 ∷ []) sender (new_room config 0)).0.clients
      ≡ (new_room config 0).clients)
    ⊎ IsAnswered lax_crypto env sender (new_room config 0) (1 ∷ [])
answer_example = handle_auth_response-IsAnswered lax_crypto env (1 ∷ []) sender (new_room config 0)

-- A client restored from disk: without an address, in the table of clients alone.
abbrev restored : Client
restored = record {
  username = ann.username;
  virtual_ip = 10 ∷ 10 ∷ 0 ∷ 2 ∷ [];
  public_addr = none;
  nat_type = 0;
  last_seen = 0;
  session_token = replicate 16 3;
  auth = auth_none;
  challenge = [];
  challenge_at = 0;
  auth_room_id = ann.room_id;
  client_version = 0x0110;
}

abbrev restored_room : Room
restored_room = record (new_room config 0) {
  heap = λ p. restored;
  next_ref = 1;
  clients = (ip_key (10 ∷ 10 ∷ 0 ∷ 2 ∷ []), 0) ∷ [];
}

restored_example :
    (lookup (addr_to_rate_key sender) (register_locked env ann sender restored_room).0.addr_map
      ≡ some 0)
    × (((register_locked env ann sender restored_room).0.heap 0).public_addr ≡ some sender)
unfolding new_room lookup find_placeholder
restored_example = register_locked-restored env ann sender 0 restored_room refl refl refl
