-- ===== src/Examples/Joins.antt =====
-- Registration of a client, at concrete values.
use gametunnel.Base.{ℕ, ◌≡◌, refl, true, some, none, List, [], ◌∷◌, replicate, arith, inr}
use gametunnel.Net.{addr_to_rate_key, to4}
use gametunnel.Map.{lookup}
use gametunnel.Protocol.Packet.{Message, encode_checked}
use gametunnel.Protocol.Packet.RoundTrip.{decode_checked-encode_checked}
use gametunnel.Protocol.AssignIp.{marshal_assign_ip}
use gametunnel.Protocol.Auth.{marshal_auth_challenge}
use gametunnel.Server.Dispatch.{incoming, message, type_auth_response}
use gametunnel.Server.Room.{Room, Client, Env, Crypto, auth_challenge_sent, rate_key, rate_key_eq}
use gametunnel.Server.Bitmap.{next_available, mark_ip_used, empty_bitmap}
use gametunnel.Server.Room.Create.{new_room}
use gametunnel.Server.Room.Helpers.{check_capacity_and_duplicate, name_taken}
use gametunnel.Server.Room.Auth.{get_auth_key, handle_auth_response}
use gametunnel.Client.Tunnel.{Tunnel, Session}
use gametunnel.Client.Route.Agree.{net_of}
use gametunnel.Client.Register.{
  Handshake, joins, datagram, nothing_read, init_ciphers, handle_assign_ip, handle_auth_challenge,
  handle_reg_response, register_loop, type_assign_ip,
}
use gametunnel.Client.Register.Joining.{IsJoined, register_loop-IsJoined}
use gametunnel.Client.Register.Assigning.{assignment, handle_assign_ip-assignment}
use gametunnel.Client.Register.Answering.{IsAdmitted, handle_auth_challenge-admit}
use gametunnel.Examples.Relays.{home, clock, ann, ann_room}
use gametunnel.Examples.Received.{seen}

abbrev fixed : Handshake
fixed = record {
  derive_key = λ pass id. some (replicate 32 8);
  compute_hmac = λ key challenge room user addr. replicate 32 7;
  random_enc = some (replicate 8 1);
  random_dec = some (replicate 8 2);
  random_p2p = some (replicate 8 3);
  resolve = λ text. some home;
}

abbrev same_keys : Crypto
same_keys = record {
  derive_key = λ pass id. some (replicate 32 8);
  verify_hmac = λ key hmac challenge room_id username addr. true;
}

abbrev free_tunnel : Tunnel
free_tunnel = record seen { session = record seen.session { room_pass = [] } }

free_assigned :
    (buf : List ℕ) × (t' : Tunnel) × (marshal_assign_ip
        (assignment (record { b0 = 10; b1 = 10; b2 = 0 }) 2 (replicate 16 3))
      ≡ some buf)
    × (handle_assign_ip fixed buf free_tunnel ≡ inr t')
    × (t'.session.virtual_ip ≡ some (10 ∷ 10 ∷ 0 ∷ 2 ∷ []))
    × (t'.session.session_token ≡ replicate 16 3)
    × (t'.session.cached_subnet ≡ some (net_of (record { b0 = 10; b1 = 10; b2 = 0 })))
    × (t'.crypto ≡ record { enc_cipher = none; dec_cipher = none; p2p_cipher = none })
unfolding init_ciphers
free_assigned =
    handle_assign_ip-assignment fixed (record { b0 = 10; b1 = 10; b2 = 0 }) 2 (replicate 16 3)
      (record { enc_cipher = none; dec_cipher = none; p2p_cipher = none }) free_tunnel
      (record { b0_byte = omega arith; b1_byte = omega arith; b2_byte = omega arith }) (omega arith)
      refl refl

assigned_example :
    (buf : List ℕ) × (t' : Tunnel) × (marshal_assign_ip
        (assignment (record { b0 = 10; b1 = 10; b2 = 0 }) 2 (replicate 16 3))
      ≡ some buf)
    × (handle_assign_ip fixed buf free_tunnel ≡ inr t')
    × (t'.session.virtual_ip ≡ some (10 ∷ 10 ∷ 0 ∷ 2 ∷ []))
    × (t'.session.session_token ≡ replicate 16 3)
    × (t'.session.cached_subnet ≡ some (net_of (record { b0 = 10; b1 = 10; b2 = 0 })))
    × (t'.crypto ≡ record { enc_cipher = none; dec_cipher = none; p2p_cipher = none })
unfolding init_ciphers
assigned_example =
    handle_assign_ip-assignment fixed (record { b0 = 10; b1 = 10; b2 = 0 }) 2 (replicate 16 3)
      (record { enc_cipher = none; dec_cipher = none; p2p_cipher = none }) free_tunnel
      (record { b0_byte = omega arith; b1_byte = omega arith; b2_byte = omega arith }) (omega arith)
      refl refl

-- bob has registered and got a challenge.
abbrev challenged_bob : Client
challenged_bob = record ann {
  username = 98 ∷ [];
  auth = auth_challenge_sent;
  challenge = replicate 16 4;
}

abbrev waiting_room : Room
waiting_room = record ann_room { room_pass = 115 ∷ []; heap = λ p. challenged_bob; clients = [] }

abbrev bob_session : Session
bob_session = record seen.session { username = 98 ∷ [] }

-- "home"
abbrev home_text : List ℕ
home_text = 104 ∷ 111 ∷ 109 ∷ 101 ∷ []

abbrev with_token : Env
with_token = record clock { new_token = some (replicate 16 5) }

welcomed_bob_example :
    (packet : List ℕ) × (m : Message) × (handle_auth_challenge fixed
        (marshal_auth_challenge (record { challenge = replicate 16 4; client_addr = home_text }))
        bob_session
      ≡ inr packet)
    × (incoming true packet ≡ message m)
    × (m.typ ≡ type_auth_response)
    × (let (after, sent) = handle_auth_response same_keys with_token m.payload home waiting_room in
        IsAdmitted with_token home waiting_room 0 2 (replicate 16 5) after sent)
unfolding lookup addr_to_rate_key rate_key_eq get_auth_key check_capacity_and_duplicate name_taken
    new_room to4 next_available mark_ip_used empty_bitmap
welcomed_bob_example =
    handle_auth_challenge-admit fixed same_keys with_token home waiting_room 0 bob_session
      (replicate 32 8) home_text (replicate 16 5) 2 (λ c room user a. refl) (λ c room user a. refl)
      refl refl refl (omega arith) (omega arith) (omega arith) (omega arith) (omega arith)
      (omega arith) refl refl refl (omega arith) refl refl refl

free_joins :
    (register_loop fixed 0 0
      (nothing_read ∷ datagram (encode_checked type_assign_ip free_assigned.0) ∷ [])
      free_tunnel).0
    ≡ joins free_assigned.1
unfolding register_loop handle_reg_response
free_joins =
    rw
      (register_loop, decode_checked-encode_checked type_assign_ip free_assigned.0, free_assigned.3)
      refl

joined_example : IsJoined free_assigned.1
joined_example =
    register_loop-IsJoined fixed 0 0
      (nothing_read ∷ datagram (encode_checked type_assign_ip free_assigned.0) ∷ []) free_tunnel
      free_assigned.1 free_joins
