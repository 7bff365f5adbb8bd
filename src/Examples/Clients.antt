-- ===== src/Examples/Clients.antt =====
-- The client's packets, its peers and what it receives, at concrete values.
use gametunnel.Base.{
  ℕ, zero, suc, ◌≡◌, refl, true, false, some, List, [], ◌∷◌, replicate, arith, length-append,
}
use gametunnel.Bytes.{ok}
use gametunnel.Net.{addr_to_rate_key, ip_key, to4}
use gametunnel.Map.{lookup, bytes_key}
use gametunnel.Crypto.{plain, decrypt_into}
use gametunnel.Protocol.Packet.{Message, decode, decode_checked}
use gametunnel.Protocol.Data.{DataPayload, unmarshal_data}
use gametunnel.Server.Dispatch.{incoming, message}
use gametunnel.Server.Room.Create.{new_room}
use gametunnel.Server.Room.{Room, Client, Ref, rate_key, rate_key_eq}
use gametunnel.Server.Room.Relay.{handle_relay, is_relay_target}
use gametunnel.Client.Route.{build_data_packet, build_encrypted_data_packet, client_relay_target}
use gametunnel.Client.Route.Delivered.{build_data_packet-delivered}
use gametunnel.Client.Route.Agree.{client_relay_target-is_relay_target}
use gametunnel.Client.Route.Sealed.{build_encrypted-delivered}
use gametunnel.Examples.Relays.{home, away, clock, ann, ann_room, unlimited}
use gametunnel.Examples.Queues.{tagging, sending}

abbrev here : List ℕ
here = 10 ∷ 10 ∷ 0 ∷ 2 ∷ []

abbrev there : List ℕ
there = 10 ∷ 10 ∷ 0 ∷ 3 ∷ []

-- Ann and ben, at the two addresses.
abbrev ben : Client
ben = record ann { username = 98 ∷ []; virtual_ip = there; public_addr = some away }

abbrev two_clients : Ref → Client
two_clients zero = ann
two_clients (suc p) = ben

abbrev pair_room : Room
pair_room = record ann_room {
  heap = two_clients;
  next_ref = 2;
  clients = (ip_key here, 0) ∷ (ip_key there, 1) ∷ [];
  addr_map = (addr_to_rate_key home, 0) ∷ (addr_to_rate_key away, 1) ∷ [];
}

delivered_example :
    (m : Message) × (sent : List ℕ) × (incoming false
        (build_data_packet here there (69 ∷ []) 0 (replicate 16 3))
      ≡ message m)
    × (handle_relay unlimited clock m.payload home pair_room ≡ (pair_room, some (away ∷ [], sent)))
    × (decode_checked sent ≡ ok m)
    × ((d : DataPayload) × (unmarshal_data m.payload ≡ ok d)
        × (d.src_ip ≡ here)
        × (d.dst_ip ≡ there)
        × (d.bytes ≡ 69 ∷ []))
unfolding lookup addr_to_rate_key rate_key_eq to4 new_room is_relay_target ip_key
delivered_example =
    build_data_packet-delivered unlimited clock home away pair_room 0 1 here there (69 ∷ []) refl
      refl refl refl refl refl refl refl (λ size. refl)

abbrev locked_room : Room
locked_room = record pair_room { room_pass = 115 ∷ [] }

sealed_example :
    (m : Message) × (wire : List ℕ) × (sent : List ℕ) × ((build_encrypted_data_packet tagging here
        there
        (69 ∷ [])
        sending
        0
        (replicate 16 3)).1
      ≡ some wire)
    × (incoming true wire ≡ message m)
    × (handle_relay unlimited clock m.payload home locked_room
        ≡ (locked_room, some (away ∷ [], sent)))
    × (decode sent ≡ ok m)
    × ((d : DataPayload) × (unmarshal_data m.payload ≡ ok d)
        × (d.src_ip ≡ here)
        × (d.dst_ip ≡ there)
        × ((decrypt_into tagging [] d.bytes sending).1 ≡ plain (69 ∷ [])))
unfolding lookup addr_to_rate_key rate_key_eq to4 new_room is_relay_target ip_key
sealed_example =
    build_encrypted-delivered tagging (λ nonce p. refl)
      (λ nonce p. omega (arith, length-append (replicate 16 0) p)) unlimited clock home away
      locked_room 0 1 here there (69 ∷ []) sending sending (omega arith) refl refl refl refl refl
      (omega arith) (omega arith) refl refl refl (λ size. refl)

broadcast_agreed_example :
    client_relay_target
      (10 ∷ 10 ∷ 0 ∷ 255 ∷ [])
      (some (record { ip = 10 ∷ 10 ∷ 0 ∷ 0 ∷ []; mask = 255 ∷ 255 ∷ 255 ∷ 0 ∷ [] }))
    ≡ ok (is_relay_target (10 ∷ 10 ∷ 0 ∷ 255 ∷ []) (record { b0 = 10; b1 = 10; b2 = 0 }))
broadcast_agreed_example =
    client_relay_target-is_relay_target 10 10 0 255 (record { b0 = 10; b1 = 10; b2 = 0 })
      (record { b0_byte = omega arith; b1_byte = omega arith; b2_byte = omega arith })
