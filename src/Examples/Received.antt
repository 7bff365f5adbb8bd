-- ===== src/Examples/Received.antt =====
-- The peers of a client and what it receives, at concrete values.
use gametunnel.Base.{
  ℕ, ◌≡◌, refl, true, false, some, none, List, [], ◌∷◌, ◌⊎◌, map, replicate, length, take, drop,
  arith,
}
use gametunnel.Bytes.{ok, need, slice, byte_at}
use gametunnel.Net.{IpNet, UdpAddr, ip_key, to4, ip_equal, same_endpoint, is_loopback}
use gametunnel.Map.{lookup, insert, bytes_key}
use gametunnel.Checksum.{crc32, put_u32}
use gametunnel.Crypto.{is_encrypted}
use gametunnel.Protocol.Packet.{Message, decode, message_of, encode, encode_checked}
use gametunnel.Protocol.Data.{
  DataPayload, unmarshal_data, zero_token, data_header, data_offset, data_token, has_token,
}
use gametunnel.Protocol.AddrText.{Ipv6Text}
use gametunnel.Protocol.PeerInfo.{
  PeerInfoEntry, type_peer_info, valid_peers, marshal_peer_info, unmarshal_peer_info,
  with_nat_types, has_nat_info,
}
use gametunnel.Protocol.PeerInfo.Entries.{received}
use gametunnel.Protocol.PeerInfo.RoundTrip.{
  unmarshal_peer_info-marshal_peer_info, unmarshal_peer_info-with_checksum,
}
use gametunnel.Server.Room.{rate_key}
use gametunnel.Client.Tunnel.{Tunnel, Peer}
use gametunnel.Client.Route.{broadcast_of}
use gametunnel.Client.Broadcast.{rewrite_broadcast, is_limited_broadcast}
use gametunnel.Client.Broadcast.Checksum.{verified_sum, rewrite_broadcast-verified}
use gametunnel.Client.Peers.{apply_peers}
use gametunnel.Client.Peers.Table.{is_some, listed, reached, apply_peers-listed}
use gametunnel.Client.Receive.{
  Outside, type_kick, tun_write, known_sender, handle_direct_data, receive_from_server,
  decode_received, from_server, direct_payload, direct_token_ok, decrypt_write_and_release,
  decrypt_write,
}
use gametunnel.Client.Receive.Direct.{handle_direct_data-plain, receive_from_server-kick}
use gametunnel.Client.Receive.Confirms.{IsSender}
use gametunnel.Client.Receive.Reached.{receive_from_server-reached}
use gametunnel.Examples.Relays.{home}
use gametunnel.Examples.Queues.{tagging, sending}

abbrev limited : List ℕ
limited =
    69 ∷ 0 ∷ 0 ∷ 0 ∷ 0 ∷ 0 ∷ 0 ∷ 0 ∷ 0 ∷ 0 ∷ 0 ∷ 0 ∷ 0 ∷ 0 ∷ 0 ∷ 0 ∷ 255 ∷ 255 ∷ 255 ∷ 255 ∷ []

abbrev lan : IpNet
lan = record { ip = 10 ∷ 10 ∷ 0 ∷ 0 ∷ []; mask = 255 ∷ 255 ∷ 255 ∷ 0 ∷ [] }

verified_example :
    (out : List ℕ) × (rewrite_broadcast [] limited (some lan) ≡ ok out)
    × (verified_sum out ≡ 65535)
    × (length out ≡ length limited)
    × (take 4 (drop 16 out) ≡ 10 ∷ 10 ∷ 0 ∷ 255 ∷ [])
unfolding to4 is_limited_broadcast broadcast_of
verified_example =
    rewrite_broadcast-verified [] limited lan (10 ∷ 10 ∷ 0 ∷ 0 ∷ []) (10 ∷ 10 ∷ 0 ∷ 255 ∷ [])
      (
        omega arith,
        (
          omega arith,
          (
            omega arith,
            (
              omega arith,
              (
                omega arith,
                (
                  omega arith,
                  (
                    omega arith,
                    (
                      omega arith,
                      (
                        omega arith,
                        (
                          omega arith,
                          (
                            omega arith,
                            (
                              omega arith,
                              (
                                omega arith,
                                (
                                  omega arith,
                                  (
                                    omega arith,
                                    (
                                      omega arith,
                                      (
                                        omega arith,
                                        (omega arith, (omega arith, (omega arith, tt))),
                                      ),
                                    ),
                                  ),
                                ),
                              ),
                            ),
                          ),
                        ),
                      ),
                    ),
                  ),
                ),
              ),
            ),
          ),
        ),
      )
      refl (omega arith) (omega arith) refl refl
      (omega arith, (omega arith, (omega arith, (omega arith, tt)))) refl

abbrev no_v6 : Ipv6Text
no_v6 = record { show = λ ip. []; parse = λ text. none }

abbrev bob_entry : PeerInfoEntry
bob_entry = record {
  virtual_ip = 10 ∷ 10 ∷ 0 ∷ 3 ∷ [];
  public_addr = some (record { ip = 5 ∷ 6 ∷ 7 ∷ 8 ∷ []; port = 4001 });
  username = 98 ∷ [];
  nat_type = 0;
}

peer_list_example :
    unmarshal_peer_info no_v6 (marshal_peer_info no_v6 (bob_entry ∷ []))
    ≡ ok (map received (valid_peers (bob_entry ∷ [])))
unfolding to4 valid_peers
peer_list_example =
    unmarshal_peer_info-marshal_peer_info no_v6 (bob_entry ∷ [])
      (
        record {
          user_fits = omega arith;
          plain = (
            5,
            6,
            7,
            8,
            refl,
            (omega arith, (omega arith, (omega arith, (omega arith, tt)))),
            omega arith,
          );
        },
        tt,
      )
      (omega arith)

nat_types_example :
    (m : Message) × (decode
        (encode_checked type_peer_info (marshal_peer_info no_v6 (bob_entry ∷ [])))
      ≡ ok m)
    × (unmarshal_peer_info no_v6 m.payload
        ≡ ok (
            with_nat_types
              (map received (valid_peers (bob_entry ∷ [])))
              (put_u32 (crc32 (encode type_peer_info (marshal_peer_info no_v6 (bob_entry ∷ [])))))))
unfolding to4 has_nat_info valid_peers
nat_types_example =
    unmarshal_peer_info-with_checksum no_v6 (bob_entry ∷ [])
      (
        record {
          user_fits = omega arith;
          plain = (
            5,
            6,
            7,
            8,
            refl,
            (omega arith, (omega arith, (omega arith, (omega arith, tt)))),
            omega arith,
          );
        },
        tt,
      )
      (omega arith) refl

abbrev bob : Peer
bob = record {
  virtual_ip = 10 ∷ 10 ∷ 0 ∷ 3 ∷ [];
  public_addr = some (record { ip = 5 ∷ 6 ∷ 7 ∷ 8 ∷ []; port = 4001 });
  username = 98 ∷ [];
  nat_type = 0;
  direct_reach = true;
  last_seen = 1;
  last_punch_back = 0;
  stale = false;
}

abbrev bob_key : List ℕ
bob_key = ip_key (10 ∷ 10 ∷ 0 ∷ 3 ∷ [])

listed_example :
    is_some (lookup bob_key (apply_peers 9 none [] ((bob_key, bob) ∷ [])).0)
    ≡ listed none bob_key []
unfolding lookup
listed_example = apply_peers-listed 9 none [] ((bob_key, bob) ∷ []) bob_key (refl, tt)

abbrev pub seen : Tunnel
seen = record {
  session = record {
    virtual_ip = some (10 ∷ 10 ∷ 0 ∷ 2 ∷ []);
    server_ip = 10 ∷ 10 ∷ 0 ∷ 1 ∷ [];
    server_ip_key = none;
    subnet_mask = 255 ∷ 255 ∷ 255 ∷ 0 ∷ [];
    cached_subnet = some lan;
    session_token = replicate 16 3;
    server_version = 0x0110;
    username = 97 ∷ [];
    room_id = 108 ∷ [];
    room_pass = 115 ∷ [];
  };
  crypto = record { enc_cipher = none; dec_cipher = some sending; p2p_cipher = some sending };
  cached_punch_packet = none;
  server_addr = none;
  peers = (bob_key, bob) ∷ [];
  last_server_response = 0;
  cancel_kicks = false;
  tun_open = true;
}

abbrev bob_addr : UdpAddr
bob_addr = record { ip = 5 ∷ 6 ∷ 7 ∷ 8 ∷ []; port = 4001 }

abbrev outside : Outside
outside = record { aead = tagging; v6 = no_v6; now = 5; stale = [] }

-- Data from bob to ann without a token, which is not encrypted.
abbrev bare : DataPayload
bare = record {
  src_ip = 10 ∷ 10 ∷ 0 ∷ 3 ∷ [];
  dst_ip = 10 ∷ 10 ∷ 0 ∷ 2 ∷ [];
  format_ver = 1;
  flags = 0;
  token = zero_token;
  bytes = 69 ∷ 0 ∷ [];
}

abbrev bare_message : Message
bare_message = record { typ = 6; payload = 10 ∷ 10 ∷ 0 ∷ 3 ∷ 10 ∷ 10 ∷ 0 ∷ 2 ∷ 1 ∷ 0 ∷ 69 ∷ 0 ∷ [] }

unmarshal_bare : unmarshal_data bare_message.payload ≡ ok bare
unfolding need slice byte_at data_header data_offset data_token has_token unmarshal_data
unmarshal_bare = refl

plain_example :
    let (after, sent) = handle_direct_data outside bob_addr bare_message seen in
    (sent ≡ tun_write (69 ∷ 0 ∷ []) ∷ [])
    × (lookup bob_key after.peers ≡ some (record bob { direct_reach = true }))
    × (after.crypto ≡ seen.crypto)
unfolding is_encrypted lookup ip_key same_endpoint ip_equal is_limited_broadcast to4 broadcast_of
plain_example =
    handle_direct_data-plain outside bob_addr bare_message bare bob bob_addr sending seen refl
      unmarshal_bare (ground arith) refl refl refl refl refl refl refl

-- A kick with no reason and no message.
abbrev kick_bytes : List ℕ
kick_bytes = 1 ∷ 10 ∷ 0 ∷ 0 ∷ 0 ∷ 0 ∷ []

kick_example :
    receive_from_server outside home bob_addr kick_bytes seen
    ≡ receive_from_server outside home home kick_bytes seen
unfolding decode_received decode message_of need slice byte_at
kick_example =
    receive_from_server-kick outside home bob_addr home kick_bytes
      (record { typ = type_kick; payload = 0 ∷ 0 ∷ 0 ∷ 0 ∷ [] }) seen refl refl

-- Before bob is reached.
abbrev unseen : Tunnel
unseen = record seen { peers = (bob_key, record bob { direct_reach = false }) ∷ [] }

abbrev bare_wire : List ℕ
bare_wire = 1 ∷ 6 ∷ bare_message.payload

bob_confirmed :
    reached (lookup bob_key (receive_from_server outside home bob_addr bare_wire unseen).0.peers)
    ≡ true
unfolding receive_from_server decode_received decode message_of unmarshal_data from_server
    handle_direct_data direct_payload known_sender direct_token_ok decrypt_write_and_release
    decrypt_write is_encrypted lookup insert ip_key same_endpoint ip_equal to4 need slice byte_at
    data_header data_offset data_token has_token is_loopback
bob_confirmed = refl

reached_example : (false ≡ true) ⊎ IsSender bob_key bob_addr unseen
unfolding lookup ip_key
reached_example =
    receive_from_server-reached outside home bob_addr bare_wire unseen bob_key (refl, tt)
      bob_confirmed
