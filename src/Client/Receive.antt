-- ===== src/Client/Receive.antt =====
-- What the client does with a packet: receiveFromServer and handleServerData of
-- internal/client/recv.go, internal/client/recv_data.go, and the hole punches of
-- internal/client/recv_peer.go and internal/client/holepunch.go. What is written to the TUN device, sent
-- or started is a list of outputs; a burst of hole punches is one output.
pub mod Direct
pub mod Confirms
pub mod Reached
use gametunnel.Base.{
  ℕ, ◌+◌, Bool, true, false, not, ◌&&◌, ◌||◌, Option, none, some, List, [], ◌∷◌, map, leb, ltb,
  ◌==◌, if◌then◌else◌, length, take, bytes_eq,
}
use gametunnel.Bytes.{Result, ok, err, panic, ◌>>=◌, slice}
use gametunnel.Net.{Ip, IpNet, UdpAddr, ip_key, same_endpoint, is_loopback}
use gametunnel.Map.{lookup, insert, bytes_key}
use gametunnel.Crypto.{Aead, Cipher, Decrypted, plain, failed, decrypt_into, is_encrypted}
use gametunnel.Protocol.Packet.{Message, decode, decode_checked, encode_checked}
use gametunnel.Protocol.Data.{
  DataPayload, unmarshal_data, parse_data_header, has_token, data_token_len, zero_token,
}
use gametunnel.Protocol.Rebind.{unmarshal_rebind_ack}
use gametunnel.Protocol.Kick.{unmarshal_kick}
use gametunnel.Protocol.Disconnect.{new_disconnect_error, is_fatal}
use gametunnel.Protocol.AddrText.{Ipv6Text}
use gametunnel.Protocol.PeerInfo.{type_peer_info}
use gametunnel.Server.Room.Relay.{type_data}
use gametunnel.Client.Tunnel.{
  Tunnel, Peer, Session, CryptoState, hole_punch_backoff, try_rate_limit_hole_punch,
}
use gametunnel.Client.Peers.{handle_peer_info}
use gametunnel.Client.Broadcast.{rewrite_broadcast}

abbrev pub type_hole_punch : ℕ
type_hole_punch = 5

abbrev pub type_kick : ℕ
type_kick = 10

abbrev pub type_ping : ℕ
type_ping = 12

abbrev pub type_pong : ℕ
type_pong = 13

abbrev pub type_rebind_ack : ℕ
type_rebind_ack = 17

pub data ClientOutput : Type 0 where
  tun_write : List ℕ → ClientOutput
  sent_ctrl : List ℕ → Option UdpAddr → ClientOutput
  punch_back : UdpAddr → ClientOutput
  punch_peer : Ip → ClientOutput
  rebind_answered : Bool → ClientOutput
  conn_closed : ClientOutput

-- What the handlers read from outside: the AEAD, the text of IPv6 addresses, the clock, and what a
-- buffer of the pool holds.
pub record Outside : Type 0 where
  pub aead : Aead
  pub v6 : Ipv6Text
  pub now : ℕ
  pub stale : List ℕ

abbrev pub store_peer : List ℕ → Peer → Tunnel → Tunnel
store_peer k p t = record t { peers = insert k p t.peers }

-- The rewritten packet for the TUN device; a mask that is too short is Go's panic.
unfoldable pub write_tun : Outside → List ℕ → Tunnel → List ClientOutput
write_tun out bytes t = elim (rewrite_broadcast out.stale bytes t.session.cached_subnet) [
  | ok pkt ↦ tun_write pkt ∷ []
  | err e ↦ []
  | panic ↦ []
]

abbrev pub of_decrypted : Outside → Tunnel → Decrypted → List ClientOutput
of_decrypted out t (plain bytes) = write_tun out bytes t
of_decrypted out t (failed e) = []

-- decryptWriteAndRelease with a cipher and without one.
unfoldable pub decrypt_write : Outside → Cipher → List ℕ → Tunnel → Tunnel × List ClientOutput
unfolding write_tun
decrypt_write out cipher bytes t =
    if is_encrypted bytes
    then (let (cipher', result) = decrypt_into out.aead [] bytes cipher in
        let t' = record t { crypto = record t.crypto { p2p_cipher = some cipher' } } in
        (t', of_decrypted out t' result))
    else (t, write_tun out bytes t)

unfoldable pub decrypt_write_and_release : Outside → List ℕ → Tunnel → Tunnel × List ClientOutput
unfolding decrypt_write
decrypt_write_and_release out bytes t =
    if not t.tun_open then (t, []) else elim t.crypto.p2p_cipher [
      | none ↦ (t, write_tun out bytes t)
      | some cipher ↦ decrypt_write out cipher bytes t
    ]

-- The check of the session token, which is made only without a cipher.
unfoldable pub direct_token_ok : List ℕ → Tunnel → Result Bool
direct_token_ok payload t = elim t.crypto.p2p_cipher [
  | some cipher ↦ ok true
  | none ↦
      if bytes_eq t.session.session_token zero_token
      then ok true
      else if leb (length payload) 8
      then ok false
      else (parse_data_header payload >>= λ header.
          if not (has_token header.0) || ltb (length payload) (header.1 + data_token_len)
          then ok false
          else (slice payload header.1 (header.1 + data_token_len) >>= λ token.
              ok (bytes_eq token t.session.session_token)))
]

-- The peer with this address inside the network, if the packet comes from its public address.
unfoldable pub known_sender : Ip → UdpAddr → Tunnel → Option Peer
known_sender vip from t = elim (lookup (ip_key vip) t.peers) [
  | none ↦ none
  | some p ↦ elim p.public_addr [
    | none ↦ none
    | some a ↦ if same_endpoint from a then some p else none
  ]
]

unfoldable pub direct_payload :
    Outside → UdpAddr → List ℕ → DataPayload → Tunnel → Tunnel × List ClientOutput
unfolding known_sender direct_token_ok decrypt_write_and_release
direct_payload out from payload d t =
    if length d.bytes == 0 then (t, []) else elim (known_sender d.src_ip from t) [
      | none ↦ (t, [])
      | some p ↦ elim (direct_token_ok payload t) [
        | ok accepted ↦
            if accepted
            then decrypt_write_and_release out d.bytes
                (store_peer (ip_key d.src_ip) (record p { direct_reach = true }) t)
            else (t, [])
        | err e ↦ (t, [])
        | panic ↦ (t, [])
      ]
    ]

-- handleDirectHolePunch.
unfoldable pub handle_direct_hole_punch : ℕ → UdpAddr → List ℕ → Tunnel → Tunnel × List ClientOutput
unfolding known_sender try_rate_limit_hole_punch
handle_direct_hole_punch now from payload t =
    if ltb (length payload) 4 then (t, []) else elim (known_sender (take 4 payload) from t) [
      | none ↦ (t, [])
      | some p ↦
          let (p', allowed) = try_rate_limit_hole_punch now p in
          if allowed
          then (
            store_peer (ip_key (take 4 payload)) (record p' { direct_reach = true }) t,
            elim p.public_addr [ none ↦ [] | some a ↦ punch_back a ∷ [] ],
          )
          else (t, [])
    ]

-- handleDirectData.
unfoldable pub handle_direct_data :
    Outside → UdpAddr → Message → Tunnel → Tunnel × List ClientOutput
unfolding handle_direct_hole_punch direct_payload
handle_direct_data out from m t =
    if m.typ == type_hole_punch
    then handle_direct_hole_punch out.now from m.payload t
    else if m.typ == type_data
    then elim (unmarshal_data m.payload) [
      | ok d ↦ direct_payload out from m.payload d t
      | err e ↦ (t, [])
      | panic ↦ (t, [])
    ]
    else (t, [])

-- handleDataFromServer.
unfoldable pub handle_data_from_server : Outside → List ℕ → Tunnel → Tunnel × List ClientOutput
unfolding decrypt_write_and_release
handle_data_from_server out payload t = elim (unmarshal_data payload) [
  | ok d ↦ if length d.bytes == 0 then (t, []) else decrypt_write_and_release out d.bytes t
  | err e ↦ (t, [])
  | panic ↦ (t, [])
]

-- handleHolePunchReceived.
unfoldable pub handle_hole_punch_received : ℕ → List ℕ → Tunnel → Tunnel × List ClientOutput
unfolding try_rate_limit_hole_punch
handle_hole_punch_received now payload t =
    if ltb (length payload) 4 then (t, []) else elim (lookup (ip_key (take 4 payload)) t.peers) [
      | none ↦ (t, [])
      | some p ↦ elim p.public_addr [
        | none ↦ (t, [])
        | some a ↦
            let (p', allowed) = try_rate_limit_hole_punch now p in
            if allowed
            then (store_peer (ip_key (take 4 payload)) p' t, punch_back a ∷ [])
            else (t, [])
      ]
    ]

-- A kick that parses may stop the client from reconnecting; every kick closes the connection.
unfoldable pub handle_kick : List ℕ → Tunnel → Tunnel × List ClientOutput
handle_kick payload t = elim (unmarshal_kick payload) [
  | ok kick ↦
      if is_fatal (new_disconnect_error kick)
      then (record t { cancel_kicks = true }, conn_closed ∷ [])
      else (t, conn_closed ∷ [])
  | err e ↦ (t, conn_closed ∷ [])
  | panic ↦ (t, conn_closed ∷ [])
]

unfoldable pub handle_server_message : Outside → Message → Tunnel → Tunnel × List ClientOutput
unfolding handle_data_from_server handle_hole_punch_received handle_kick
handle_server_message out m t =
    if m.typ == type_peer_info
    then (let (t', punched) = handle_peer_info out.v6 out.now m.payload t in
        (t', map (λ ip. punch_peer ip) punched))
    else if m.typ == type_data
    then handle_data_from_server out m.payload t
    else if m.typ == type_ping
    then (t, sent_ctrl (encode_checked type_pong m.payload) t.server_addr ∷ [])
    else if m.typ == type_hole_punch
    then handle_hole_punch_received out.now m.payload t
    else if m.typ == type_rebind_ack
    then (
      t,
      elim (unmarshal_rebind_ack m.payload) [
        | ok success ↦ rebind_answered success ∷ []
        | err e ↦ []
        | panic ↦ []
      ],
    )
    else if m.typ == type_kick
    then handle_kick m.payload t
    else (t, [])

-- handleServerData: any packet from the server shows that it is alive.
unfoldable pub handle_server_data : Outside → Message → Tunnel → Tunnel × List ClientOutput
unfolding handle_server_message
handle_server_data out m t =
    handle_server_message out m (record t { last_server_response = out.now })

-- Is the packet taken for one of the server? `server` is its address when the connection was made.
unfoldable pub from_server : UdpAddr → UdpAddr → ℕ → Bool
from_server from server typ =
    same_endpoint from server
    || ((typ == type_peer_info
          || (typ == type_ping || (typ == type_rebind_ack || typ == type_kick)))
        || (from.port == server.port && is_loopback from.ip))

unfoldable pub decode_received : List ℕ → Tunnel → Result Message
decode_received bytes t = elim t.crypto.dec_cipher [
  | none ↦ decode_checked bytes
  | some cipher ↦ decode bytes
]

-- One round of receiveFromServer with a datagram.
unfoldable pub receive_from_server :
    Outside → UdpAddr → UdpAddr → List ℕ → Tunnel → Tunnel × List ClientOutput
unfolding decode_received from_server handle_server_data handle_direct_data
receive_from_server out server from bytes t = elim (decode_received bytes t) [
  | ok m ↦
      if from_server from server m.typ
      then handle_server_data out m t
      else handle_direct_data out from m t
  | err e ↦ (t, [])
  | panic ↦ (t, [])
]
