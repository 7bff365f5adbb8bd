-- ===== src/Client/Route.antt =====
-- internal/client/route.go: the packets that the client makes of what it reads from the TUN device,
-- and where they go; and PktBufGet of internal/pool/buf.go. The buffers of the pool are overwritten
-- whole, so a packet is the list of what is written; source and destination are arrays of four bytes.
pub mod Agree
pub mod Delivered
pub mod Sealed
use Prim.Native.Nat.{bit_or}
use gametunnel.Base.{
  ℕ, ◌+◌, ◌-◌, Bool, true, false, ◌||◌, ◌&&◌, Option, none, some, List, [], ◌∷◌, ◌++◌, leb, ltb,
  ◌==◌, if◌then◌else◌, length, bytes_eq,
}
use gametunnel.Bytes.{Result, ok, err, panic, ◌>>=◌, byte_at}
use gametunnel.Checksum.{crc32, put_u32}
use gametunnel.Net.{Ip, IpNet, UdpAddr, to4, ip_key}
use gametunnel.Map.{lookup, bytes_key}
use gametunnel.Crypto.{Aead, Cipher, encrypt_to, overhead}
use gametunnel.Protocol.Packet.{protocol_version, header_len, checksum_len, min_token_version}
use gametunnel.Protocol.Data.{
  data_format_version, data_header_len, data_token_len, has_token, zero_token,
}
use gametunnel.Server.Room.Relay.{type_data}
use gametunnel.Client.Tunnel.{Tunnel, Peer, CryptoState}

-- The capacity of the buffer that PktBufGet returns.
unfoldable pub pkt_buf_cap : ℕ → ℕ
pkt_buf_cap n =
    if leb n 512
    then 512
    else if leb n 2048
    then 2048
    else if leb n 16384
    then 16384
    else if leb n 65535
    then 65535
    else n

-- `if token != [16]byte{} { flags |= DataFlagHasToken }`
unfoldable pub announce_token : ℕ → List ℕ → ℕ
announce_token flags token = if bytes_eq token zero_token then flags else bit_or flags 2

-- What stands behind the frame's header: addresses, format, flags and the token.
unfoldable pub data_head : List ℕ → List ℕ → ℕ → List ℕ → List ℕ → List ℕ
data_head src dst flags token rest =
    src
    ++ (dst ++ (data_format_version ∷ flags ∷ ((if has_token flags then token else []) ++ rest)))

unfoldable pub build_data_header : List ℕ → List ℕ → ℕ → List ℕ → List ℕ
unfolding data_head announce_token
build_data_header src dst flags token =
    protocol_version ∷ type_data ∷ data_head src dst (announce_token flags token) token []

-- The flags are those of a caller, which are none here: flags that already announce a token, with a
-- token of zeroes, would not fit the buffer that the code has for the packet.
unfoldable pub build_data_packet : List ℕ → List ℕ → List ℕ → ℕ → List ℕ → List ℕ
unfolding build_data_header announce_token
build_data_packet src dst bytes flags token =
    let body = build_data_header src dst (announce_token flags token) token ++ bytes in
    body ++ put_u32 (crc32 body)

unfoldable pub encrypted_size : List ℕ → List ℕ → ℕ
encrypted_size pkt token =
    let token_len = if bytes_eq token zero_token then 0 else 16 in
    header_len + data_header_len + token_len + overhead + length pkt

module _ (aead : Aead) where
  -- The cipher's next state, and the packet unless its buffer is too small.
  unfoldable pub build_encrypted_data_packet :
      List ℕ → List ℕ → List ℕ → Cipher → ℕ → List ℕ → Cipher × Option (List ℕ)
  unfolding build_data_header announce_token encrypted_size pkt_buf_cap
  build_encrypted_data_packet src dst pkt cipher flags token =
      encrypt_to aead (pkt_buf_cap (encrypted_size pkt token))
        (build_data_header src dst (announce_token flags token) token) cipher pkt

  unfoldable pub build_packet :
      List ℕ → List ℕ → List ℕ → Option Cipher → ℕ → List ℕ → Option Cipher × Option (List ℕ)
  unfolding build_encrypted_data_packet build_data_packet
  build_packet src dst bytes none flags token =
      (none, some (build_data_packet src dst bytes flags token))
  build_packet src dst bytes (some cipher) flags token =
      let (cipher', packet) = build_encrypted_data_packet src dst bytes cipher flags token in
      (some cipher', packet)

-- `subIP[i] | ^mask[i]` for each byte of the address; a mask that is too short is Go's panic.
unfoldable pub broadcast_of : List ℕ → List ℕ → Result (List ℕ)
broadcast_of [] mask = ok []
broadcast_of (b ∷ bs) [] = panic
broadcast_of (b ∷ bs) (m ∷ ms) = broadcast_of bs ms >>= λ rest. ok (bit_or b (255 - m) ∷ rest)

-- `ip4.Equal(bcast[:])`, where there is a subnet with an IPv4 address.
unfoldable pub is_subnet_broadcast : List ℕ → Option IpNet → Result Bool
unfolding broadcast_of
is_subnet_broadcast ip none = ok false
is_subnet_broadcast ip (some subnet) = elim (to4 subnet.ip) [
  | none ↦ ok false
  | some sub ↦ broadcast_of sub subnet.mask >>= λ bcast. ok (bytes_eq ip bcast)
]

-- isRelayTarget. `dst.To16()[0]` of what is no address is Go's panic.
unfoldable pub client_relay_target : Ip → Option IpNet → Result Bool
unfolding is_subnet_broadcast
client_relay_target dst subnet = elim (to4 dst) [
  | some ip ↦
      if bytes_eq ip (255 ∷ 255 ∷ 255 ∷ 255 ∷ [])
      then ok true
      else (is_subnet_broadcast ip subnet >>= λ bcast.
          byte_at ip 0 >>= λ b. ok (bcast || (leb 224 b && leb b 239)))
  | none ↦ if length dst == 16 then (byte_at dst 0 >>= λ b. ok (b == 0xff)) else panic
]

-- `dstKey == serverIPKey || (cachedSubnet != nil && isRelayTarget(dstNet, cachedSubnet))`
unfoldable pub to_server : List ℕ → Tunnel → Result Bool
unfolding client_relay_target
to_server dst t =
    let server_ip_key : List ℕ = elim t.session.server_ip_key [ none ↦ zero_token | some k ↦ k ] in
    if bytes_eq (ip_key dst) server_ip_key then ok true else elim t.session.cached_subnet [
      | none ↦ ok false
      | some subnet ↦ client_relay_target dst (some subnet)
    ]

-- The address of a peer that direct packets reach.
unfoldable pub direct_addr : Option Peer → Option UdpAddr
direct_addr none = none
direct_addr (some p) = if p.direct_reach then p.public_addr else none

unfoldable pub route_token : Tunnel → List ℕ
route_token t =
    if leb min_token_version t.session.server_version then t.session.session_token else zero_token

-- Where the packet goes.
unfoldable pub next_hop : List ℕ → Tunnel → Result (Option UdpAddr)
unfolding to_server direct_addr
next_hop dst t = to_server dst t >>= λ relayed.
    if relayed then ok t.server_addr else elim (direct_addr (lookup (ip_key dst) t.peers)) [
      | none ↦ ok t.server_addr
      | some a ↦ ok (some a)
    ]

-- routePacket: the next state, and what is passed to sendUDP with its address.
unfoldable pub route_packet :
    Aead → List ℕ → List ℕ → List ℕ → Tunnel → Result (Tunnel × Option (List ℕ) × Option UdpAddr)
unfolding next_hop build_packet route_token
route_packet aead pkt src dst t = next_hop dst t >>= λ hop.
    let (cipher, packet) = build_packet aead src dst pkt t.crypto.p2p_cipher 0 (route_token t) in
    ok (record t { crypto = record t.crypto { p2p_cipher = cipher } }, packet, hop)
