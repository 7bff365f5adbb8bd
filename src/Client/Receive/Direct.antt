-- ===== src/Client/Receive/Direct.antt =====
-- What direct packets do in a room with a password, and who can kick a client.
use gametunnel.Base.{
  Option, none, [], ◌∷◌, ℕ, ◌≡◌, refl, ap, sym, ◌∙◌, true, false, some, List, ◌==◌, length, arith,
  ◌≢◌,
}
use gametunnel.Bytes.{ok}
use gametunnel.Net.{IpNet, same_endpoint, UdpAddr, ip_key}
use gametunnel.Crypto.{Cipher, is_encrypted}
use gametunnel.Protocol.Packet.{Message}
use gametunnel.Protocol.Data.{DataPayload, unmarshal_data}
use gametunnel.Server.Room.Relay.{type_data}
use gametunnel.Client.Tunnel.{Tunnel, Peer}
use gametunnel.Map.{lookup, bytes_key, lookup-insert_self}
use gametunnel.Client.Broadcast.{is_limited_broadcast, rewrite_broadcast}
use gametunnel.Client.Receive.{
  tun_write, Outside, type_kick, store_peer, write_tun, decrypt_write, decrypt_write_and_release,
  direct_token_ok, known_sender, direct_payload, handle_direct_data, handle_server_data,
  from_server, decode_received, receive_from_server,
}

decrypt_write_plain :
    (out : Outside) (c : Cipher) (bytes : List ℕ) (t : Tunnel)
    → t.tun_open ≡ true
    → t.crypto.p2p_cipher ≡ some c
    → is_encrypted bytes ≡ false
    → decrypt_write_and_release out bytes t ≡ (t, write_tun out bytes t)
unfolding decrypt_write_and_release decrypt_write
decrypt_write_plain out c bytes t o p e = ground (arith, o, p, e)

token_skipped :
    (payload : List ℕ) (c : Cipher) (t : Tunnel)
    → t.crypto.p2p_cipher ≡ some c
    → direct_token_ok payload t ≡ ok true
unfolding direct_token_ok
token_skipped payload c t e = rw (e, direct_token_ok) refl

-- Packets that are not for 255.255.255.255 are written unchanged.
write_tun_unchanged :
    (out : Outside) (bytes : List ℕ) (t : Tunnel)
    → is_limited_broadcast bytes t.session.cached_subnet ≡ false
    → write_tun out bytes t ≡ tun_write bytes ∷ []
unfolding write_tun rewrite_broadcast
write_tun_unchanged out bytes t h = rw (write_tun, unchanged t.session.cached_subnet h) refl
  where
    unchanged :
        (subnet : Option IpNet)
        → is_limited_broadcast bytes subnet ≡ false
        → rewrite_broadcast out.stale bytes subnet ≡ ok bytes
    unchanged none h = refl
    unchanged (some subnet) h = rw h refl

direct_payload_plain :
    (out : Outside) (from : UdpAddr) (payload : List ℕ) (d : DataPayload) (p : Peer) (c : Cipher)
    (t : Tunnel)
    → length d.bytes ≢ 0
    → known_sender d.src_ip from t ≡ some p
    → t.crypto.p2p_cipher ≡ some c
    → t.tun_open ≡ true
    → is_encrypted d.bytes ≡ false
    → let t' = store_peer (ip_key d.src_ip) (record p { direct_reach = true }) t in
      direct_payload out from payload d t ≡ (t', write_tun out d.bytes t')
unfolding direct_payload
direct_payload_plain out from payload d p c t filled known cipher up e =
    let some_bytes : (length d.bytes == 0) ≡ false = ground (arith, filled) in
    rw (direct_payload, some_bytes, known, token_skipped payload c t cipher)
      (decrypt_write_plain out c d.bytes _ up cipher e)

kick_from_anyone : (from server : UdpAddr) → from_server from server type_kick ≡ true
unfolding from_server
kick_from_anyone from server = ground arith

direct_data_plain :
    (out : Outside) (from : UdpAddr) (m : Message) (d : DataPayload) (p : Peer) (c : Cipher)
    (t : Tunnel)
    → m.typ ≡ type_data
    → unmarshal_data m.payload ≡ ok d
    → length d.bytes ≢ 0
    → known_sender d.src_ip from t ≡ some p
    → t.crypto.p2p_cipher ≡ some c
    → t.tun_open ≡ true
    → is_encrypted d.bytes ≡ false
    → let t' = store_peer (ip_key d.src_ip) (record p { direct_reach = true }) t in
      handle_direct_data out from m t ≡ (t', write_tun out d.bytes t')
unfolding handle_direct_data
direct_data_plain out from m d p c t typ u filled known cipher up e =
    rw (is_data, handle_direct_data, u)
      (direct_payload_plain out from m.payload d p c t filled known cipher up e)
  where
    is_data : m.typ ≡ 6
    is_data = typ

-- In a room with a password, data from the public address of a peer that is not encrypted is written to
-- the TUN device byte by byte, whatever token the packet carries or lacks, unless it goes to
-- 255.255.255.255; the peer counts as directly reached from then on, and the ciphers do not change.
pub handle_direct_data-plain :
    (out : Outside) (from : UdpAddr) (m : Message) (d : DataPayload) (p : Peer) (a : UdpAddr)
    (c : Cipher) (t : Tunnel)
    → m.typ ≡ type_data
    → unmarshal_data m.payload ≡ ok d
    → length d.bytes ≢ 0
    → lookup (ip_key d.src_ip) t.peers ≡ some p
    → p.public_addr ≡ some a
    → same_endpoint from a ≡ true
    → t.crypto.p2p_cipher ≡ some c
    → t.tun_open ≡ true
    → is_encrypted d.bytes ≡ false
    → is_limited_broadcast d.bytes t.session.cached_subnet ≡ false
    → let (after, sent) = handle_direct_data out from m t in
      (sent ≡ tun_write d.bytes ∷ [])
      × (lookup (ip_key d.src_ip) after.peers ≡ some (record p { direct_reach = true }))
      × (after.crypto ≡ t.crypto)
unfolding known_sender
handle_direct_data-plain out from m d p a c t typ u filled at home same cipher up e broadcast =
    let known : known_sender d.src_ip from t ≡ some p = ground (arith, at, home, same) in
    let t' = store_peer (ip_key d.src_ip) (record p { direct_reach = true }) t in
    rw (direct_data_plain out from m d p c t typ u filled known cipher up e) (
      write_tun_unchanged out d.bytes t' broadcast,
      lookup-insert_self (ip_key d.src_ip) (record p { direct_reach = true }) t.peers,
      refl,
    )

kick_obeyed :
    (out : Outside) (server from : UdpAddr) (bytes : List ℕ) (m : Message) (t : Tunnel)
    → decode_received bytes t ≡ ok m
    → m.typ ≡ type_kick
    → receive_from_server out server from bytes t ≡ handle_server_data out m t
unfolding receive_from_server
kick_obeyed out server from bytes m t d k =
    let taken : from_server from server m.typ ≡ true =
      ap (from_server from server) k ∙ kick_from_anyone from server in
    rw (receive_from_server, d, taken) refl

-- A kick is obeyed whoever sends it: what a client does with a packet of that type does not depend on
-- the address that it comes from.
pub receive_from_server-kick :
    (out : Outside) (server from other : UdpAddr) (bytes : List ℕ) (m : Message) (t : Tunnel)
    → decode_received bytes t ≡ ok m
    → m.typ ≡ type_kick
    → receive_from_server out server from bytes t ≡ receive_from_server out server other bytes t
receive_from_server-kick out server from other bytes m t d k =
    kick_obeyed out server from bytes m t d k ∙ sym (kick_obeyed out server other bytes m t d k)
