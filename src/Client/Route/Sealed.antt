-- ===== src/Client/Route/Sealed.antt =====
-- What the client makes of a packet in a room with a password: it passes the server as it is, and the
-- other clients decrypt it.
use native.Mathlib.Nat.{le_trans}
use gametunnel.Base.{
  append-nil, ℕ, ◌+◌, ◌-◌, ◌^◌, ◌≤◌, ◌<◌, ◌≡◌, refl, ap, ◌∙◌, ltb, true, false, some, List, [], ◌∷◌,
  ◌++◌, append_assoc, length, if◌then◌else◌, bytes_eq, Bool-cases, inl, inr, arith, length-append,
  Bool,
}
use gametunnel.Bytes.{ok}
use gametunnel.Net.{ip_key, UdpAddr, addr_to_rate_key, to4, length-to4}
use gametunnel.Map.{bytes_key, lookup}
use gametunnel.Crypto.{Decrypted, Aead, Cipher, encrypt, encrypt_to, decrypt_into, plain, overhead}
use gametunnel.Crypto.Session.{decrypt_all-encrypt_all, encrypt_all, decrypt_all}
use gametunnel.Protocol.Packet.{Message, encode, decode, protocol_version}
use gametunnel.Protocol.Packet.RoundTrip.{decode-encode}
use gametunnel.Protocol.Data.{has_token, zero_token, unmarshal_data, DataPayload}
use gametunnel.Protocol.Data.RoundTrip.{read_packet}
use gametunnel.Server.Room.{Room, Env, Ref, rate_key}
use gametunnel.Server.Room.Relay.{is_relay_target, handle_relay, forward, type_data}
use gametunnel.Server.Dispatch.{incoming, message}
use gametunnel.Client.Route.{
  announce_token, data_head, build_data_header, build_encrypted_data_packet, pkt_buf_cap,
  encrypted_size,
}
use gametunnel.Client.Route.Delivered.{
  forward_unicast, destination_payload, announce_token_twice, data_head-append, payload, part,
  announced, relay_payload, sealed_on,
}

pkt_buf_cap-le : (n : ℕ) → n ≤ pkt_buf_cap n
unfolding pkt_buf_cap
pkt_buf_cap-le n = ground arith

-- The sixteen bytes of a token that is not zero, or none.
length-token_part :
    (token : List ℕ)
    → length token ≡ 16
    → length (if has_token (announce_token 0 token) then token else [])
      ≡ (if bytes_eq token zero_token then 0 else 16)
unfolding announce_token has_token
length-token_part token ht = elim (Bool-cases (bytes_eq token zero_token)) [
  | inl z ↦ rw z refl
  | inr z ↦ rw z ht
]

length-data_head :
    (src dst token : List ℕ) (flags : ℕ)
    → length (data_head src dst flags token [])
      ≡ length src + length dst + 2 + length (if has_token flags then token else [])
unfolding data_head
length-data_head src dst token flags = simp (length-append, append-nil) (omega arith)

build_data_header_lem :
    (src dst token : List ℕ)
    → build_data_header src dst (announce_token 0 token) token
      ≡ protocol_version ∷ type_data ∷ data_head src dst (announce_token 0 token) token []
unfolding build_data_header
build_data_header_lem src dst token = rw (announce_token_twice token) refl

-- The header takes what encrypted_size reserves for it.
length-header :
    (src dst pkt token : List ℕ)
    → length src ≡ 4
    → length dst ≡ 4
    → length token ≡ 16
    → length (build_data_header src dst (announce_token 0 token) token) + overhead + length pkt
      ≤ encrypted_size pkt token
unfolding encrypted_size
length-header src dst pkt token hs hd ht = omega (
  arith,
  ap (length {A = ℕ}) (build_data_header_lem src dst token),
  length-data_head src dst token (announce_token 0 token),
  length-token_part token ht,
)

encrypt_to-encrypt :
    (aead : Aead) (capacity : ℕ) (dst p : List ℕ) (c : Cipher)
    → length dst + overhead + length p ≤ capacity
    → encrypt_to aead capacity dst c p ≡ ((encrypt aead c p).0, some (dst ++ (encrypt aead c p).1))
unfolding encrypt_to encrypt
encrypt_to-encrypt aead capacity dst p c h =
    let enough : ltb (capacity - length dst) (overhead + length p) ≡ false = ground arith in
    rw enough (simp append_assoc)

-- The buffer is large enough, so the packet is built.
build_encrypted-encode :
    (aead : Aead) (src dst pkt token : List ℕ) (c : Cipher)
    → length src ≡ 4
    → length dst ≡ 4
    → length token ≡ 16
    → build_encrypted_data_packet aead src dst pkt c 0 token ≡ (
      (encrypt aead c pkt).0,
      some (
          encode type_data
            (data_head src dst (announce_token 0 token) token (encrypt aead c pkt).1)),
    )
unfolding build_encrypted_data_packet encode
build_encrypted-encode aead src dst pkt token c hs hd ht =
    encrypt_to-encrypt aead (pkt_buf_cap (encrypted_size pkt token))
      (build_data_header src dst (announce_token 0 token) token) pkt c
      (le_trans (length-header src dst pkt token hs hd ht) (pkt_buf_cap-le _))
    ∙ ap (λ packet. ((encrypt aead c pkt).0, some packet)) framed
  where
    framed :
        build_data_header src dst (announce_token 0 token) token ++ (encrypt aead c pkt).1
        ≡ encode type_data (data_head src dst (announce_token 0 token) token (encrypt aead c pkt).1)
    framed =
        ap (λ t. t ++ (encrypt aead c pkt).1) (build_data_header_lem src dst token)
        ∙ ap (λ t. protocol_version ∷ type_data ∷ t)
            (data_head-append src dst token (encrypt aead c pkt).1 (announce_token 0 token))

-- One packet of a session.
decrypt_into-encrypt :
    (aead : Aead)
    → ((nonce p : List ℕ) → aead.open_ nonce (aead.seal nonce p) ≡ some p)
    → ((nonce p : List ℕ) → length (aead.seal nonce p) ≡ length p + 16)
    → (p : List ℕ) (c d : Cipher) → length c.dir_tag ≡ 4
    → c.counter + 1 < 2 ^ 64
    → d.replay_counter ≤ c.counter
    → (decrypt_into aead [] (encrypt aead c p).1 d).1 ≡ plain p
unfolding encrypt_all decrypt_all
decrypt_into-encrypt aead opens tagged p c d tag top new =
    ap head (decrypt_all-encrypt_all aead opens tagged (p ∷ []) c d tag top new)
  where
    head : List Decrypted → Decrypted
    head [] = plain p
    head (x ∷ xs) = x

incoming-encode :
    (content : List ℕ)
    → incoming true (encode type_data content)
      ≡ message (record { typ = type_data; payload = content })
unfolding incoming
incoming-encode content = rw (decode-encode type_data content) refl

-- A data packet that a client of a room with a password builds with its own address, its token and its
-- cipher: it is always built; the server takes it as the message that it is and sends one packet, to the
-- public address of the client at the destination, which is no broadcast or multicast address and
-- which the bandwidth limiter lets through; that packet decodes to the same payload, in which a client
-- finds the two addresses and data which its own cipher, if it has seen no counter above the sender's,
-- decrypts to the packet.
-- The AEAD is assumed to open what it sealed, and to add a tag of 16 bytes.
pub build_encrypted-delivered :
    (aead : Aead)
    → ((nonce p : List ℕ) → aead.open_ nonce (aead.seal nonce p) ≡ some p)
    → ((nonce p : List ℕ) → length (aead.seal nonce p) ≡ length p + 16)
    → (allow : UdpAddr → ℕ → Bool) (env : Env) (from to : UdpAddr) (r : Room) (p q : Ref)
      (src dst pkt : List ℕ) (c e : Cipher)
    → 0 < length r.room_pass
    → lookup (addr_to_rate_key from) r.addr_map ≡ some p
    → to4 (r.heap p).virtual_ip ≡ some src
    → length dst ≡ 4
    → length (r.heap p).session_token ≡ 16
    → length c.dir_tag ≡ 4
    → c.counter + 1 < 2 ^ 64
    → e.replay_counter ≤ c.counter
    → is_relay_target dst r.subnet ≡ false
    → lookup (ip_key dst) r.clients ≡ some q
    → (r.heap q).public_addr ≡ some to
    → ((size : ℕ) → allow to size ≡ true)
    → (m : Message) × (wire : List ℕ) × (sent : List ℕ) × ((build_encrypted_data_packet aead src dst
          pkt c 0
          (r.heap p).session_token).1
        ≡ some wire)
      × (incoming true wire ≡ message m)
      × (handle_relay allow env m.payload from r ≡ (r, some (to ∷ [], sent)))
      × (decode sent ≡ ok m)
      × ((d : DataPayload) × (unmarshal_data m.payload ≡ ok d)
          × (d.src_ip ≡ src)
          × (d.dst_ip ≡ dst)
          × ((decrypt_into aead [] d.bytes e).1 ≡ plain pkt))
unfolding data_head
build_encrypted-delivered aead opens tagged allow env from to r p q src dst pkt c e locked at own hd
      ht tag top new single seat home lets =
    let token = (r.heap p).session_token in
    let hs = length-to4 _ src own in
    let sealed = (encrypt aead c pkt).1 in
    let content = payload src dst sealed token hs hd ht in
    (
      record { typ = type_data; payload = content },
      encode type_data content,
      (forward allow content p r).1,
      ap (λ t. t.1) (build_encrypted-encode aead src dst pkt token c hs hd ht),
      incoming-encode content,
      relay_payload allow env from r p src dst sealed at own hd ht
          ∙ ap (λ f. (r, some f))
              (forward_unicast allow r p q to dst content
                (destination_payload src dst sealed token hs hd ht) single seat home lets),
      sealed_on allow r p content locked,
      (
        _,
        read_packet src dst (part src dst sealed token hs hd ht) sealed (announce_token 0 token) hs
            hd (announced src dst sealed token hs hd ht),
        refl,
        refl,
        decrypt_into-encrypt aead opens tagged pkt c e tag top new,
      ),
    )
