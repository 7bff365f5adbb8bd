-- ===== src/Client/Route/Delivered.antt =====
-- What the client makes of a packet passes the server and reaches the other clients.
use gametunnel.Base.{
  ◌∷◌, drop, drop-append, ◌==◌, ◌<◌, not, take, ◌≤◌, take-append, ℕ, ◌≡◌, refl, ◌∙◌, Bool, true,
  false, some, List, [], ◌++◌, append_assoc, append-nil, length, if◌then◌else◌, bytes_eq,
  bytes_eq_refl, Bool-cases, inl, inr, arith, ap,
}
use gametunnel.Bytes.{ok, slice_at, byte_at-drop, slice}
use gametunnel.Net.{ip_key, UdpAddr, addr_to_rate_key, to4, length-to4}
use gametunnel.Map.{bytes_key, lookup}
use gametunnel.Protocol.Packet.{encode, Message, encode_checked, decode, decode_checked}
use gametunnel.Protocol.Packet.RoundTrip.{decode-encode, decode_checked-encode_checked}
use gametunnel.Protocol.Data.{
  has_token, zero_token, parse_data_header, unmarshal_data, data_format_version, DataPayload,
}
use gametunnel.Protocol.Data.RoundTrip.{
  packet, length-packet, at_format, at_flags, at_token, read_packet,
}
use gametunnel.Server.Room.{Room, Client, Env, Ref, rate_key}
use gametunnel.Server.Room.Relay.{
  unicast_targets, within_limit, is_relay_target, check_token, check_token_at, has_session_token,
  validate_session_token, relay_from, handle_relay, forward, type_data,
}
use gametunnel.Server.Dispatch.{incoming, message, incoming-encode_checked}
use gametunnel.Client.Route.{announce_token, data_head, build_data_header, build_data_packet}

pub announce_token_twice :
    (token : List ℕ) → announce_token (announce_token 0 token) token ≡ announce_token 0 token
unfolding announce_token
announce_token_twice token = elim (Bool-cases (bytes_eq token zero_token)) [
  | inl e ↦ rw e refl
  | inr e ↦ rw e refl
]

pub data_head-append :
    (src dst token bytes : List ℕ) (flags : ℕ)
    → data_head src dst flags token [] ++ bytes ≡ data_head src dst flags token bytes
unfolding data_head
data_head-append src dst token bytes flags = simp (append_assoc, append-nil)

-- The packet is the frame of its addresses, flags, token and data, with a checksum.
build_data_packet-encode_checked :
    (src dst bytes token : List ℕ)
    → build_data_packet src dst bytes 0 token
      ≡ encode_checked type_data (data_head src dst (announce_token 0 token) token bytes)
unfolding build_data_packet build_data_header encode_checked
build_data_packet-encode_checked src dst bytes token =
    rw (announce_token_twice token, data_head-append src dst token bytes (announce_token 0 token))
      refl

length-sent_token :
    (token : List ℕ)
    → length token ≡ 16
    → length (if has_token (announce_token 0 token) then token else [])
      ≡ (if has_token (announce_token 0 token) then 16 else 0)
length-sent_token token h = elim (Bool-cases (has_token (announce_token 0 token))) [
  | inl e ↦ rw e h
  | inr e ↦ rw e refl
]

module _ (src dst bytes token : List ℕ) (hs : length src ≡ 4) (hd : length dst ≡ 4)
    (ht : length token ≡ 16) where
  abbrev pub flags : ℕ
  flags = announce_token 0 token

  pub announced :
      length (if has_token flags then token else []) ≡ (if has_token flags then 16 else 0)
  announced = length-sent_token token ht

  abbrev pub part : List ℕ
  part = if has_token flags then token else []

  abbrev pub payload : List ℕ
  payload = packet src dst part bytes flags hs hd announced

  payload-data_head : data_head src dst flags token bytes ≡ payload
  unfolding data_head
  payload-data_head = refl

  source_payload : take 4 payload ≡ src
  source_payload = rw (← hs) (take-append src _)

  parse-payload : parse_data_header payload ≡ ok (flags, 10, true)
  unfolding parse_data_header
  parse-payload = ground (
    arith,
    length-packet src dst part bytes flags hs hd announced,
    byte_at-drop payload 8 data_format_version _
        (at_format src dst part bytes flags hs hd announced),
    byte_at-drop payload 9 flags _ (at_flags src dst part bytes flags hs hd announced),
  )

  slice-payload : has_token flags ≡ true → slice payload 10 26 ≡ ok token
  slice-payload e =
      let four : length part ≡ 16 = (rw e ht) in
      slice_at payload 10 26 token bytes
        (omega (arith, length-packet src dst part bytes flags hs hd announced)) (omega (arith, ht))
        (at_token src dst part bytes flags hs hd announced ∙ (rw e refl))

  check_token_at-payload :
      (c : Client)
      → c.session_token ≡ token
      → has_token flags ≡ true
      → check_token_at c payload 10 ≡ ok true
  unfolding check_token_at validate_session_token
  check_token_at-payload c e t =
      let four : length part ≡ 16 = (rw t ht) in
      ground (
        arith,
        e,
        four,
        length-packet src dst part bytes flags hs hd announced,
        slice-payload t,
        bytes_eq_refl token,
        ht,
      )

  announced_nonzero : bytes_eq token zero_token ≡ false → has_token flags ≡ true
  unfolding announce_token has_token
  announced_nonzero z = rw z refl

  token_test :
      (c : Client) → c.session_token ≡ token → has_session_token c ≡ not (bytes_eq token zero_token)
  unfolding has_session_token
  token_test c e = ap (λ t. not (bytes_eq t zero_token)) e

  check_token-payload : (c : Client) → c.session_token ≡ token → check_token c payload ≡ ok true
  unfolding check_token
  check_token-payload c e = elim (Bool-cases (bytes_eq token zero_token)) [
    | inl z ↦ ground (arith, token_test c e, z)
    | inr z ↦ ground (
      arith,
      length-packet src dst part bytes flags hs hd announced,
      parse-payload,
      announced_nonzero z,
      check_token_at-payload c e (announced_nonzero z),
    )
  ]

-- A packet with its sender's own address and an accepted token is relayed.
relay_accepted :
    (allow : UdpAddr → ℕ → Bool) (env : Env) (from : UdpAddr) (r : Room) (p : Ref)
    (src content : List ℕ)
    → lookup (addr_to_rate_key from) r.addr_map ≡ some p
    → to4 (r.heap p).virtual_ip ≡ some src
    → 8 ≤ length content
    → take 4 content ≡ src
    → check_token (r.heap p) content ≡ ok true
    → handle_relay allow env content from r ≡ (r, some (forward allow content p r))
unfolding handle_relay
relay_accepted allow env from r p src content at own long front accepted =
    ground (arith, at, relayed_from)
  where
    same : bytes_eq src (take 4 content) ≡ true
    same = rw front (bytes_eq_refl src)

    relayed_from : relay_from allow content p r ≡ some (forward allow content p r)
    relayed_from = rw (relay_from, own, same, accepted) refl

one_packet :
    (b : Bool) (xs ys : List UdpAddr) (q : List ℕ)
    → let out : List UdpAddr × List ℕ = if b then (xs, q) else (ys, q) in out.1 ≡ q
one_packet true xs ys q = refl
one_packet false xs ys q = refl

-- What is sent on has a checksum in a room without a password, and none in one with a password.
forwarded :
    (allow : UdpAddr → ℕ → Bool) (r : Room) (p : Ref) (content : List ℕ)
    → (forward allow content p r).1 ≡ (
        if length r.room_pass == 0
        then encode_checked type_data content
        else encode type_data content)
unfolding forward
forwarded allow r p content = one_packet _ _ _ _

sent_on :
    (allow : UdpAddr → ℕ → Bool) (r : Room) (p : Ref) (content : List ℕ)
    → length r.room_pass ≡ 0
    → decode_checked (forward allow content p r).1
      ≡ ok (record { typ = type_data; payload = content })
sent_on allow r p content free =
    ap decode_checked (forwarded allow r p content ∙ ground (arith, free))
    ∙ decode_checked-encode_checked type_data content

pub sealed_on :
    (allow : UdpAddr → ℕ → Bool) (r : Room) (p : Ref) (content : List ℕ)
    → 0 < length r.room_pass
    → decode (forward allow content p r).1 ≡ ok (record { typ = type_data; payload = content })
sealed_on allow r p content locked =
    ap decode (forwarded allow r p content ∙ ground arith) ∙ decode-encode type_data content

-- The payload of a client's packet is relayed for it.
pub relay_payload :
    (allow : UdpAddr → ℕ → Bool) (env : Env) (from : UdpAddr) (r : Room) (p : Ref)
    (src dst bytes : List ℕ)
    → lookup (addr_to_rate_key from) r.addr_map ≡ some p
    → (own : to4 (r.heap p).virtual_ip ≡ some src) (hd : length dst ≡ 4)
      (ht : length (r.heap p).session_token ≡ 16)
    → let content = payload src dst bytes (r.heap p).session_token (length-to4 _ src own) hd ht in
      handle_relay allow env content from r ≡ (r, some (forward allow content p r))
relay_payload allow env from r p src dst bytes at own hd ht =
    let token = (r.heap p).session_token in
    let hs = length-to4 _ src own in
    let part_fits = announced src dst bytes token hs hd ht in
    relay_accepted allow env from r p src (payload src dst bytes token hs hd ht) at own
      (omega (
        arith,
        length-packet src dst (part src dst bytes token hs hd ht) bytes (announce_token 0 token) hs
            hd part_fits,
      ))
      (source_payload src dst bytes token hs hd ht)
      (check_token-payload src dst bytes token hs hd ht (r.heap p) refl)

within_limit_one :
    (allow : UdpAddr → ℕ → Bool) (size : ℕ) (to : UdpAddr)
    → allow to size ≡ true
    → within_limit allow size (to ∷ []) ≡ to ∷ []
unfolding within_limit
within_limit_one allow size to lets = ground (arith, lets)

forward_receivers :
    (allow : UdpAddr → ℕ → Bool) (r : Room) (p q : Ref) (to : UdpAddr) (dst content : List ℕ)
    → take 4 (drop 4 content) ≡ dst
    → is_relay_target dst r.subnet ≡ false
    → lookup (ip_key dst) r.clients ≡ some q
    → (r.heap q).public_addr ≡ some to
    → ((size : ℕ) → allow to size ≡ true)
    → (forward allow content p r).0 ≡ to ∷ []
unfolding forward unicast_targets
forward_receivers allow r p q to dst content names single seat home lets =
    rw (forward, names, single, unicast_targets, seat, home) (within_limit_one allow _ to (lets _))

-- A packet for another client goes to the public address of that client, where the limiter lets it.
pub forward_unicast :
    (allow : UdpAddr → ℕ → Bool) (r : Room) (p q : Ref) (to : UdpAddr) (dst content : List ℕ)
    → take 4 (drop 4 content) ≡ dst
    → is_relay_target dst r.subnet ≡ false
    → lookup (ip_key dst) r.clients ≡ some q
    → (r.heap q).public_addr ≡ some to
    → ((size : ℕ) → allow to size ≡ true)
    → forward allow content p r ≡ (to ∷ [], (forward allow content p r).1)
forward_unicast allow r p q to dst content names single seat home lets =
    ap (λ t. (t, (forward allow content p r).1))
      (forward_receivers allow r p q to dst content names single seat home lets)

drop_append_at : (n : ℕ) (xs ys : List ℕ) → length xs ≡ n → drop n (xs ++ ys) ≡ ys
drop_append_at n xs ys e = rw (← e) (drop-append xs ys)

take_append_at : (n : ℕ) (xs ys : List ℕ) → length xs ≡ n → take n (xs ++ ys) ≡ xs
take_append_at n xs ys e = rw (← e) (take-append xs ys)

pub destination_payload :
    (src dst bytes token : List ℕ) (hs : length src ≡ 4) (hd : length dst ≡ 4)
    (ht : length token ≡ 16)
    → take 4 (drop 4 (payload src dst bytes token hs hd ht)) ≡ dst
destination_payload src dst bytes token hs hd ht =
    ap (take 4) (drop_append_at 4 src _ hs) ∙ take_append_at 4 dst _ hd

-- A data packet without encryption that a client builds with its own address and token, for a
-- server without a password where the client is registered at the sender's address: the server takes
-- the packet as the message that it is and sends one packet, to the public address of the client at the
-- destination, which is no broadcast or multicast address and which the bandwidth limiter lets through;
-- that packet decodes to the same payload, in which a client finds the two addresses and the data.
pub build_data_packet-delivered :
    (allow : UdpAddr → ℕ → Bool) (env : Env) (from to : UdpAddr) (r : Room) (p q : Ref)
    (src dst bytes : List ℕ)
    → length r.room_pass ≡ 0
    → lookup (addr_to_rate_key from) r.addr_map ≡ some p
    → to4 (r.heap p).virtual_ip ≡ some src
    → length dst ≡ 4
    → length (r.heap p).session_token ≡ 16
    → is_relay_target dst r.subnet ≡ false
    → lookup (ip_key dst) r.clients ≡ some q
    → (r.heap q).public_addr ≡ some to
    → ((size : ℕ) → allow to size ≡ true)
    → (m : Message) × (sent : List ℕ) × (incoming false
          (build_data_packet src dst bytes 0 (r.heap p).session_token)
        ≡ message m)
      × (handle_relay allow env m.payload from r ≡ (r, some (to ∷ [], sent)))
      × (decode_checked sent ≡ ok m)
      × ((d : DataPayload) × (unmarshal_data m.payload ≡ ok d)
          × (d.src_ip ≡ src)
          × (d.dst_ip ≡ dst)
          × (d.bytes ≡ bytes))
unfolding data_head
build_data_packet-delivered allow env from to r p q src dst bytes free at own hd ht single seat home
      lets =
    let token = (r.heap p).session_token in
    let hs = length-to4 _ src own in
    let content = payload src dst bytes token hs hd ht in
    (
      record { typ = type_data; payload = content },
      (forward allow content p r).1,
      rw (build_data_packet-encode_checked src dst bytes token)
          (incoming-encode_checked type_data content).0,
      relay_payload allow env from r p src dst bytes at own hd ht
          ∙ ap (λ f. (r, some f))
              (forward_unicast allow r p q to dst content
                (destination_payload src dst bytes token hs hd ht) single seat home lets),
      sent_on allow r p content free,
      (
        _,
        read_packet src dst (part src dst bytes token hs hd ht) bytes (announce_token 0 token) hs hd
            (announced src dst bytes token hs hd ht),
        refl,
        refl,
        refl,
      ),
    )
