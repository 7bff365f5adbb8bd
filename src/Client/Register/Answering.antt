-- ===== src/Client/Register/Answering.antt =====
-- The challenge of a room with a password, from the server to the client and back.
use gametunnel.Net.{Ip, ip_key, ipv4}
use gametunnel.Map.{bytes_key, lookup-insert_self}
use gametunnel.Protocol.Register.{RegisterPayload}
use gametunnel.Server.Bitmap.{next_available, mark_ip_used}
use gametunnel.Server.Room.Seats.Moves.{store_self}
use gametunnel.Server.Room.{
  Client, Output, sent_assign_ip, sent_peer_info, cache_invalidated, marked_dirty, peers_broadcast,
}
use gametunnel.Server.Room.Auth.{take_pending}
use gametunnel.Server.Room.Helpers.{new_client, do_register_client, add_client, send_assign_ip}
use gametunnel.Base.{
  ℕ, ◌-◌, ◌<◌, ◌≤◌, ◌≡◌, refl, ap, sym, ◌∙◌, true, false, Option, some, List, [], ◌∷◌, ◌++◌, ltb,
  ◌==◌, length, inr, arith, append-nil,
}
use gametunnel.Bytes.{ok}
use gametunnel.Net.{UdpAddr, addr_to_rate_key}
use gametunnel.Map.{lookup}
use gametunnel.Checksum.{crc32, put_u32}
use gametunnel.Protocol.Packet.{Message, protocol_version, encode_checked}
use gametunnel.Protocol.Auth.{
  AuthChallengePayload, AuthResponsePayload, marshal_auth_challenge, unmarshal_auth_challenge,
  marshal_auth_response, unmarshal_auth_response, unmarshal_auth_challenge-marshal_auth_challenge,
  unmarshal_auth_response-marshal_auth_response,
}
use gametunnel.Server.Dispatch.{incoming, message, incoming-encode_checked, type_auth_response}
use gametunnel.Server.Room.{Room, Ref, Env, Crypto, is_pending, rate_key}
use gametunnel.Server.Room.Helpers.{check_capacity_and_duplicate, check_ok}
use gametunnel.Server.Room.Auth.{
  Found, pending, locate, get_auth_key, check_response, challenge_lifetime, admit, respond_located,
  handle_auth_response,
}
use gametunnel.Client.Tunnel.{Session}
use gametunnel.Client.Register.{Handshake, seen_addr, handle_auth_challenge}

-- The response of a client with this session to a challenge.
abbrev pub response : Handshake → List ℕ → List ℕ → UdpAddr → Session → AuthResponsePayload
response hs key challenge from s = record {
  room_id = s.room_id;
  username = s.username;
  hmac = hs.compute_hmac key challenge s.room_id s.username (some from);
}

-- What the client sends for a challenge with this text of its address.
answer_sent :
    (hs : Handshake) (s : Session) (key challenge text : List ℕ) (from : UdpAddr)
    → 0 < length s.room_pass
    → hs.derive_key s.room_pass s.room_id ≡ some key
    → hs.resolve text ≡ some from
    → 0 < length text
    → length text < 65536
    → length challenge < 65536
    → handle_auth_challenge hs
        (marshal_auth_challenge (record { challenge = challenge; client_addr = text }))
        s
      ≡ inr (
          encode_checked type_auth_response
            (marshal_auth_response (response hs key challenge from s)))
unfolding handle_auth_challenge seen_addr
answer_sent hs s key challenge text from pass derived found some_text short small =
    let c : AuthChallengePayload = record { challenge = challenge; client_addr = text } in
    let read : unmarshal_auth_challenge (marshal_auth_challenge c) ≡ ok c =
      ap unmarshal_auth_challenge (sym (append-nil (marshal_auth_challenge c)))
      ∙ unmarshal_auth_challenge-marshal_auth_challenge c [] small short in
    let locked : (length s.room_pass == 0) ≡ false = ground (arith, pass) in
    let named : (length text == 0) ≡ false = ground (arith, some_text) in
    rw (handle_auth_challenge, locked, read, derived, seen_addr, named, found) refl

module _ (crypto : Crypto) (env : Env) (from : UdpAddr) (r : Room) (p : Ref) where
  -- The pending entry of the address.
  abbrev pub entry : Found
  entry = record { key = addr_to_rate_key from; ref = p; by_scan = false }

  answer_located :
      (resp : AuthResponsePayload)
      → lookup (addr_to_rate_key from) r.addr_map ≡ some p
      → is_pending (r.heap p) ≡ true
      → locate (addr_to_rate_key from) resp r ≡ pending entry
  unfolding locate
  answer_located resp at waiting = rw (locate, at, waiting) refl

  answer_checked :
      (resp : AuthResponsePayload) (key : List ℕ)
      → env.now - (r.heap p).challenge_at ≤ challenge_lifetime
      → get_auth_key crypto r (r.heap p).auth_room_id ≡ some key
      → crypto.verify_hmac key resp.hmac
          (r.heap p).challenge
          resp.room_id
          resp.username
          (r.heap p).public_addr
        ≡ true
      → check_capacity_and_duplicate resp.username resp.room_id r ≡ check_ok
      → check_response crypto env resp from entry r ≡ admit env from entry r
  unfolding check_response
  answer_checked resp key fresh same right free =
      let in_time : ltb challenge_lifetime (env.now - (r.heap p).challenge_at) ≡ false =
        ground (arith, fresh) in
      rw (check_response, in_time, same, right, free) refl

  answer_handled :
      (resp : AuthResponsePayload) (payload : List ℕ)
      → unmarshal_auth_response payload ≡ ok resp
      → length resp.hmac ≡ 32
      → locate (addr_to_rate_key from) resp r ≡ pending entry
      → handle_auth_response crypto env payload from r ≡ check_response crypto env resp from entry r
  unfolding handle_auth_response respond_located
  answer_handled resp payload read wide at =
      let right : (length resp.hmac == 32) ≡ true = ground (arith, wide) in
      rw (handle_auth_response, read, right, at, respond_located) refl

-- The client of this entry has got the free address: it stands in the table and in the map of addresses
-- as a registered client with the new token, and is told its address and token.
pub record IsAdmitted (env : Env) (from : UdpAddr) (r : Room) (p : Ref) (octet : ℕ) (token : List ℕ)
    (after : Room) (sent : List Output) : Type 0 where
  pub ref : Ref
  pub seat :
      lookup (ip_key (ipv4 r.subnet.b0 r.subnet.b1 r.subnet.b2 octet)) after.clients ≡ some ref
  pub reached : lookup (addr_to_rate_key from) after.addr_map ≡ some ref
  pub settled : is_pending (after.heap ref) ≡ false
  pub vip : (after.heap ref).virtual_ip ≡ ipv4 r.subnet.b0 r.subnet.b1 r.subnet.b2 octet
  pub name : (after.heap ref).username ≡ (r.heap p).username
  pub home : (after.heap ref).public_addr ≡ some from
  pub secret : (after.heap ref).session_token ≡ token
  pub told :
      sent
      ≡ sent_assign_ip (ipv4 r.subnet.b0 r.subnet.b1 r.subnet.b2 octet) token from
        ∷ sent_peer_info from
        ∷ cache_invalidated
        ∷ marked_dirty
        ∷ peers_broadcast
        ∷ []

registered_at :
    (env : Env) (reg : RegisterPayload) (from : UdpAddr) (r : Room) (octet : ℕ) (token : List ℕ)
    → next_available r.ip_bitmap ≡ some octet
    → env.new_token ≡ some token
    → let vip = ipv4 r.subnet.b0 r.subnet.b1 r.subnet.b2 octet in
      do_register_client env reg from r ≡ (
        add_client env from vip
            (new_client env reg from vip token)
            (record r { ip_bitmap = mark_ip_used octet r.ip_bitmap }),
        some vip,
      )
unfolding do_register_client
registered_at env reg from r octet token free drawn = rw (do_register_client, free, drawn) refl

told_token :
    (env : Env) (from : UdpAddr) (vip : Ip) (c : Client) (r : Room)
    → send_assign_ip vip from (add_client env from vip c r)
      ≡ sent_assign_ip vip c.session_token from
unfolding send_assign_ip add_client
told_token env from vip c r =
    rw
      (
        send_assign_ip,
        lookup-insert_self (ip_key vip) r.next_ref r.clients,
        store_self r.next_ref c r.heap,
      )
      refl

added-IsAdmitted :
    (env : Env) (reg : RegisterPayload) (from : UdpAddr) (r before : Room) (p : Ref) (octet : ℕ)
    (token : List ℕ)
    → reg.username ≡ (r.heap p).username
    → let vip = ipv4 r.subnet.b0 r.subnet.b1 r.subnet.b2 octet in
      let after = add_client env from vip (new_client env reg from vip token) before in
      IsAdmitted env from r p octet token after (
        send_assign_ip vip from after
        ∷ sent_peer_info from
        ∷ cache_invalidated
        ∷ marked_dirty
        ∷ peers_broadcast
        ∷ [])
unfolding add_client
added-IsAdmitted env reg from r before p octet token same =
    let vip = ipv4 r.subnet.b0 r.subnet.b1 r.subnet.b2 octet in
    let c = new_client env reg from vip token in
    let written = store_self before.next_ref c before.heap in
    record {
      ref = before.next_ref;
      seat = lookup-insert_self (ip_key vip) before.next_ref before.clients;
      reached = lookup-insert_self (addr_to_rate_key from) before.next_ref before.addr_map;
      settled = ap (λ x. is_pending x) written;
      vip = ap (λ x. x.virtual_ip) written;
      name = ap (λ x. x.username) written ∙ same;
      home = ap (λ x. x.public_addr) written;
      secret = ap (λ x. x.session_token) written;
      told =
          ap
            (λ o. o ∷ sent_peer_info from ∷ cache_invalidated ∷ marked_dirty ∷ peers_broadcast ∷ [])
            (told_token env from vip c before);
    }

admitted_when :
    (env : Env) (from : UdpAddr) (f : Found) (r after : Room) (vip : Ip)
    → do_register_client env
        (record {
          room_id = (r.heap f.ref).auth_room_id;
          username = (r.heap f.ref).username;
          version = (r.heap f.ref).client_version;
        })
        from
        (take_pending from f r)
      ≡ (after, some vip)
    → admit env from f r ≡ (
      after,
      send_assign_ip vip from after
          ∷ sent_peer_info from
          ∷ cache_invalidated
          ∷ marked_dirty
          ∷ peers_broadcast
          ∷ [],
    )
unfolding admit
admitted_when env from f r after vip e =
    rw (admit, ap (λ x. x.1) e)
      (ap
        (λ x. (
          x,
          send_assign_ip vip from x
              ∷ sent_peer_info from
              ∷ cache_invalidated
              ∷ marked_dirty
              ∷ peers_broadcast
              ∷ [],
        ))
        (ap (λ x. x.0) e))

-- Registration at a free address, for an entry that was found at the sender's own address.
admit_seats :
    (env : Env) (from : UdpAddr) (r : Room) (p : Ref) (octet : ℕ) (token : List ℕ)
    → next_available r.ip_bitmap ≡ some octet
    → env.new_token ≡ some token
    → let (after, sent) =
        admit env from (record { key = addr_to_rate_key from; ref = p; by_scan = false }) r in
      IsAdmitted env from r p octet token after sent
unfolding take_pending
admit_seats env from r p octet token free drawn =
    let found : Found = record { key = addr_to_rate_key from; ref = p; by_scan = false } in
    let reg : RegisterPayload = record {
      room_id = (r.heap p).auth_room_id;
      username = (r.heap p).username;
      version = (r.heap p).client_version;
    } in
    let taken : Room = take_pending from found r in
    rw
      (admitted_when env from found r _ _ (registered_at env reg from taken octet token free drawn))
      (added-IsAdmitted env reg from r
        (record taken { ip_bitmap = mark_ip_used octet taken.ip_bitmap }) p octet token refl)

-- A client that knows the password is admitted: its answer to the challenge that waits for it passes the
-- checks of the room, and the client gets the free address as a registered client of the room and is
-- told so. The answer comes within 15 seconds, the room has a place, the name and an address are free,
-- and random bytes for the token can be read. The
-- HMAC has 32 bytes and verifies what it was computed for, both sides derive the same key, and the
-- text of the address leads back to the address.
pub handle_auth_challenge-admit :
    (hs : Handshake) (crypto : Crypto) (env : Env) (from : UdpAddr) (r : Room) (p : Ref)
    (s : Session) (key text token : List ℕ) (octet : ℕ)
    → ((c room user : List ℕ) (a : Option UdpAddr)
        → crypto.verify_hmac key (hs.compute_hmac key c room user a) c room user a ≡ true)
    → ((c room user : List ℕ) (a : Option UdpAddr)
        → length (hs.compute_hmac key c room user a) ≡ 32)
    → hs.derive_key s.room_pass s.room_id ≡ some key
    → get_auth_key crypto r (r.heap p).auth_room_id ≡ some key
    → hs.resolve text ≡ some from
    → 0 < length text
    → length text < 65536
    → 0 < length s.room_pass
    → length s.room_id < 65536
    → length s.username < 65536
    → length (r.heap p).challenge < 65536
    → lookup (addr_to_rate_key from) r.addr_map ≡ some p
    → is_pending (r.heap p) ≡ true
    → (r.heap p).public_addr ≡ some from
    → env.now - (r.heap p).challenge_at ≤ challenge_lifetime
    → check_capacity_and_duplicate s.username s.room_id r ≡ check_ok
    → next_available r.ip_bitmap ≡ some octet
    → env.new_token ≡ some token
    → (packet : List ℕ) × (m : Message) × (handle_auth_challenge hs
          (marshal_auth_challenge (record { challenge = (r.heap p).challenge; client_addr = text }))
          s
        ≡ inr packet)
      × (incoming true packet ≡ message m)
      × (m.typ ≡ type_auth_response)
      × (let (after, sent) = handle_auth_response crypto env m.payload from r in
          IsAdmitted env from r p octet token after sent)
handle_auth_challenge-admit hs crypto env from r p s key text token octet right wide derived same
      found some_text short pass room user small at waiting addr fresh free pool drawn =
    let resp = response hs key (r.heap p).challenge from s in
    let packet = encode_checked type_auth_response (marshal_auth_response resp) in
    let payload =
      marshal_auth_response resp
      ++ put_u32 (crc32 (protocol_version ∷ type_auth_response ∷ marshal_auth_response resp)) in
    let long = wide (r.heap p).challenge s.room_id s.username (some from) in
    let read =
      unmarshal_auth_response-marshal_auth_response resp
        (put_u32 (crc32 (protocol_version ∷ type_auth_response ∷ marshal_auth_response resp))) room
        user (omega (arith, long)) (omega (arith, long)) in
    let verified : crypto.verify_hmac key resp.hmac (r.heap p).challenge resp.room_id resp.username
          (r.heap p).public_addr
        ≡ true =
      rw addr (right (r.heap p).challenge s.room_id s.username (some from)) in
    (
      packet,
      record { typ = type_auth_response; payload = payload },
      answer_sent hs s key (r.heap p).challenge text from pass derived found some_text short small,
      (incoming-encode_checked type_auth_response (marshal_auth_response resp)).1,
      refl,
      rw
          (answer_handled crypto env from r p resp payload read long
              (answer_located crypto env from r p resp at waiting)
            ∙ answer_checked crypto env from r p resp key fresh same verified free)
          (admit_seats env from r p octet token pool drawn),
    )
