-- ===== src/Server/Dispatch.antt =====
-- handlePacket of internal/server/server.go in single-room mode, and Room.HandlePacket of
-- internal/server/room.go. In a server with a password packets are decoded without their checksum.
use gametunnel.Base.{
  ℕ, ◌≡◌, refl, Bool, true, false, ◌||◌, Option, none, some, List, ◌∷◌, ◌++◌, ◌==◌, if◌then◌else◌,
  Bool-cases, inl, inr,
}
use gametunnel.Bytes.{Result, ok, err, panic, unsupported_version}
use gametunnel.Checksum.{crc32, put_u32}
use gametunnel.Net.{UdpAddr}
use gametunnel.Protocol.Packet.{
  Message, protocol_version, encode, decode, decode_checked, encode_checked, verify_checksum,
}
use gametunnel.Protocol.Packet.RoundTrip.{
  decode_checked-encode_checked, decode-encode, verify_checksum-encode_checked,
}
use gametunnel.Server.Room.{Room, Env, Crypto}
use gametunnel.Server.Room.Relay.{type_data}
use gametunnel.Server.Room.Lifecycle.{
  Event, registers, responds, keeps_alive, disconnects, relays, step,
}

abbrev pub type_register : ℕ
type_register = 1

abbrev pub type_keep_alive : ℕ
type_keep_alive = 7

abbrev pub type_auth_response : ℕ
type_auth_response = 9

abbrev pub type_disconnect : ℕ
type_disconnect = 11

abbrev pub type_nat_probe : ℕ
type_nat_probe = 14

abbrev pub type_rebind : ℕ
type_rebind = 16

-- The types whose checksum is verified even if the server has a password.
abbrev pub is_pre_auth : ℕ → Bool
is_pre_auth typ =
    typ == type_register
    || (typ == type_nat_probe || (typ == type_auth_response || typ == type_rebind))

-- What comes of the bytes of a datagram.
pub data Incoming : Type 0 where
  dropped kicked_version : Incoming
  message : Message → Incoming

abbrev verified : Message → Result (List ℕ) → Incoming
verified m (ok body) = message m
verified m (err e) = dropped
verified m panic = dropped

abbrev of_decode : List ℕ → Result Message → Incoming
of_decode bytes (ok m) = if is_pre_auth m.typ then verified m (verify_checksum bytes) else message m
of_decode bytes (err e) = dropped
of_decode bytes panic = dropped

abbrev of_decode_checked : Result Message → Incoming
of_decode_checked (ok m) = message m
of_decode_checked (err unsupported_version) = kicked_version
of_decode_checked (err e) = dropped
of_decode_checked panic = dropped

unfoldable pub incoming : Bool → List ℕ → Incoming
incoming encrypted bytes =
    if encrypted then of_decode bytes (decode bytes) else of_decode_checked (decode_checked bytes)

-- The handlers that change the state of a room. A rebind is for the server, as Server.Rooms has it;
-- peer requests, hole punches and pongs are not among the events of a room.
unfoldable pub room_event : (UdpAddr → ℕ → Bool) → Env → Message → UdpAddr → Option Event
room_event allow env m from =
    if m.typ == type_register
    then some (registers env m.payload from)
    else if m.typ == type_auth_response
    then some (responds env m.payload from)
    else if m.typ == type_keep_alive
    then some (keeps_alive env m.payload from)
    else if m.typ == type_data
    then some (relays allow env m.payload from)
    else if m.typ == type_disconnect
    then some (disconnects env from)
    else none

unfoldable pub handle_packet :
    (UdpAddr → ℕ → Bool) → Crypto → Env → Bool → List ℕ → UdpAddr → Room → Room
unfolding incoming room_event
handle_packet allow crypto env encrypted bytes from r = elim (incoming encrypted bytes) [
  | dropped ↦ r
  | kicked_version ↦ r
  | message m ↦ elim (room_event allow env m from) [ none ↦ r | some e ↦ step crypto r e ]
]

-- The payload with the checksum still behind it.
abbrev pub with_checksum : ℕ → List ℕ → List ℕ
with_checksum typ payload = payload ++ put_u32 (crc32 (protocol_version ∷ typ ∷ payload))

decode-encode_checked :
    (typ : ℕ) (payload : List ℕ)
    → decode (encode_checked typ payload)
      ≡ ok (record { typ = typ; payload = with_checksum typ payload })
unfolding encode_checked encode
decode-encode_checked typ payload = decode-encode typ (with_checksum typ payload)

-- A packet with a checksum arrives in a server without a password as the message that was sent; in one
-- with a password the four bytes of the checksum are taken for the end of its payload, whatever its
-- type.
pub incoming-encode_checked :
    (typ : ℕ) (payload : List ℕ)
    → (incoming false (encode_checked typ payload)
        ≡ message (record { typ = typ; payload = payload }))
      × (incoming true (encode_checked typ payload)
          ≡ message (record { typ = typ; payload = with_checksum typ payload }))
unfolding incoming
incoming-encode_checked typ payload = (
  rw (decode_checked-encode_checked typ payload) refl,
  rw (decode-encode_checked typ payload) (elim (Bool-cases (is_pre_auth typ)) [
    | inl t ↦ rw (t, verify_checksum-encode_checked typ payload) refl
    | inr t ↦ rw t refl
  ]),
)
