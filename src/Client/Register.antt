-- ===== src/Client/Register.antt =====
-- internal/client/register.go: what the client does with the answers to its registration. The key
-- derivation, the HMAC, the random bytes and the lookup of an address are arguments. Addresses and
-- masks are those of a decoded message, of four bytes each.
pub mod Joining
pub mod Assigning
pub mod Answering
use Prim.Native.Nat.{bit_and}
use gametunnel.Base.{
  ℕ, zero, suc, ◌+◌, Bool, true, false, not, ◌&&◌, Option, none, some, List, [], ◌∷◌, ◌++◌, ltb,
  leb, ◌==◌, if◌then◌else◌, length, bytes_eq, ◌⊎◌, inl, inr,
}
use gametunnel.Bytes.{ok, err, panic}
use gametunnel.Net.{Ip, IpNet, UdpAddr, to4, ip_key}
use gametunnel.Crypto.{Cipher, new_cipher}
use gametunnel.Protocol.Packet.{Message, encode_checked, decode_checked, app_version, is_compatible}
use gametunnel.Protocol.Register.{RegisterPayload, marshal_register}
use gametunnel.Protocol.AssignIp.{AssignIpPayload, unmarshal_assign_ip}
use gametunnel.Protocol.Auth.{AuthChallengePayload, marshal_auth_response, unmarshal_auth_challenge}
use gametunnel.Protocol.Kick.{unmarshal_kick}
use gametunnel.Protocol.PeerInfo.{v4_bytes}
use gametunnel.Server.Dispatch.{type_register, type_auth_response}
use gametunnel.Client.Tunnel.{Tunnel, Session, CryptoState}
use gametunnel.Client.Receive.{type_hole_punch, type_kick}

abbrev pub type_assign_ip : ℕ
type_assign_ip = 2

abbrev pub type_auth_challenge : ℕ
type_auth_challenge = 8

-- Of auth.go, HKDF and HMAC; of crypto/rand, eight bytes for each cipher, or an error; of net, the
-- address that a text names.
pub record Handshake : Type 0 where
  pub derive_key : List ℕ → List ℕ → Option (List ℕ)
  pub compute_hmac : List ℕ → List ℕ → List ℕ → List ℕ → Option UdpAddr → List ℕ
  pub random_enc : Option (List ℕ)
  pub random_dec : Option (List ℕ)
  pub random_p2p : Option (List ℕ)
  pub resolve : List ℕ → Option UdpAddr

pub data RegError : Type 0 where
  parse_ip_failed incompatible_version ip_outside server_outside derive_key_failed cipher_failed
        too_many_auth need_password parse_auth_failed rejected decode_failed timed_out
        context_cancelled connection_failed :
      RegError

-- `ip.Mask(mask)`
unfoldable pub mask_ip : List ℕ → List ℕ → List ℕ
mask_ip [] mask = []
mask_ip (b ∷ bs) [] = []
mask_ip (b ∷ bs) (m ∷ ms) = bit_and b m ∷ mask_ip bs ms

-- `subnet.Contains(ip)`
unfoldable pub net_contains : IpNet → List ℕ → Bool
unfolding mask_ip
net_contains net ip =
    length ip == length net.ip && bytes_eq (mask_ip net.ip net.mask) (mask_ip ip net.mask)

-- NewCipher, with its check of the key.
unfoldable pub cipher_for : List ℕ → Option (List ℕ) → ℕ → Option Cipher
cipher_for key none dir = none
cipher_for key (some random) dir =
    if length key == 32 then some (new_cipher random (0 ∷ 0 ∷ 0 ∷ dir ∷ [])) else none

-- The three ciphers, where all of them can be made.
unfoldable pub room_ciphers : Handshake → List ℕ → Option CryptoState
unfolding cipher_for
room_ciphers hs key = elim (cipher_for key hs.random_enc 1) [
  | none ↦ none
  | some enc ↦ elim (cipher_for key hs.random_dec 2) [
    | none ↦ none
    | some dec ↦ elim (cipher_for key hs.random_p2p 3) [
      | none ↦ none
      | some p2p ↦
          some (record { enc_cipher = some enc; dec_cipher = some dec; p2p_cipher = some p2p })
    ]
  ]
]

-- No ciphers in a room without a password.
unfoldable pub init_ciphers : Handshake → Session → RegError ⊎ CryptoState
unfolding room_ciphers
init_ciphers hs s =
    if length s.room_pass == 0
    then inr (record { enc_cipher = none; dec_cipher = none; p2p_cipher = none })
    else elim (hs.derive_key s.room_pass s.room_id) [
      | none ↦ inl derive_key_failed
      | some key ↦ elim (room_ciphers hs key) [ none ↦ inl cipher_failed | some c ↦ inr c ]
    ]

unfoldable pub assigned_net : AssignIpPayload → IpNet
unfolding mask_ip
assigned_net a = record { ip = mask_ip a.virtual_ip a.subnet_mask; mask = a.subnet_mask }

-- `ip.To4() != nil && subnet.Contains(ip)`
unfoldable pub fits_net : IpNet → Ip → Bool
unfolding net_contains
fits_net net ip = elim (to4 ip) [ none ↦ false | some v ↦ net_contains net ip ]

-- The state of a client that has joined; the peers of an earlier session are gone.
unfoldable pub joined : AssignIpPayload → CryptoState → Tunnel → Tunnel
unfolding assigned_net
joined a c t = record t {
  session = record t.session {
    virtual_ip = some a.virtual_ip;
    server_ip = a.server_ip;
    subnet_mask = a.subnet_mask;
    server_version = a.version;
    session_token = a.session_token;
    cached_subnet = some (assigned_net a);
    server_ip_key = some (ip_key a.server_ip);
  };
  cached_punch_packet = some (encode_checked type_hole_punch (v4_bytes a.virtual_ip));
  crypto = c;
  peers = [];
}

unfoldable pub assign_checked : Handshake → AssignIpPayload → Tunnel → RegError ⊎ Tunnel
unfolding fits_net joined init_ciphers
assign_checked hs a t =
    if not (is_compatible app_version a.version)
    then inl incompatible_version
    else if not (fits_net (assigned_net a) a.virtual_ip)
    then inl ip_outside
    else if not (fits_net (assigned_net a) a.server_ip)
    then inl server_outside
    else elim (init_ciphers hs t.session) [ inl e ↦ inl e | inr c ↦ inr (joined a c t) ]

unfoldable pub handle_assign_ip : Handshake → List ℕ → Tunnel → RegError ⊎ Tunnel
unfolding assign_checked
handle_assign_ip hs payload t = elim (unmarshal_assign_ip payload) [
  | ok a ↦ assign_checked hs a t
  | err e ↦ inl parse_ip_failed
  | panic ↦ inl parse_ip_failed
]

-- The address as the server has seen it, where the challenge names one.
unfoldable pub seen_addr : Handshake → List ℕ → Option UdpAddr
seen_addr hs text = if length text == 0 then none else hs.resolve text

-- The packet that answers a challenge.
unfoldable pub handle_auth_challenge : Handshake → List ℕ → Session → RegError ⊎ List ℕ
unfolding seen_addr
handle_auth_challenge hs payload s =
    if length s.room_pass == 0 then inl need_password else elim (unmarshal_auth_challenge payload) [
      | ok c ↦ elim (hs.derive_key s.room_pass s.room_id) [
        | none ↦ inl derive_key_failed
        | some key ↦ inr (
            encode_checked type_auth_response (
              marshal_auth_response (record {
                room_id = s.room_id;
                username = s.username;
                hmac =
                    hs.compute_hmac key c.challenge s.room_id s.username
                      (seen_addr hs c.client_addr);
              })))
      ]
      | err e ↦ inl parse_auth_failed
      | panic ↦ inl parse_auth_failed
    ]

-- What handleRegResponse says: the end, or the next count of challenges with what is sent.
pub data RegStep : Type 0 where
  joins : Tunnel → RegStep
  fails : RegError → RegStep
  waits : ℕ → List (List ℕ) → RegStep

abbrev pub of_assigned : RegError ⊎ Tunnel → RegStep
of_assigned (inl e) = fails e
of_assigned (inr t) = joins t

abbrev pub of_answer : ℕ → RegError ⊎ List ℕ → RegStep
of_answer rounds (inl e) = fails e
of_answer rounds (inr packet) = waits rounds (packet ∷ [])

abbrev pub max_auth_rounds : ℕ
max_auth_rounds = 3

unfoldable pub handle_reg_response : Handshake → Message → ℕ → Tunnel → RegStep
unfolding handle_assign_ip handle_auth_challenge
handle_reg_response hs m rounds t =
    if m.typ == type_assign_ip
    then of_assigned (handle_assign_ip hs m.payload t)
    else if m.typ == type_auth_challenge
    then (if ltb max_auth_rounds (rounds + 1)
        then fails too_many_auth
        else of_answer (rounds + 1) (handle_auth_challenge hs m.payload t.session))
    else if m.typ == type_kick
    then fails rejected
    else waits rounds []

abbrev pub max_retries : ℕ
max_retries = 3

-- A turn of the loop: the context is done when it starts, or its read ends with nothing before the
-- deadline, with another error of the connection, or with a datagram.
pub data RegRead : Type 0 where
  cancelled nothing_read read_failed : RegRead
  datagram : List ℕ → RegRead

unfoldable pub register_packet : Session → List ℕ
register_packet s = encode_checked type_register (
    marshal_register (record { room_id = s.room_id; username = s.username; version = app_version }))

-- The loop of register over UDP: how it stands after some reads, and what it has sent in them.
unfoldable pub register_loop : Handshake → ℕ → ℕ → List RegRead → Tunnel → RegStep × List (List ℕ)
unfolding handle_reg_response register_packet
register_loop hs retries rounds [] t = (waits rounds [], [])
register_loop hs retries rounds (cancelled ∷ reads) t = (fails context_cancelled, [])
register_loop hs retries rounds (read_failed ∷ reads) t = (fails connection_failed, [])
register_loop hs retries rounds (nothing_read ∷ reads) t =
    let rest = register_loop hs (retries + 1) rounds reads t in
    if ltb max_retries (retries + 1)
    then (fails timed_out, [])
    else (rest.0, register_packet t.session ∷ rest.1)
register_loop hs retries rounds (datagram bytes ∷ reads) t = elim (decode_checked bytes) [
  | ok m ↦ elim (handle_reg_response hs m rounds t) [
    | joins t' ↦ (joins t', [])
    | fails e ↦ (fails e, [])
    | waits next sent ↦ let rest = register_loop hs 0 next reads t in (rest.0, sent ++ rest.1)
  ]
  | err e ↦ (fails decode_failed, [])
  | panic ↦ (fails decode_failed, [])
]
