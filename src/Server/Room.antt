-- ===== src/Server/Room.antt =====
-- internal/server/room.go and client.go: the state of a room. Clients are objects on a heap that
-- two maps point into, as in the Go program; time is in nanoseconds; what a handler sends or
-- signals is a list of outputs.
pub mod Helpers
pub mod Register
pub mod Auth
pub mod Lifecycle
pub mod Invariant
pub mod Create
pub mod Relay
pub mod Relaying
pub mod Admission
pub mod Password
pub mod Seats
pub mod Accounting
use gametunnel.Base.{
  ℕ, suc, Bool, true, false, ◌&&◌, Option, List, leb, ltb, ◌==◌, if◌then◌else◌, bytes_eq,
  bytes_eq_refl, bytes_eq→eq, ◌≡◌, arith, ap,
}
use gametunnel.Net.{Ip, UdpAddr, RateKey}
use gametunnel.Map.{Eq, Map}
use gametunnel.Server.Bitmap.{Word}

pub data AuthState : Type 0 where
  auth_none auth_challenge_sent : AuthState

pub record Client : Type 0 where
  pub username : List ℕ
  pub virtual_ip : Ip
  pub public_addr : Option UdpAddr
  pub nat_type : ℕ
  pub last_seen : ℕ
  pub session_token : List ℕ
  pub auth : AuthState
  pub challenge : List ℕ
  pub challenge_at : ℕ
  pub auth_room_id : List ℕ
  pub client_version : ℕ

unfoldable pub rate_key_eq : RateKey → RateKey → Bool
rate_key_eq a b = bytes_eq a.ip b.ip && a.port == b.port

pub rate_key_refl : (a : RateKey) → rate_key_eq a a ≡ true
unfolding rate_key_eq
rate_key_refl a = ground (arith, bytes_eq_refl a.ip)

pub rate_key→eq : (a b : RateKey) → rate_key_eq a b ≡ true → a ≡ b
unfolding rate_key_eq
rate_key→eq a b h = ground (arith, bytes_eq→eq a.ip b.ip)

instance abbrev pub rate_key : Eq RateKey
rate_key = record { beq = rate_key_eq; beq_refl = rate_key_refl; beq→eq = rate_key→eq }

-- Pointers to clients.
abbrev pub Ref : Type 0
Ref = ℕ

-- The three bytes of the /24 subnet.
pub record Subnet : Type 0 where
  pub b0 : ℕ
  pub b1 : ℕ
  pub b2 : ℕ

pub record Room : Type 0 where
  pub room_pass : List ℕ
  pub subnet : Subnet
  pub max_players : ℕ
  pub max_pending : ℕ
  pub max_reg_per_ip : ℕ
  pub max_per_ip : ℕ
  pub heap : Ref → Client
  pub next_ref : Ref
  pub clients : Map (List ℕ) Ref
  pub addr_map : Map RateKey Ref
  pub ip_bitmap : List Word
  pub pending_auth : ℕ
  pub reg_buf : Map (List ℕ) ℕ
  pub reg_stale : Map (List ℕ) ℕ
  pub ip_conn_count : Map (List ℕ) ℕ
  pub total_registrations : ℕ
  pub auth_failures : ℕ
  pub peak_players : ℕ
  pub total_kicks : ℕ
  pub last_activity : ℕ

pub data KickReason : Type 0 where
  kick_version_mismatch kick_invalid_name kick_invalid_room kick_rate_limit : KickReason
  kick_ip_limit kick_room_full kick_duplicate_name kick_ip_exhausted : KickReason
  kick_server_busy kick_internal_error kick_auth_abnormal kick_auth_timeout : KickReason
  kick_wrong_password : KickReason

pub data Output : Type 0 where
  sent_kick : ℕ → KickReason → UdpAddr → Output
  sent_assign_ip : Ip → List ℕ → UdpAddr → Output
  sent_peer_info : UdpAddr → Output
  sent_challenge : List ℕ → UdpAddr → Output
  cache_invalidated marked_dirty peers_broadcast : Output
  bucket_removed : UdpAddr → Output

-- What a handler reads from outside: the clock, and the random bytes, which may fail.
pub record Env : Type 0 where
  pub now : ℕ
  pub new_token : Option (List ℕ)
  pub new_challenge : Option (List ℕ)

-- Key derivation and the check of an HMAC, which rest on golang.org/x/crypto.
pub record Crypto : Type 0 where
  pub derive_key : List ℕ → List ℕ → Option (List ℕ)
  pub verify_hmac : List ℕ → List ℕ → List ℕ → List ℕ → List ℕ → Option UdpAddr → Bool

-- `c.auth == authChallengeSent`
abbrev pub is_pending : Client → Bool
is_pending c = elim c.auth [ auth_challenge_sent ↦ true | _ ↦ false ]
