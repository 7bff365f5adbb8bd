-- ===== src/Client/Tunnel.antt =====
-- The state of the client program: Tunnel of internal/client/tunnel_types.go with its session and its
-- ciphers, and Peer of internal/client/tunnel.go. The map `peers` and its atomic snapshot hold the
-- same map after every handler, so they are one field. Packets that a handler passes to sendCtrl are
-- its outputs, and so are the hole punches that it starts.
use gametunnel.Base.{ℕ, ◌-◌, Bool, true, false, not, ◌&&◌, Option, List, ltb, ◌==◌, if◌then◌else◌}
use gametunnel.Net.{Ip, IpNet, UdpAddr}
use gametunnel.Map.{Map}
use gametunnel.Crypto.{Cipher}

pub record Peer : Type 0 where
  pub virtual_ip : Ip
  pub public_addr : Option UdpAddr
  pub username : List ℕ
  pub nat_type : ℕ
  pub direct_reach : Bool
  pub last_seen : ℕ  -- int64, 0 = never
  pub last_punch_back : ℕ  -- int64, 0 = never
  pub stale : Bool

pub record Session : Type 0 where
  pub virtual_ip : Option Ip
  pub server_ip : Ip
  pub server_ip_key : Option (List ℕ)
  pub subnet_mask : List ℕ
  pub cached_subnet : Option IpNet
  pub session_token : List ℕ  -- [16]byte
  pub server_version : ℕ
  pub username : List ℕ
  pub room_id : List ℕ
  pub room_pass : List ℕ

pub record CryptoState : Type 0 where
  pub enc_cipher : Option Cipher
  pub dec_cipher : Option Cipher
  pub p2p_cipher : Option Cipher

pub record Tunnel : Type 0 where
  pub session : Session
  pub crypto : CryptoState
  pub cached_punch_packet : Option (List ℕ)
  pub server_addr : Option UdpAddr
  pub peers : Map (List ℕ) Peer
  pub last_server_response : ℕ
  pub cancel_kicks : Bool
  pub tun_open : Bool

-- 5 seconds.
abbrev pub hole_punch_backoff : ℕ
hole_punch_backoff = 5_000_000_000

-- tryRateLimitHolePunch, with no other caller between its read and its exchange: the new state of the
-- peer, and whether a punch is allowed.
unfoldable pub try_rate_limit_hole_punch : ℕ → Peer → Peer × Bool
try_rate_limit_hole_punch now p =
    if not (p.last_punch_back == 0) && ltb (now - p.last_punch_back) hole_punch_backoff
    then (p, false)
    else (record p { last_punch_back = now }, true)
