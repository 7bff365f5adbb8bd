-- ===== src/Server/Room/Create.antt =====
-- NewRoom of internal/server/room.go. The room starts with the addresses .0, .1 and .255 reserved.
use gametunnel.Base.{ℕ, ◌*◌, none, List, [], arith, ltb, ◌==◌, if◌then◌else◌}
use gametunnel.Map.{lookup, bytes_key}
use gametunnel.Server.Bitmap.{empty_bitmap, mark_ip_used}
use gametunnel.Server.Room.{Room, Client, Crypto, Subnet, auth_none}
use gametunnel.Server.Room.Invariant.{Inv}
use gametunnel.Server.Room.Invariant.Running.{run-Inv}
use gametunnel.Server.Room.Lifecycle.{Event, run}

-- The configuration that the code reads; `now` is the clock.
pub record RoomConfig : Type 0 where
  pub room_pass : List ℕ
  pub subnet : Subnet
  pub max_players : ℕ
  pub max_per_ip : ℕ  -- 0 for any value up to 0

-- A heap cell that no map points to.
abbrev no_client : Client
no_client = record {
  username = [];
  virtual_ip = [];
  public_addr = none;
  nat_type = 0;
  last_seen = 0;
  session_token = [];
  auth = auth_none;
  challenge = [];
  challenge_at = 0;
  auth_room_id = [];
  client_version = 0;
}

unfoldable pub new_room : RoomConfig → ℕ → Room
new_room cfg now = record {
  room_pass = cfg.room_pass;
  subnet = cfg.subnet;
  max_players = cfg.max_players;
  max_pending = if ltb (cfg.max_players * 3) 512 then cfg.max_players * 3 else 512;
  max_reg_per_ip = 5;
  max_per_ip = if cfg.max_per_ip == 0 then 3 else cfg.max_per_ip;
  heap = λ p. no_client;
  next_ref = 0;
  clients = [];
  addr_map = [];
  ip_bitmap = mark_ip_used 255 (mark_ip_used 1 (mark_ip_used 0 empty_bitmap));
  pending_auth = 0;
  reg_buf = [];
  reg_stale = [];
  ip_conn_count = [];
  total_registrations = 0;
  auth_failures = 0;
  peak_players = 0;
  total_kicks = 0;
  last_activity = now;
}

pub new_room-Inv : (cfg : RoomConfig) (now : ℕ) → Inv (new_room cfg now)
unfolding new_room lookup
new_room-Inv cfg now = record {
  capacity = omega arith;
  within = λ ip. omega arith;
  pending = omega arith;
}

-- From its creation on, whatever registrations, responses, keepalives, relayed packets, disconnects,
-- cleanups and ticks happen to it, a room has no more clients than places, no more connections counted for an address
-- than are allowed, and no more pending authentications counted than are allowed.
pub run-new_room :
    (crypto : Crypto) (cfg : RoomConfig) (now : ℕ) (es : List Event)
    → Inv (run crypto (new_room cfg now) es)
run-new_room crypto cfg now es = run-Inv crypto (new_room cfg now) es (new_room-Inv cfg now)
