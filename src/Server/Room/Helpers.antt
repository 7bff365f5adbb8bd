-- ===== src/Server/Room/Helpers.antt =====
-- The helpers of room.go, room_auth.go and room_status.go that the handlers call with the lock held.
use gametunnel.Base.{
  ℕ, suc, ◌+◌, ◌-◌, Bool, true, false, not, ◌&&◌, Option, none, some, List, [], ◌∷◌, leb, ltb, ◌==◌,
  if◌then◌else◌, length, bytes_eq, replicate,
}
use gametunnel.Net.{Ip, UdpAddr, RateKey, ip_key, ipv4, addr_to_rate_key, conn_ip_key}
use gametunnel.Map.{Map, bytes_key, lookup, insert, erase}
use gametunnel.Protocol.Register.{RegisterPayload}
use gametunnel.Protocol.Kick.{kick_code_none}
use gametunnel.Server.Bitmap.{mark_ip_used, mark_ip_free, next_available}
use gametunnel.Server.Room.{
  auth_none, auth_challenge_sent, Client, Ref, Room, Env, Output, KickReason, sent_kick,
  sent_assign_ip, is_pending, rate_key,
}

-- A missing key reads as zero.
abbrev pub or_zero : Option ℕ → ℕ
or_zero none = 0
or_zero (some n) = n

-- A write through a pointer.
unfoldable pub store : Ref → Client → (Ref → Client) → Ref → Client
store p c h q = if p == q then c else h q

unfoldable pub check_reg_rate : UdpAddr → Room → Room × Bool
check_reg_rate addr r =
    let n = or_zero (lookup (conn_ip_key addr) r.reg_buf) + 1 in
    (record r { reg_buf = insert (conn_ip_key addr) n r.reg_buf }, leb n r.max_reg_per_ip)

-- One round of regRateLimitLoop: the buffers are swapped, and the stale one is cleared.
unfoldable pub reg_rate_tick : Room → Room
reg_rate_tick r = record r { reg_buf = r.reg_stale; reg_stale = [] }

unfoldable pub decrement_ip_conn_count : List ℕ → Map (List ℕ) ℕ → Map (List ℕ) ℕ
decrement_ip_conn_count ip m = elim (lookup ip m) [
  | none ↦ erase ip m
  | some n ↦ if ltb 1 n then insert ip (n - 1) m else erase ip m
]

unfoldable pub increment_ip_conn_count : List ℕ → Map (List ℕ) ℕ → Map (List ℕ) ℕ
increment_ip_conn_count ip m = insert ip (or_zero (lookup ip m) + 1) m

-- `if c.PublicAddr != nil { r.decrementIPConnCount(addrToConnIPKey(c.PublicAddr)) }`
unfoldable pub release_addr : Option UdpAddr → Map (List ℕ) ℕ → Map (List ℕ) ℕ
unfolding decrement_ip_conn_count
release_addr none m = m
release_addr (some a) m = decrement_ip_conn_count (conn_ip_key a) m

unfoldable pub cleanup_pending_auth : RateKey → Client → Room → Room
unfolding release_addr
cleanup_pending_auth delete_key c r = record r {
  addr_map = erase delete_key r.addr_map;
  pending_auth = r.pending_auth - 1;
  ip_conn_count = release_addr c.public_addr r.ip_conn_count;
}

-- The kick and its count.
unfoldable pub send_kick_code : UdpAddr → ℕ → KickReason → Room → Room × List Output
send_kick_code to code reason r =
    (record r { total_kicks = r.total_kicks + 1 }, sent_kick code reason to ∷ [])

unfoldable pub send_kick : UdpAddr → KickReason → Room → Room × List Output
unfolding send_kick_code
send_kick to reason r = send_kick_code to kick_code_none reason r

-- The token is that of the client which holds the address now.
unfoldable pub send_assign_ip : Ip → UdpAddr → Room → Output
send_assign_ip vip to r = elim (lookup (ip_key vip) r.clients) [
  | none ↦ sent_assign_ip vip (replicate 16 0) to
  | some c ↦ sent_assign_ip vip (r.heap c).session_token to
]

pub data CheckResult : Type 0 where
  check_ok check_room_full check_duplicate : CheckResult

-- The loop over the clients for the same room and name.
unfoldable pub name_taken : (Ref → Client) → List ℕ → List ℕ → Map (List ℕ) Ref → Bool
name_taken heap username room_id [] = false
name_taken heap username room_id ((k, p) ∷ m) =
    let rest = name_taken heap username room_id m in
    if is_pending (heap p)
    then rest
    else if bytes_eq (heap p).auth_room_id room_id && bytes_eq (heap p).username username
    then true
    else rest

unfoldable pub check_capacity_and_duplicate : List ℕ → List ℕ → Room → CheckResult
unfolding name_taken
check_capacity_and_duplicate username room_id r =
    if leb r.max_players (length r.clients)
    then check_room_full
    else if name_taken r.heap username room_id r.clients
    then check_duplicate
    else check_ok

-- A client restored from disk that waits for its owner: same name and room, no address yet.
abbrev pub is_placeholder : List ℕ → List ℕ → Client → Bool
is_placeholder username room_id c = elim c.public_addr [
  | none ↦ bytes_eq c.username username && bytes_eq c.auth_room_id room_id && not (is_pending c)
  | some a ↦ false
]

unfoldable pub find_placeholder : (Ref → Client) → List ℕ → List ℕ → Map (List ℕ) Ref → Option Ref
find_placeholder heap username room_id [] = none
find_placeholder heap username room_id ((k, p) ∷ m) =
    if is_placeholder username room_id (heap p)
    then some p
    else find_placeholder heap username room_id m

-- The placeholder gets the sender's address.
unfoldable pub attach : Env → UdpAddr → Ref → Room → Room
unfolding store
attach env from p r =
    let c = r.heap p in
    record r {
      heap = store p (record c { public_addr = some from; last_seen = env.now }) r.heap;
      addr_map = insert (addr_to_rate_key from) p r.addr_map;
    }

unfoldable pub resolve_restored_client : Env → List ℕ → List ℕ → UdpAddr → Room → Room × Option Ref
unfolding find_placeholder attach increment_ip_conn_count decrement_ip_conn_count
resolve_restored_client env username room_id from r =
    let ip = conn_ip_key from in
    if leb r.max_per_ip (or_zero (lookup ip r.ip_conn_count))
    then (r, none)
    else (let counted = record r { ip_conn_count = increment_ip_conn_count ip r.ip_conn_count } in
        elim (find_placeholder r.heap username room_id r.clients) [
          | none ↦ (
            record counted { ip_conn_count = decrement_ip_conn_count ip counted.ip_conn_count },
            none,
          )
          | some p ↦ (attach env from p counted, some p)
        ])

-- The client that doRegisterClient makes.
abbrev pub new_client : Env → RegisterPayload → UdpAddr → Ip → List ℕ → Client
new_client env reg from vip token = record {
  username = reg.username;
  virtual_ip = vip;
  public_addr = some from;
  nat_type = 0;
  last_seen = env.now;
  session_token = token;
  auth = auth_none;
  challenge = [];
  challenge_at = 0;
  auth_room_id = reg.room_id;
  client_version = reg.version;
}

-- The new client in the heap and in both maps, with the counters of the room.
unfoldable pub add_client : Env → UdpAddr → Ip → Client → Room → Room
unfolding store
add_client env from vip c r =
    let clients = insert (ip_key vip) r.next_ref r.clients in
    record r {
      heap = store r.next_ref c r.heap;
      next_ref = suc r.next_ref;
      clients = clients;
      addr_map = insert (addr_to_rate_key from) r.next_ref r.addr_map;
      last_activity = env.now;
      total_registrations = r.total_registrations + 1;
      peak_players = if ltb r.peak_players (length clients) then length clients else r.peak_players;
    }

unfoldable pub do_register_client : Env → RegisterPayload → UdpAddr → Room → Room × Option Ip
unfolding add_client
do_register_client env reg from r = elim (next_available r.ip_bitmap) [
  | none ↦ (r, none)
  | some octet ↦
      let vip = ipv4 r.subnet.b0 r.subnet.b1 r.subnet.b2 octet in
      let marked = record r { ip_bitmap = mark_ip_used octet r.ip_bitmap } in
      elim env.new_token [
        | none ↦ (record marked { ip_bitmap = mark_ip_free octet marked.ip_bitmap }, none)
        | some token ↦
            (add_client env from vip (new_client env reg from vip token) marked, some vip)
      ]
]

-- The pending client that doSendAuthChallenge makes.
abbrev pub pending_client : Env → RegisterPayload → UdpAddr → List ℕ → Client
pending_client env reg from challenge = record {
  username = reg.username;
  virtual_ip = [];
  public_addr = some from;
  nat_type = 0;
  last_seen = env.now;
  session_token = replicate 16 0;
  auth = auth_challenge_sent;
  challenge = challenge;
  challenge_at = env.now;
  auth_room_id = reg.room_id;
  client_version = reg.version;
}

unfoldable pub do_send_auth_challenge :
    Env → RegisterPayload → UdpAddr → Room → Room × Option (List ℕ)
unfolding store
do_send_auth_challenge env reg from r = elim env.new_challenge [
  | none ↦ (r, none)
  | some challenge ↦ (
    record r {
      heap = store r.next_ref (pending_client env reg from challenge) r.heap;
      next_ref = suc r.next_ref;
      addr_map = insert (addr_to_rate_key from) r.next_ref r.addr_map;
      pending_auth = r.pending_auth + 1;
    },
    some challenge,
  )
]
