-- ===== src/Server/Room/Lifecycle.antt =====
-- internal/server/room_lifecycle.go, and the loop over all events of a room.
use gametunnel.Base.{
  ℕ, ◌-◌, Bool, true, false, ◌&&◌, Option, none, some, List, [], ◌∷◌, ltb, ◌==◌, if◌then◌else◌,
  replicate, drop,
}
use gametunnel.Net.{Ip, UdpAddr, RateKey, to4, addr_to_rate_key, conn_ip_key, ip_key}
use gametunnel.Map.{Map, lookup, erase, bytes_key}
use gametunnel.Server.Bitmap.{mark_ip_free}
use gametunnel.Server.Room.Helpers.{store, release_addr, decrement_ip_conn_count, reg_rate_tick}
use gametunnel.Server.Room.Register.{handle_register}
use gametunnel.Server.Room.Auth.{handle_auth_response}
use gametunnel.Server.Room.Relay.{handle_relay}
use gametunnel.Server.Room.{
  Client, Ref, Room, Env, Crypto, Output, cache_invalidated, marked_dirty, bucket_removed,
  is_pending, rate_key,
}

-- 30 seconds.
abbrev pub stale_after : ℕ
stale_after = 30_000_000_000

-- The payload of a keepalive is empty or begins with the NAT type.
unfoldable pub handle_keep_alive : Env → List ℕ → UdpAddr → Room → Room
unfolding store
handle_keep_alive env payload from r = elim (lookup (addr_to_rate_key from) r.addr_map) [
  | none ↦ r
  | some p ↦
      let c = record (r.heap p) { last_seen = env.now } in
      let seen : Client = elim payload [ [] ↦ c | b ∷ bs ↦ record c { nat_type = b } ] in
      record r { heap = store p seen r.heap }
]

-- The octet that `markIPFree(vip)` clears: the last of the four bytes of the address, where it is one
-- of version 4.
unfoldable pub last_octet : Ip → Option ℕ
last_octet vip = elim (to4 vip) [
  | none ↦ none
  | some v ↦ elim (drop 3 v) [ [] ↦ none | octet ∷ rest ↦ some octet ]
]

unfoldable pub free_vip : Ip → Room → Room
unfolding last_octet
free_vip vip r = elim (last_octet vip) [
  | none ↦ r
  | some octet ↦ record r { ip_bitmap = mark_ip_free octet r.ip_bitmap }
]

-- The client leaves under the lock: a pending one gives back its slot, another its address.
unfoldable pub leave : Ref → Room → Room
unfolding free_vip release_addr
leave p r =
    let c = r.heap p in
    let r' =
      if is_pending c
      then record r { pending_auth = r.pending_auth - 1 }
      else (let freed = free_vip c.virtual_ip r in
          record freed { clients = erase (ip_key c.virtual_ip) freed.clients }) in
    record r' { ip_conn_count = release_addr c.public_addr r'.ip_conn_count }

unfoldable pub handle_disconnect : Env → UdpAddr → Room → Room × List Output
unfolding leave
handle_disconnect env from r = elim (lookup (addr_to_rate_key from) r.addr_map) [
  | none ↦ (r, [])
  | some p ↦
      let left = leave p (record r { last_activity = env.now }) in
      (
        record left { addr_map = erase (addr_to_rate_key from) left.addr_map },
        bucket_removed from ∷ cache_invalidated ∷ marked_dirty ∷ [],
      )
]

-- What CleanupStale notes under the read lock.
pub record StaleClient : Type 0 where
  pub key : List ℕ
  pub addr : Option UdpAddr
  pub ref : Ref

pub record StaleAuth : Type 0 where
  pub key : RateKey
  pub addr : Option UdpAddr
  pub ref : Ref

unfoldable pub stale_clients : ℕ → (Ref → Client) → Map (List ℕ) Ref → List StaleClient
stale_clients now heap [] = []
stale_clients now heap ((k, p) ∷ m) =
    let rest = stale_clients now heap m in
    if ltb stale_after (now - (heap p).last_seen)
    then record { key = k; addr = (heap p).public_addr; ref = p } ∷ rest
    else rest

unfoldable pub stale_auths : ℕ → (Ref → Client) → Map RateKey Ref → List StaleAuth
stale_auths now heap [] = []
stale_auths now heap ((k, p) ∷ m) =
    let rest = stale_auths now heap m in
    if is_pending (heap p) && ltb stale_after (now - (heap p).challenge_at)
    then record { key = k; addr = (heap p).public_addr; ref = p } ∷ rest
    else rest

-- The keys that were noted are used if the client has an address now.
unfoldable pub forget_addr : Option UdpAddr → Option UdpAddr → Room → Room
unfolding decrement_ip_conn_count
forget_addr noted none r = r
forget_addr none (some b) r = record r {
  addr_map = erase (record { ip = replicate 16 0; port = 0 }) r.addr_map;
  ip_conn_count = decrement_ip_conn_count (replicate 16 0) r.ip_conn_count;
}
forget_addr (some a) (some b) r = record r {
  addr_map = erase (addr_to_rate_key a) r.addr_map;
  ip_conn_count = decrement_ip_conn_count (conn_ip_key a) r.ip_conn_count;
}

-- One noted client under the write lock, checked again.
unfoldable pub sweep_client : ℕ → StaleClient → Room × Bool → Room × Bool
unfolding free_vip forget_addr
sweep_client now s (r, changed) = elim (lookup s.key r.clients) [
  | none ↦ (r, changed)
  | some cur ↦
      if cur == s.ref && ltb stale_after (now - (r.heap cur).last_seen)
      then (let c = r.heap s.ref in
          let freed = free_vip c.virtual_ip r in
          (
            forget_addr s.addr c.public_addr (record freed { clients = erase s.key freed.clients }),
            true,
          ))
      else (r, changed)
]

-- The count under the key that was noted, if the client has an address now.
unfoldable pub release_noted : Option UdpAddr → Option UdpAddr → Map (List ℕ) ℕ → Map (List ℕ) ℕ
unfolding decrement_ip_conn_count
release_noted noted none m = m
release_noted none (some b) m = decrement_ip_conn_count (replicate 16 0) m
release_noted (some a) (some b) m = decrement_ip_conn_count (conn_ip_key a) m

unfoldable pub sweep_auth : StaleAuth → Room → Room
unfolding release_noted
sweep_auth s r = elim (lookup s.key r.addr_map) [
  | none ↦ r
  | some cur ↦
      if cur == s.ref
      then record r {
        addr_map = erase s.key r.addr_map;
        pending_auth = r.pending_auth - 1;
        ip_conn_count = release_noted s.addr (r.heap s.ref).public_addr r.ip_conn_count;
      }
      else r
]

unfoldable pub sweep_clients : ℕ → List StaleClient → Room × Bool → Room × Bool
unfolding sweep_client
sweep_clients now [] s = s
sweep_clients now (x ∷ xs) s = sweep_clients now xs (sweep_client now x s)

unfoldable pub sweep_auths : List StaleAuth → Room → Room
unfolding sweep_auth
sweep_auths [] r = r
sweep_auths (x ∷ xs) r = sweep_auths xs (sweep_auth x r)

-- CleanupStale, with the clock of the first and of the second part, and no other handler between.
unfoldable pub cleanup_stale : ℕ → ℕ → Room → Room × Bool
unfolding stale_clients stale_auths sweep_clients sweep_auths
cleanup_stale now later r =
    let clients = stale_clients now r.heap r.clients in
    let auths = stale_auths now r.heap r.addr_map in
    let (r', changed) = sweep_clients later clients (r, false) in (sweep_auths auths r', changed)

-- What can happen to a room.
pub data Event : Type 0 where
  registers responds keeps_alive : Env → List ℕ → UdpAddr → Event
  disconnects : Env → UdpAddr → Event
  relays : (UdpAddr → ℕ → Bool) → Env → List ℕ → UdpAddr → Event
  cleans_up : ℕ → ℕ → Event
  reg_ticks : Event

module _ (crypto : Crypto) where
  unfoldable pub step : Room → Event → Room
  unfolding handle_register handle_auth_response handle_keep_alive handle_disconnect cleanup_stale
      reg_rate_tick handle_relay
  step r (registers env payload from) = (handle_register env payload from r).0
  step r (responds env payload from) = (handle_auth_response crypto env payload from r).0
  step r (keeps_alive env payload from) = handle_keep_alive env payload from r
  step r (disconnects env from) = (handle_disconnect env from r).0
  step r (relays allow env payload from) = (handle_relay allow env payload from r).0
  step r (cleans_up now later) = (cleanup_stale now later r).0
  step r reg_ticks = reg_rate_tick r

  unfoldable pub run : Room → List Event → Room
  unfolding step
  run r [] = r
  run r (e ∷ es) = run (step r e) es
