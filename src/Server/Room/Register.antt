-- ===== src/Server/Room/Register.antt =====
-- handleRegister of internal/server/room_auth.go, stage by stage.
use gametunnel.Base.{
  ℕ, not, ◌||◌, none, some, List, [], ◌∷◌, ◌++◌, leb, ltb, ◌==◌, if◌then◌else◌, length,
}
use gametunnel.Bytes.{ok, err, panic}
use gametunnel.Utf8.{rune_count}
use gametunnel.Net.{Ip, UdpAddr, addr_to_rate_key, conn_ip_key}
use gametunnel.Map.{lookup, bytes_key}
use gametunnel.Protocol.Packet.{is_compatible, app_version}
use gametunnel.Protocol.Register.{RegisterPayload, unmarshal_register}
use gametunnel.Protocol.Kick.{kick_code_version_mismatch}
use gametunnel.Server.Room.Helpers.{
  or_zero, store, check_reg_rate, decrement_ip_conn_count, increment_ip_conn_count,
  cleanup_pending_auth, send_kick, send_kick_code, send_assign_ip, check_ok, check_room_full,
  check_duplicate, check_capacity_and_duplicate, resolve_restored_client, do_register_client,
  do_send_auth_challenge,
}
use gametunnel.Server.Room.{
  Ref, Room, Env, Output, KickReason, kick_invalid_name, kick_invalid_room, kick_rate_limit,
  kick_ip_limit, kick_room_full, kick_duplicate_name, kick_ip_exhausted, kick_server_busy,
  kick_internal_error, kick_version_mismatch, sent_peer_info, sent_challenge, cache_invalidated,
  marked_dirty, peers_broadcast, is_pending, rate_key,
}

abbrev pub max_username_len : ℕ
max_username_len = 32

abbrev pub max_room_id_len : ℕ
max_room_id_len = 32

-- A pending entry under the sender's address makes way for the new attempt.
unfoldable pub drop_stale_auth : UdpAddr → Room → Room
unfolding cleanup_pending_auth
drop_stale_auth from r = elim (lookup (addr_to_rate_key from) r.addr_map) [
  | none ↦ r
  | some p ↦
      if is_pending (r.heap p) then cleanup_pending_auth (addr_to_rate_key from) (r.heap p) r else r
]

-- What every accepted client is sent.
abbrev welcome : Ip → UdpAddr → Room → List Output
welcome vip to r = send_assign_ip vip to r ∷ sent_peer_info to ∷ []

abbrev announce : List Output
announce = cache_invalidated ∷ marked_dirty ∷ peers_broadcast ∷ []

-- The sender is known: its object is refreshed and it is told its address again.
unfoldable pub refresh_client : Env → RegisterPayload → UdpAddr → Ref → Room → Room × List Output
unfolding store
refresh_client env reg from p r =
    let c = r.heap p in
    let r' = record r {
      heap = store p (record c { last_seen = env.now; client_version = reg.version }) r.heap;
    } in
    (r', welcome c.virtual_ip from r')

-- A refusal after the count of the sender's address went up.
unfoldable pub refuse : UdpAddr → KickReason → Room → Room × List Output
unfolding decrement_ip_conn_count send_kick
refuse from reason r =
    send_kick from reason
      (record r { ip_conn_count = decrement_ip_conn_count (conn_ip_key from) r.ip_conn_count })

-- A room without a password registers at once.
unfoldable pub register_open : Env → RegisterPayload → UdpAddr → Room → Room × List Output
unfolding do_register_client send_kick
register_open env reg from r =
    let (r', registered) = do_register_client env reg from r in
    elim registered [
      | none ↦ send_kick from kick_ip_exhausted r'
      | some vip ↦ (r', welcome vip from r' ++ announce)
    ]

-- A room with a password sends a challenge.
unfoldable pub register_challenge : Env → RegisterPayload → UdpAddr → Room → Room × List Output
unfolding do_send_auth_challenge refuse
register_challenge env reg from r =
    if leb r.max_pending r.pending_auth
    then refuse from kick_server_busy r
    else (let (r', sent) = do_send_auth_challenge env reg from r in
        elim sent [
          | none ↦ refuse from kick_internal_error r'
          | some challenge ↦ (r', sent_challenge challenge from ∷ [])
        ])

-- The limit per address, the capacity and the name, with the count already raised.
unfoldable pub register_fresh : Env → RegisterPayload → UdpAddr → Room → Room × List Output
unfolding register_open register_challenge refuse check_capacity_and_duplicate
register_fresh env reg from r =
    let ip = conn_ip_key from in
    if leb r.max_per_ip (or_zero (lookup ip r.ip_conn_count))
    then send_kick from kick_ip_limit r
    else (let r' = record r { ip_conn_count = increment_ip_conn_count ip r.ip_conn_count } in
        elim (check_capacity_and_duplicate reg.username reg.room_id r') [
          | check_room_full ↦ refuse from kick_room_full r'
          | check_duplicate ↦ refuse from kick_duplicate_name r'
          | check_ok ↦
              if length r'.room_pass == 0
              then register_open env reg from r'
              else register_challenge env reg from r'
        ])

-- Everything under the lock.
unfoldable pub register_locked : Env → RegisterPayload → UdpAddr → Room → Room × List Output
unfolding drop_stale_auth refresh_client resolve_restored_client register_fresh
register_locked env reg from r0 =
    let r = drop_stale_auth from r0 in
    elim (lookup (addr_to_rate_key from) r.addr_map) [
      | some p ↦ refresh_client env reg from p r
      | none ↦
          let (r', restored) = resolve_restored_client env reg.username reg.room_id from r in
          elim restored [
            | some p ↦ (r', welcome (r'.heap p).virtual_ip from r' ++ announce)
            | none ↦ register_fresh env reg from r'
          ]
    ]

-- The checks of the message, and the rate of the sender's address.
unfoldable pub register_checked : Env → RegisterPayload → UdpAddr → Room → Room × List Output
unfolding register_locked check_reg_rate
register_checked env reg from r =
    if not (is_compatible reg.version app_version)
    then send_kick_code from kick_code_version_mismatch kick_version_mismatch r
    else if rune_count reg.username == 0 || ltb max_username_len (rune_count reg.username)
    then send_kick from kick_invalid_name r
    else if length reg.room_id == 0 || ltb max_room_id_len (length reg.room_id)
    then send_kick from kick_invalid_room r
    else (let (r', within) = check_reg_rate from r in
        if within then register_locked env reg from r' else send_kick from kick_rate_limit r')

unfoldable pub handle_register : Env → List ℕ → UdpAddr → Room → Room × List Output
unfolding register_checked
handle_register env payload from r = elim (unmarshal_register payload) [
  | ok reg ↦ register_checked env reg from r
  | err e ↦ (r, [])
  | panic ↦ (r, [])
]
