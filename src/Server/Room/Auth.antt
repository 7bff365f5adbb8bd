-- ===== src/Server/Room/Auth.antt =====
-- handleAuthResponse of internal/server/room_auth.go, stage by stage.
use gametunnel.Base.{
  ℕ, ◌+◌, ◌-◌, Bool, true, false, ◌&&◌, Option, none, some, List, [], ◌∷◌, ltb, ◌==◌, if◌then◌else◌,
  length, bytes_eq,
}
use gametunnel.Bytes.{ok, err, panic}
use gametunnel.Net.{UdpAddr, RateKey, addr_to_rate_key}
use gametunnel.Map.{Map, lookup, insert, erase, bytes_key}
use gametunnel.Protocol.Register.{RegisterPayload}
use gametunnel.Protocol.Auth.{AuthResponsePayload, unmarshal_auth_response}
use gametunnel.Protocol.Kick.{kick_code_wrong_password}
use gametunnel.Server.Room.Helpers.{
  store, release_addr, cleanup_pending_auth, send_kick, send_kick_code, send_assign_ip, CheckResult,
  check_ok, check_room_full, check_capacity_and_duplicate, do_register_client,
}
use gametunnel.Server.Room.{
  Client, Ref, Room, Env, Crypto, Output, kick_room_full, kick_duplicate_name, kick_ip_exhausted,
  kick_internal_error, kick_auth_abnormal, kick_auth_timeout, kick_wrong_password, sent_peer_info,
  cache_invalidated, marked_dirty, peers_broadcast, is_pending, rate_key,
}

abbrev pub challenge_lifetime : ℕ
challenge_lifetime = 15_000_000_000

-- The scan over the pending clients by room and name, for a sender whose address has changed.
unfoldable pub scan_pending :
    (Ref → Client) → List ℕ → List ℕ → Map RateKey Ref → Option (RateKey × Ref)
scan_pending heap room_id username [] = none
scan_pending heap room_id username ((k, p) ∷ m) =
    if is_pending (heap p)
      && bytes_eq (heap p).auth_room_id room_id
      && bytes_eq (heap p).username username
    then some (k, p)
    else scan_pending heap room_id username m

-- A pending client with the key that it stands under, and whether the scan found it.
pub record Found : Type 0 where
  pub key : RateKey
  pub ref : Ref
  pub by_scan : Bool

-- What the two lookups come to: a pending client, a registered one (whose entry is removed), or none.
pub data Located : Type 0 where
  pending : Found → Located
  mismatch : Ref → Located
  missing : Located

abbrev pub by_scan_or : Located → Option (RateKey × Ref) → Located
by_scan_or other none = other
by_scan_or other (some (k, p)) = pending (record { key = k; ref = p; by_scan = true })

unfoldable pub locate : RateKey → AuthResponsePayload → Room → Located
unfolding scan_pending
locate from_key resp r =
    let scanned = scan_pending r.heap resp.room_id resp.username r.addr_map in
    elim (lookup from_key r.addr_map) [
      | none ↦ by_scan_or missing scanned
      | some p ↦
          if is_pending (r.heap p)
          then pending (record { key = from_key; ref = p; by_scan = false })
          else by_scan_or (mismatch p) scanned
    ]

-- The count of the address goes down, the entry stays.
unfoldable pub reject_response : UdpAddr → Client → CheckResult → Room → Room × List Output
unfolding release_addr send_kick
reject_response from c result r =
    let r' = record r { ip_conn_count = release_addr c.public_addr r.ip_conn_count } in
    elim result [
      | check_room_full ↦ send_kick from kick_room_full r'
      | _ ↦ send_kick from kick_duplicate_name r'
    ]

-- The pending entry goes, and after a scan the object moves to the sender's address.
unfoldable pub take_pending : UdpAddr → Found → Room → Room
unfolding store
take_pending from f r =
    let c = r.heap f.ref in
    let r' = record r { addr_map = erase f.key r.addr_map; pending_auth = r.pending_auth - 1 } in
    if f.by_scan
    then record r' {
      heap = store f.ref (record c { public_addr = some from }) r'.heap;
      addr_map = insert (addr_to_rate_key from) f.ref r'.addr_map;
    }
    else r'

unfoldable pub admit : Env → UdpAddr → Found → Room → Room × List Output
unfolding take_pending do_register_client send_kick
admit env from f r =
    let c = r.heap f.ref in
    let reg : RegisterPayload = record {
      room_id = c.auth_room_id;
      username = c.username;
      version = c.client_version;
    } in
    let (r', registered) = do_register_client env reg from (take_pending from f r) in
    elim registered [
      | none ↦ send_kick from kick_ip_exhausted r'
      | some vip ↦ (
        r',
        send_assign_ip vip from r'
            ∷ sent_peer_info from
            ∷ cache_invalidated
            ∷ marked_dirty
            ∷ peers_broadcast
            ∷ [],
      )
    ]

module _ (crypto : Crypto) where
  -- getAuthKey, whose cache holds what the derivation returned for the room's constant password.
  unfoldable pub get_auth_key : Room → List ℕ → Option (List ℕ)
  get_auth_key r room_id =
      if length r.room_pass == 0 then none else crypto.derive_key r.room_pass room_id

  -- A pending client was found.
  unfoldable pub check_response :
      Env → AuthResponsePayload → UdpAddr → Found → Room → Room × List Output
  unfolding cleanup_pending_auth reject_response admit check_capacity_and_duplicate
  check_response env resp from f r =
      let c = r.heap f.ref in
      let cleaned = cleanup_pending_auth f.key c r in
      if ltb challenge_lifetime (env.now - c.challenge_at)
      then send_kick from kick_auth_timeout cleaned
      else elim (get_auth_key r c.auth_room_id) [
        | none ↦ send_kick from kick_internal_error cleaned
        | some key ↦
            if crypto.verify_hmac key resp.hmac c.challenge resp.room_id resp.username c.public_addr
            then elim (check_capacity_and_duplicate resp.username resp.room_id r) [
              | check_ok ↦ admit env from f r
              | other ↦ reject_response from c other r
            ]
            else send_kick_code from kick_code_wrong_password kick_wrong_password
                (record cleaned { auth_failures = cleaned.auth_failures + 1 })
      ]

  unfoldable pub respond_located :
      Env → AuthResponsePayload → UdpAddr → Room → Located → Room × List Output
  unfolding check_response
  respond_located env resp from r missing = send_kick from kick_auth_abnormal r
  respond_located env resp from r (mismatch p) =
      send_kick from kick_auth_abnormal (cleanup_pending_auth (addr_to_rate_key from) (r.heap p) r)
  respond_located env resp from r (pending f) = check_response env resp from f r

  unfoldable pub handle_auth_response : Env → List ℕ → UdpAddr → Room → Room × List Output
  unfolding respond_located locate
  handle_auth_response env payload from r = elim (unmarshal_auth_response payload) [
    | ok resp ↦
        if length resp.hmac == 32
        then respond_located env resp from r (locate (addr_to_rate_key from) resp r)
        else (r, [])
    | err e ↦ (r, [])
    | panic ↦ (r, [])
  ]
