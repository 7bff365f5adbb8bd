-- ===== src/Server/Room/Invariant/Registering.antt =====
-- handleRegister keeps the limits of the room.
use gametunnel.Base.{
  ℕ, ◌<◌, ◌≡◌, Bool, true, false, not, ◌||◌, List, [], arith, leb, ltb, ◌==◌, if◌then◌else◌, length,
  Bool-cases, Option-cases, inl, inr,
}
use gametunnel.Bytes.{Result, ok, err, panic}
use gametunnel.Net.{UdpAddr, addr_to_rate_key, conn_ip_key}
use gametunnel.Map.{lookup, bytes_key}
use gametunnel.Server.Room.{
  Room, Ref, Env, Output, KickReason, rate_key, is_pending, kick_ip_exhausted, kick_server_busy,
  kick_internal_error, kick_version_mismatch, kick_invalid_name, kick_invalid_room, kick_rate_limit,
  kick_ip_limit, kick_room_full, kick_duplicate_name,
}
use gametunnel.Protocol.Kick.{kick_code_version_mismatch}
use gametunnel.Server.Room.Invariant.{
  decrement-IsWithin, increment-IsWithin, Inv, send_kick_code-Inv, send_kick-Inv,
  cleanup_pending_auth-Inv, check_reg_rate-Inv, check_ok-lt, CheckResult-cases,
  do_register_client-Inv,
}
use gametunnel.Utf8.{rune_count}
use gametunnel.Protocol.Packet.{is_compatible, app_version}
use gametunnel.Protocol.Register.{RegisterPayload, unmarshal_register}
use gametunnel.Server.Room.Helpers.{
  or_zero, find_placeholder, resolve_restored_client, increment_ip_conn_count, do_register_client,
  do_send_auth_challenge, check_capacity_and_duplicate, check_reg_rate,
}
use gametunnel.Server.Room.Register.{
  drop_stale_auth, refresh_client, refuse, register_open, register_challenge, register_fresh,
  register_locked, register_checked, handle_register, max_username_len, max_room_id_len,
}

drop_stale_auth-Inv : (from : UdpAddr) (r : Room) → Inv r → Inv (drop_stale_auth from r)
unfolding drop_stale_auth
drop_stale_auth-Inv from r v = elim (Option-cases (lookup (addr_to_rate_key from) r.addr_map)) [
  | inl e ↦ rw (e, drop_stale_auth) v
  | inr (p, e) ↦
      rw (e, drop_stale_auth)
        (elim (Bool-cases (is_pending (r.heap p))) [
          | inl t ↦ rw t (cleanup_pending_auth-Inv (addr_to_rate_key from) (r.heap p) r v)
          | inr f ↦ rw f v
        ])
]

refresh_client-Inv :
    (env : Env) (reg : RegisterPayload) (from : UdpAddr) (p : Ref) (r : Room)
    → Inv r
    → Inv (refresh_client env reg from p r).0
unfolding refresh_client
refresh_client-Inv env reg from p r v = record {
  capacity = v.capacity;
  within = v.within;
  pending = v.pending;
}

refuse-Inv :
    (from : UdpAddr) (reason : KickReason) (r : Room) → Inv r → Inv (refuse from reason r).0
unfolding refuse
refuse-Inv from reason r v = record {
  capacity = v.capacity;
  within = decrement-IsWithin r.max_per_ip (conn_ip_key from) r.ip_conn_count v.within;
  pending = v.pending;
}

counted-Inv :
    (ip : List ℕ) (r : Room)
    → leb r.max_per_ip (or_zero (lookup ip r.ip_conn_count)) ≡ false
    → Inv r
    → Inv (record r { ip_conn_count = increment_ip_conn_count ip r.ip_conn_count })
counted-Inv ip r l v = record {
  capacity = v.capacity;
  within = increment-IsWithin r.max_per_ip ip r.ip_conn_count l v.within;
  pending = v.pending;
}

resolve_restored_client-Inv :
    (env : Env) (username room_id : List ℕ) (from : UdpAddr) (r : Room)
    → Inv r
    → Inv (resolve_restored_client env username room_id from r).0
unfolding resolve_restored_client
resolve_restored_client-Inv env username room_id from r v =
    let ip = conn_ip_key from in
    elim (Bool-cases (leb r.max_per_ip (or_zero (lookup ip r.ip_conn_count)))) [
      | inl t ↦ rw t v
      | inr f ↦
          let u = counted-Inv ip r f v in
          rw f (elim (Option-cases (find_placeholder r.heap username room_id r.clients)) [
            | inl e ↦ rw e (record {
              capacity = u.capacity;
              within = decrement-IsWithin r.max_per_ip ip _ u.within;
              pending = u.pending;
            })
            | inr (p, e) ↦
                rw e (record { capacity = u.capacity; within = u.within; pending = u.pending })
          ])
    ]

register_open-Inv :
    (env : Env) (reg : RegisterPayload) (from : UdpAddr) (r : Room)
    → Inv r
    → length r.clients < r.max_players
    → Inv (register_open env reg from r).0
unfolding register_open
register_open-Inv env reg from r v h =
    let u = do_register_client-Inv env reg from r v h in
    elim (Option-cases (do_register_client env reg from r).1) [
      | inl e ↦ rw (e, register_open) (send_kick-Inv from kick_ip_exhausted _ u)
      | inr (vip, e) ↦ rw (e, register_open) u
    ]

do_send_auth_challenge-Inv :
    (env : Env) (reg : RegisterPayload) (from : UdpAddr) (r : Room)
    → Inv r
    → r.pending_auth < r.max_pending
    → Inv (do_send_auth_challenge env reg from r).0
unfolding do_send_auth_challenge
do_send_auth_challenge-Inv env reg from r v h = elim (Option-cases env.new_challenge) [
  | inl e ↦ rw e v
  | inr (c, e) ↦
      rw e (record { capacity = v.capacity; within = v.within; pending = omega (arith, h) })
]

register_challenge-Inv :
    (env : Env) (reg : RegisterPayload) (from : UdpAddr) (r : Room)
    → Inv r
    → Inv (register_challenge env reg from r).0
unfolding register_challenge
register_challenge-Inv env reg from r v = elim (Bool-cases (leb r.max_pending r.pending_auth)) [
  | inl t ↦ rw t (refuse-Inv from kick_server_busy r v)
  | inr f ↦
      let u = do_send_auth_challenge-Inv env reg from r v (ground arith) in
      rw f (elim (Option-cases (do_send_auth_challenge env reg from r).1) [
        | inl e ↦ rw e (refuse-Inv from kick_internal_error _ u)
        | inr (c, e) ↦ rw e u
      ])
]

register_fresh-Inv :
    (env : Env) (reg : RegisterPayload) (from : UdpAddr) (r : Room)
    → Inv r
    → Inv (register_fresh env reg from r).0
unfolding register_fresh
register_fresh-Inv env reg from r v =
    let ip = conn_ip_key from in
    elim (Bool-cases (leb r.max_per_ip (or_zero (lookup ip r.ip_conn_count)))) [
      | inl t ↦ rw t (send_kick-Inv from kick_ip_limit r v)
      | inr f ↦
          let r' = record r { ip_conn_count = increment_ip_conn_count ip r.ip_conn_count } in
          let u = counted-Inv ip r f v in
          rw f
            (elim (CheckResult-cases (check_capacity_and_duplicate reg.username reg.room_id r')) [
              | inl e ↦ rw e (elim (Bool-cases (length r.room_pass == 0)) [
                | inl open_room ↦
                    rw open_room (register_open-Inv env reg from r' u (check_ok-lt _ _ r' e))
                | inr locked_room ↦ rw locked_room (register_challenge-Inv env reg from r' u)
              ])
              | inr (inl e) ↦ rw e (refuse-Inv from kick_room_full r' u)
              | inr (inr e) ↦ rw e (refuse-Inv from kick_duplicate_name r' u)
            ])
    ]

register_locked-Inv :
    (env : Env) (reg : RegisterPayload) (from : UdpAddr) (r : Room)
    → Inv r
    → Inv (register_locked env reg from r).0
unfolding register_locked
register_locked-Inv env reg from r0 v =
    let r = drop_stale_auth from r0 in
    let u = drop_stale_auth-Inv from r0 v in
    elim (Option-cases (lookup (addr_to_rate_key from) r.addr_map)) [
      | inr (p, e) ↦ rw (e, register_locked) (refresh_client-Inv env reg from p r u)
      | inl e ↦
          let w = resolve_restored_client-Inv env reg.username reg.room_id from r u in
          rw (e, register_locked)
            (elim (Option-cases (resolve_restored_client env reg.username reg.room_id from r).1) [
              | inr (p, f) ↦ rw f w
              | inl f ↦ rw f (register_fresh-Inv env reg from _ w)
            ])
    ]

if-Inv : (b : Bool) (x y : Room × List Output) → Inv x.0 → Inv y.0 → Inv (if b then x else y).0
if-Inv true x y h k = h
if-Inv false x y h k = k

register_checked-Inv :
    (env : Env) (reg : RegisterPayload) (from : UdpAddr) (r : Room)
    → Inv r
    → Inv (register_checked env reg from r).0
unfolding register_checked
register_checked-Inv env reg from r v =
    let counted = check_reg_rate-Inv from r v in
    if-Inv (not (is_compatible reg.version app_version)) _ _
      (send_kick_code-Inv from kick_code_version_mismatch kick_version_mismatch r v)
      (if-Inv (rune_count reg.username == 0 || ltb max_username_len (rune_count reg.username)) _ _
        (send_kick-Inv from kick_invalid_name r v)
        (if-Inv (length reg.room_id == 0 || ltb max_room_id_len (length reg.room_id)) _ _
          (send_kick-Inv from kick_invalid_room r v)
          (if-Inv (check_reg_rate from r).1 _ _ (register_locked-Inv env reg from _ counted)
            (send_kick-Inv from kick_rate_limit _ counted))))

pub handle_register-Inv :
    (env : Env) (payload : List ℕ) (from : UdpAddr) (r : Room)
    → Inv r
    → Inv (handle_register env payload from r).0
unfolding handle_register
handle_register-Inv env payload from r v = go (unmarshal_register payload)
  where
    go :
        (res : Result RegisterPayload)
        → Inv
            (elim res as (λ _. Room × List Output) [
              | ok reg ↦ register_checked env reg from r
              | err e ↦ (r, [])
              | panic ↦ (r, [])
            ]).0
    go (ok reg) = register_checked-Inv env reg from r v
    go (err e) = v
    go panic = v
