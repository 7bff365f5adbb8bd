-- ===== src/Server/Room/Seats/Locked.antt =====
-- The whole of handleRegister.
use gametunnel.Base.{
  ℕ, Bool, true, false, not, ◌||◌, List, [], leb, ltb, ◌==◌, if◌then◌else◌, length, Bool-cases,
  Option-cases, inl, inr,
}
use gametunnel.Bytes.{Result, ok, err, panic}
use gametunnel.Net.{UdpAddr, addr_to_rate_key, conn_ip_key}
use gametunnel.Map.{lookup, bytes_key}
use gametunnel.Server.Room.{Room, Env, Output, rate_key}
use gametunnel.Utf8.{rune_count}
use gametunnel.Protocol.Packet.{is_compatible, app_version}
use gametunnel.Protocol.Register.{RegisterPayload, unmarshal_register}
use gametunnel.Server.Room.Helpers.{
  or_zero, resolve_restored_client, increment_ip_conn_count, do_send_auth_challenge,
  check_capacity_and_duplicate, check_reg_rate,
}
use gametunnel.Server.Room.Invariant.{CheckResult-cases}
use gametunnel.Server.Room.Register.{
  drop_stale_auth, register_challenge, register_fresh, register_locked, register_checked,
  handle_register, max_username_len, max_room_id_len,
}
use gametunnel.Server.Room.Seats.{IsSeated}
use gametunnel.Server.Room.Seats.Registering.{
  drop_stale_auth-IsSeated, refresh_client-IsSeated, resolve_restored_client-IsSeated,
  register_open-IsSeated, do_send_auth_challenge-IsSeated,
}

register_challenge-IsSeated :
    (env : Env) (reg : RegisterPayload) (from : UdpAddr) (r : Room)
    → IsSeated r
    → IsSeated (register_challenge env reg from r).0
unfolding register_challenge
register_challenge-IsSeated env reg from r v =
    elim (Bool-cases (leb r.max_pending r.pending_auth)) [
      | inl t ↦ rw t v
      | inr f ↦
          let u = do_send_auth_challenge-IsSeated env reg from r v in
          rw f (elim (Option-cases (do_send_auth_challenge env reg from r).1) [
            | inl e ↦ rw e u
            | inr (c, e) ↦ rw e u
          ])
    ]

register_fresh-IsSeated :
    (env : Env) (reg : RegisterPayload) (from : UdpAddr) (r : Room)
    → IsSeated r
    → IsSeated (register_fresh env reg from r).0
unfolding register_fresh
register_fresh-IsSeated env reg from r v =
    let ip = conn_ip_key from in
    elim (Bool-cases (leb r.max_per_ip (or_zero (lookup ip r.ip_conn_count)))) [
      | inl t ↦ rw t v
      | inr f ↦
          let r' = record r { ip_conn_count = increment_ip_conn_count ip r.ip_conn_count } in
          rw f
            (elim (CheckResult-cases (check_capacity_and_duplicate reg.username reg.room_id r')) [
              | inl e ↦ rw e (elim (Bool-cases (length r.room_pass == 0)) [
                | inl open_room ↦ rw open_room (register_open-IsSeated env reg from r' v)
                | inr locked_room ↦ rw locked_room (register_challenge-IsSeated env reg from r' v)
              ])
              | inr (inl e) ↦ rw e v
              | inr (inr e) ↦ rw e v
            ])
    ]

register_locked-IsSeated :
    (env : Env) (reg : RegisterPayload) (from : UdpAddr) (r : Room)
    → IsSeated r
    → IsSeated (register_locked env reg from r).0
unfolding register_locked
register_locked-IsSeated env reg from r0 v =
    let r = drop_stale_auth from r0 in
    let u = drop_stale_auth-IsSeated from r0 v in
    elim (Option-cases (lookup (addr_to_rate_key from) r.addr_map)) [
      | inr (p, e) ↦ rw (e, register_locked) (refresh_client-IsSeated env reg from p r u)
      | inl e ↦
          let w = resolve_restored_client-IsSeated env reg.username reg.room_id from r u in
          rw (e, register_locked)
            (elim (Option-cases (resolve_restored_client env reg.username reg.room_id from r).1) [
              | inr (p, f) ↦ rw f w
              | inl f ↦ rw f (register_fresh-IsSeated env reg from _ w)
            ])
    ]

if-IsSeated :
    (b : Bool) (x y : Room × List Output)
    → IsSeated x.0
    → IsSeated y.0
    → IsSeated (if b then x else y).0
if-IsSeated true x y h k = h
if-IsSeated false x y h k = k

register_checked-IsSeated :
    (env : Env) (reg : RegisterPayload) (from : UdpAddr) (r : Room)
    → IsSeated r
    → IsSeated (register_checked env reg from r).0
unfolding register_checked
register_checked-IsSeated env reg from r v =
    if-IsSeated (not (is_compatible reg.version app_version)) _ _ v (
      if-IsSeated (rune_count reg.username == 0 || ltb max_username_len (rune_count reg.username)) _
        _ v
        (if-IsSeated (length reg.room_id == 0 || ltb max_room_id_len (length reg.room_id)) _ _ v (
          if-IsSeated (check_reg_rate from r).1 _ _ (register_locked-IsSeated env reg from _ v) v)))

pub handle_register-IsSeated :
    (env : Env) (payload : List ℕ) (from : UdpAddr) (r : Room)
    → IsSeated r
    → IsSeated (handle_register env payload from r).0
unfolding handle_register
handle_register-IsSeated env payload from r v = go (unmarshal_register payload)
  where
    go :
        (res : Result RegisterPayload)
        → IsSeated
            (elim res as (λ _. Room × List Output) [
              | ok reg ↦ register_checked env reg from r
              | err e ↦ (r, [])
              | panic ↦ (r, [])
            ]).0
    go (ok reg) = register_checked-IsSeated env reg from r v
    go (err e) = v
    go panic = v
