-- ===== src/Server/Room/Admission.antt =====
-- Who comes to be a client of a room: the password, and the clients restored from disk.
use gametunnel.Base.{
  ap, ℕ, ◌≡◌, refl, ◌∙◌, ◌≢◌, Bool, true, false, not, ◌||◌, none, some, List, [], arith, leb, ltb,
  ◌==◌, if◌then◌else◌, length, Option-cases, inl, inr,
}
use gametunnel.Bytes.{Result, ok, err, panic}
use gametunnel.Net.{UdpAddr, addr_to_rate_key, conn_ip_key}
use gametunnel.Map.{Map, lookup, bytes_key, lookup-insert_self}
use gametunnel.Protocol.Packet.{is_compatible, app_version}
use gametunnel.Utf8.{rune_count}
use gametunnel.Protocol.Register.{RegisterPayload, unmarshal_register}
use gametunnel.Server.Room.{Room, Ref, Env, Output, rate_key}
use gametunnel.Server.Room.Helpers.{
  or_zero, store, attach, find_placeholder, resolve_restored_client, increment_ip_conn_count,
  send_kick, send_kick_code, check_reg_rate,
}
use gametunnel.Server.Room.Register.{
  drop_stale_auth, refresh_client, register_challenge, register_fresh, register_locked,
  register_checked, handle_register, max_username_len, max_room_id_len,
}

drop_stale_auth_clients :
    (from : UdpAddr) (r : Room)
    → ((drop_stale_auth from r).clients ≡ r.clients)
      × ((drop_stale_auth from r).room_pass ≡ r.room_pass)
unfolding drop_stale_auth
drop_stale_auth_clients from r = ground arith

register_challenge_clients :
    (env : Env) (reg : RegisterPayload) (from : UdpAddr) (r : Room)
    → (register_challenge env reg from r).0.clients ≡ r.clients
unfolding register_challenge
register_challenge_clients env reg from r = ground arith

resolve_restored_client_clients :
    (env : Env) (username room_id : List ℕ) (from : UdpAddr) (r : Room)
    → ((resolve_restored_client env username room_id from r).0.clients ≡ r.clients)
      × ((resolve_restored_client env username room_id from r).0.room_pass ≡ r.room_pass)
unfolding resolve_restored_client
resolve_restored_client_clients env username room_id from r = ground arith

register_fresh_clients :
    (env : Env) (reg : RegisterPayload) (from : UdpAddr) (r : Room)
    → length r.room_pass ≢ 0
    → (register_fresh env reg from r).0.clients ≡ r.clients
unfolding register_fresh
register_fresh_clients env reg from r h = ground (
  arith,
  register_challenge_clients env reg from
      (record r { ip_conn_count = increment_ip_conn_count (conn_ip_key from) r.ip_conn_count }),
)

register_locked_clients :
    (env : Env) (reg : RegisterPayload) (from : UdpAddr) (r : Room)
    → length r.room_pass ≢ 0
    → (register_locked env reg from r).0.clients ≡ r.clients
unfolding register_locked refresh_client
register_locked_clients env reg from r0 h =
    let r = drop_stale_auth from r0 in
    let (same, pass) = drop_stale_auth_clients from r0 in
    elim (Option-cases (lookup (addr_to_rate_key from) r.addr_map)) [
      | inr (p, e) ↦ rw (e, register_locked) same
      | inl e ↦
          let (kept, kept_pass) =
            resolve_restored_client_clients env reg.username reg.room_id from r in
          let r' = (resolve_restored_client env reg.username reg.room_id from r).0 in
          let h' : length r'.room_pass ≢ 0 = rw (kept_pass, pass) h in
          rw (e, register_locked)
            (elim (Option-cases (resolve_restored_client env reg.username reg.room_id from r).1) [
              | inr (p, f) ↦ rw f (kept ∙ same)
              | inl f ↦ rw f (register_fresh_clients env reg from r' h' ∙ kept ∙ same)
            ])
    ]

if_clients :
    {m : Map (List ℕ) Ref} (b : Bool) (x y : Room × List Output)
    → x.0.clients ≡ m
    → y.0.clients ≡ m
    → (if b then x else y).0.clients ≡ m
if_clients true x y h k = h
if_clients false x y h k = k

register_checked_clients :
    (env : Env) (reg : RegisterPayload) (from : UdpAddr) (r : Room)
    → length r.room_pass ≢ 0
    → (register_checked env reg from r).0.clients ≡ r.clients
unfolding register_checked send_kick send_kick_code check_reg_rate
register_checked_clients env reg from r h =
    if_clients (not (is_compatible reg.version app_version)) _ _ refl (
      if_clients (rune_count reg.username == 0 || ltb max_username_len (rune_count reg.username)) _
        _ refl
        (if_clients (length reg.room_id == 0 || ltb max_room_id_len (length reg.room_id)) _ _ refl (
          if_clients (check_reg_rate from r).1 _ _
            (register_locked_clients env reg from (check_reg_rate from r).0 h) refl)))

-- In a room with a password, no registration message, well formed or not, changes the table of
-- clients, that is, which address inside the network belongs to which client.
pub handle_register-password_room :
    (env : Env) (payload : List ℕ) (from : UdpAddr) (r : Room)
    → length r.room_pass ≢ 0
    → (handle_register env payload from r).0.clients ≡ r.clients
unfolding handle_register
handle_register-password_room env payload from r h = go (unmarshal_register payload)
  where
    go :
        (res : Result RegisterPayload)
        → (elim res as (λ _. Room × List Output) [
          | ok reg ↦ register_checked env reg from r
          | err e ↦ (r, [])
          | panic ↦ (r, [])
        ]).0.clients
          ≡ r.clients
    go (ok reg) = register_checked_clients env reg from r h
    go (err e) = refl
    go panic = refl

drop_stale_auth-none :
    (from : UdpAddr) (r : Room)
    → lookup (addr_to_rate_key from) r.addr_map ≡ none
    → drop_stale_auth from r ≡ r
unfolding drop_stale_auth
drop_stale_auth-none from r h = rw (h, drop_stale_auth) refl

register_locked_found :
    (env : Env) (reg : RegisterPayload) (from : UdpAddr) (p : Ref) (r s : Room)
    → lookup (addr_to_rate_key from) (drop_stale_auth from r).addr_map ≡ none
    → resolve_restored_client env reg.username reg.room_id from (drop_stale_auth from r)
      ≡ (s, some p)
    → (register_locked env reg from r).0 ≡ s
unfolding register_locked
register_locked_found env reg from p r s h e = rw (h, register_locked, e) (ap (λ x. x.0) e)

resolve_restored_client_found :
    (env : Env) (username room_id : List ℕ) (from : UdpAddr) (p : Ref) (r : Room)
    → leb r.max_per_ip (or_zero (lookup (conn_ip_key from) r.ip_conn_count)) ≡ false
    → find_placeholder r.heap username room_id r.clients ≡ some p
    → resolve_restored_client env username room_id from r ≡ (
      attach env from p
          (record r { ip_conn_count = increment_ip_conn_count (conn_ip_key from) r.ip_conn_count }),
      some p,
    )
unfolding resolve_restored_client
resolve_restored_client_found env username room_id from p r l f = rw (l, f) refl

-- A registration with the name and the room of a client restored from disk takes that client over,
-- whatever the password of the room: when the sender holds no entry of the address map, its address
-- is below the limit and the restored client is the first of that name and room, the entry of the
-- sender becomes the restored client, and that client gets the address of the sender.
pub register_locked-restored :
    (env : Env) (reg : RegisterPayload) (from : UdpAddr) (p : Ref) (r : Room)
    → lookup (addr_to_rate_key from) r.addr_map ≡ none
    → leb r.max_per_ip (or_zero (lookup (conn_ip_key from) r.ip_conn_count)) ≡ false
    → find_placeholder r.heap reg.username reg.room_id r.clients ≡ some p
    → (lookup (addr_to_rate_key from) (register_locked env reg from r).0.addr_map ≡ some p)
      × (((register_locked env reg from r).0.heap p).public_addr ≡ some from)
unfolding attach store
register_locked-restored env reg from p r h l f =
    rw
      (register_locked_found env reg from p r
        (attach env from p
          (record r { ip_conn_count = increment_ip_conn_count (conn_ip_key from) r.ip_conn_count }))
        (rw (drop_stale_auth-none from r h) h)
        (rw (drop_stale_auth-none from r h)
          (resolve_restored_client_found env reg.username reg.room_id from p r l f)))
      (lookup-insert_self (addr_to_rate_key from) p r.addr_map, ground arith)
