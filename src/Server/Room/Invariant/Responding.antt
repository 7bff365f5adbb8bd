-- ===== src/Server/Room/Invariant/Responding.antt =====
-- handleAuthResponse keeps the limits of the room.
use gametunnel.Base.{
  ℕ, ◌-◌, ◌<◌, List, [], arith, ltb, ◌==◌, if◌then◌else◌, length, Bool-cases, Option-cases, inl,
  inr,
}
use gametunnel.Bytes.{Result, ok, err, panic}
use gametunnel.Net.{UdpAddr, addr_to_rate_key}
use gametunnel.Map.{bytes_key}
use gametunnel.Server.Room.{
  Room, Client, Env, Crypto, Output, rate_key, kick_ip_exhausted, kick_internal_error,
  kick_room_full, kick_duplicate_name,
}
use gametunnel.Server.Room.Invariant.{
  release-IsWithin, Inv, send_kick_code-Inv, send_kick-Inv, cleanup_pending_auth-Inv, check_ok-lt,
  CheckResult-cases, do_register_client-Inv,
}
use gametunnel.Server.Room.{kick_auth_timeout, kick_auth_abnormal, kick_wrong_password}
use gametunnel.Protocol.Kick.{kick_code_wrong_password}
use gametunnel.Protocol.Register.{RegisterPayload}
use gametunnel.Protocol.Auth.{AuthResponsePayload, unmarshal_auth_response}
use gametunnel.Server.Room.Helpers.{
  CheckResult, check_ok, check_room_full, check_duplicate, check_capacity_and_duplicate,
  do_register_client, release_addr,
}
use gametunnel.Server.Room.Auth.{
  Found, Located, pending, mismatch, missing, locate, reject_response, take_pending, admit,
  get_auth_key, check_response, respond_located, handle_auth_response, challenge_lifetime,
}

reject_response-Inv :
    (from : UdpAddr) (c : Client) (result : CheckResult) (r : Room)
    → Inv r
    → Inv (reject_response from c result r).0
unfolding reject_response
reject_response-Inv from c result r v = rejected result
  where
    released : Inv (record r { ip_conn_count = release_addr c.public_addr r.ip_conn_count })
    released = record {
      capacity = v.capacity;
      within = release-IsWithin r.max_per_ip c.public_addr r.ip_conn_count v.within;
      pending = v.pending;
    }

    rejected : (k : CheckResult) → Inv (reject_response from c k r).0
    rejected check_ok = send_kick-Inv from kick_duplicate_name _ released
    rejected check_room_full = send_kick-Inv from kick_room_full _ released
    rejected check_duplicate = send_kick-Inv from kick_duplicate_name _ released

take_pending-Inv : (from : UdpAddr) (f : Found) (r : Room) → Inv r → Inv (take_pending from f r)
unfolding take_pending
take_pending-Inv from f r v = elim (Bool-cases f.by_scan) [
  | inl t ↦
      rw t (record { capacity = v.capacity; within = v.within; pending = omega (arith, v.pending) })
  | inr t ↦
      rw t (record { capacity = v.capacity; within = v.within; pending = omega (arith, v.pending) })
]

-- Taking the pending entry leaves the clients as they are.
take_pending_clients :
    (from : UdpAddr) (f : Found) (r : Room)
    → length r.clients < r.max_players
    → length (take_pending from f r).clients < (take_pending from f r).max_players
unfolding take_pending
take_pending_clients from f r h = elim (Bool-cases f.by_scan) [ inl t ↦ rw t h | inr t ↦ rw t h ]

admit-Inv :
    (env : Env) (from : UdpAddr) (f : Found) (r : Room)
    → Inv r
    → length r.clients < r.max_players
    → Inv (admit env from f r).0
unfolding admit
admit-Inv env from f r v h =
    let c = r.heap f.ref in
    let reg : RegisterPayload = record {
      room_id = c.auth_room_id;
      username = c.username;
      version = c.client_version;
    } in
    let u =
      do_register_client-Inv env reg from (take_pending from f r) (take_pending-Inv from f r v)
        (take_pending_clients from f r h) in
    elim (Option-cases (do_register_client env reg from (take_pending from f r)).1) [
      | inl e ↦ rw (e, admit) (send_kick-Inv from kick_ip_exhausted _ u)
      | inr (vip, e) ↦ rw (e, admit) u
    ]

check_response-Inv :
    (crypto : Crypto) (env : Env) (resp : AuthResponsePayload) (from : UdpAddr) (f : Found)
    (r : Room)
    → Inv r
    → Inv (check_response crypto env resp from f r).0
unfolding check_response
check_response-Inv crypto env resp from f r v =
    let c = r.heap f.ref in
    let u = cleanup_pending_auth-Inv f.key c r v in
    elim (Bool-cases (ltb challenge_lifetime (env.now - c.challenge_at))) [
      | inl t ↦ rw t (send_kick-Inv from kick_auth_timeout _ u)
      | inr t ↦ rw t (elim (Option-cases (get_auth_key crypto r c.auth_room_id)) [
        | inl e ↦ rw e (send_kick-Inv from kick_internal_error _ u)
        | inr (key, e) ↦
            rw e
              (elim (Bool-cases (
                crypto.verify_hmac key resp.hmac c.challenge resp.room_id resp.username
                  c.public_addr)) [
                    | inr bad ↦ rw bad (
                        send_kick_code-Inv from kick_code_wrong_password kick_wrong_password _
                          (record {
                            capacity = u.capacity;
                            within = u.within;
                            pending = u.pending;
                          }))
                    | inl good ↦
                        rw good
                          (elim (CheckResult-cases
                            (check_capacity_and_duplicate resp.username resp.room_id r)) [
                              | inl k ↦ rw k (admit-Inv env from f r v (check_ok-lt _ _ r k))
                              | inr (inl k) ↦ rw k (reject_response-Inv from c check_room_full r v)
                              | inr (inr k) ↦ rw k (reject_response-Inv from c check_duplicate r v)
                            ])
                  ])
      ])
    ]

responded-Inv :
    (crypto : Crypto) (env : Env) (resp : AuthResponsePayload) (from : UdpAddr) (r : Room)
    → Inv r
    → (l : Located) → Inv (respond_located crypto env resp from r l).0
unfolding respond_located
responded-Inv crypto env resp from r v missing = send_kick-Inv from kick_auth_abnormal r v
responded-Inv crypto env resp from r v (mismatch p) =
    send_kick-Inv from kick_auth_abnormal _ (cleanup_pending_auth-Inv _ (r.heap p) r v)
responded-Inv crypto env resp from r v (pending f) = check_response-Inv crypto env resp from f r v

pub handle_auth_response-Inv :
    (crypto : Crypto) (env : Env) (payload : List ℕ) (from : UdpAddr) (r : Room)
    → Inv r
    → Inv (handle_auth_response crypto env payload from r).0
unfolding handle_auth_response
handle_auth_response-Inv crypto env payload from r v = go (unmarshal_auth_response payload)
  where
    go :
        (res : Result AuthResponsePayload)
        → Inv
            (elim res as (λ _. Room × List Output) [
              | ok resp ↦
                  if length resp.hmac == 32
                  then respond_located crypto env resp from r
                      (locate (addr_to_rate_key from) resp r)
                  else (r, [])
              | err e ↦ (r, [])
              | panic ↦ (r, [])
            ]).0
    go (ok resp) = elim (Bool-cases (length resp.hmac == 32)) [
      | inl t ↦ rw t (responded-Inv crypto env resp from r v _)
      | inr t ↦ rw t v
    ]
    go (err e) = v
    go panic = v
