-- ===== src/Client/Register/Joining.antt =====
-- What a client knows that has joined a room, and which answers of a server make it join.
use gametunnel.Base.{
  ℕ, ◌+◌, ◌≡◌, refl, true, some, List, [], ◌∷◌, ◌++◌, ltb, ◌==◌, ◌⊎◌, inl, inr, Bool-cases,
  Option-cases, arith, subst,
}
use gametunnel.Bytes.{Result, ok, err, panic}
use gametunnel.Net.{Ip, IpNet, to4}
use gametunnel.Protocol.Packet.{Message, app_version, is_compatible, decode_checked}
use gametunnel.Protocol.AssignIp.{AssignIpPayload, unmarshal_assign_ip}
use gametunnel.Client.Tunnel.{Tunnel, CryptoState}
use gametunnel.Client.Receive.{type_kick}
use gametunnel.Client.Register.{
  Handshake, RegError, RegStep, RegRead, joins, fails, waits, parse_ip_failed, decode_failed,
  cancelled, nothing_read, read_failed, datagram, net_contains, init_ciphers, assigned_net,
  fits_net, joined, assign_checked, handle_assign_ip, handle_reg_response, of_assigned, of_answer,
  register_loop, max_auth_rounds, max_retries, type_assign_ip, type_auth_challenge,
}

-- The client and the server have addresses in the network that it keeps, the versions fit, and there
-- are no peers yet.
pub record IsJoined (t : Tunnel) : Type 0 where
  pub net : IpNet
  pub vip : Ip
  pub kept : t.session.cached_subnet ≡ some net
  pub own : t.session.virtual_ip ≡ some vip
  pub own_inside : net_contains net vip ≡ true
  pub server_inside : net_contains net t.session.server_ip ≡ true
  pub compatible : is_compatible app_version t.session.server_version ≡ true
  pub alone : t.peers ≡ []

fits_net-contains : (net : IpNet) (ip : Ip) → fits_net net ip ≡ true → net_contains net ip ≡ true
unfolding fits_net
fits_net-contains net ip h = elim (Option-cases (to4 ip)) [
  | inl n ↦ ground (arith, n)
  | inr (v, s) ↦ ground (arith, s)
]

joined-IsJoined :
    (a : AssignIpPayload) (c : CryptoState) (t : Tunnel)
    → is_compatible app_version a.version ≡ true
    → fits_net (assigned_net a) a.virtual_ip ≡ true
    → fits_net (assigned_net a) a.server_ip ≡ true
    → IsJoined (joined a c t)
unfolding joined
joined-IsJoined a c t v own server = record {
  net = assigned_net a;
  vip = a.virtual_ip;
  kept = refl;
  own = refl;
  own_inside = fits_net-contains (assigned_net a) a.virtual_ip own;
  server_inside = fits_net-contains (assigned_net a) a.server_ip server;
  compatible = v;
  alone = refl;
}

-- A step that joins leaves a client that has joined.
abbrev Lands : RegStep → Type 0
Lands (joins t) = IsJoined t
Lands (fails e) = Unit {0}
Lands (waits n sent) = Unit {0}

assign_checked-Lands :
    (hs : Handshake) (a : AssignIpPayload) (t : Tunnel)
    → Lands (of_assigned (assign_checked hs a t))
unfolding assign_checked
assign_checked-Lands hs a t = elim (Bool-cases (is_compatible app_version a.version)) [
  | inr v ↦ rw (assign_checked, v) tt
  | inl v ↦ elim (Bool-cases (fits_net (assigned_net a) a.virtual_ip)) [
    | inr o ↦ rw (assign_checked, v, o) tt
    | inl o ↦ elim (Bool-cases (fits_net (assigned_net a) a.server_ip)) [
      | inr s ↦ rw (assign_checked, v, o, s) tt
      | inl s ↦ rw (assign_checked, v, o, s) (made (init_ciphers hs t.session) v o s)
    ]
  ]
]
  where
    made :
        (r : RegError ⊎ CryptoState)
        → is_compatible app_version a.version ≡ true
        → fits_net (assigned_net a) a.virtual_ip ≡ true
        → fits_net (assigned_net a) a.server_ip ≡ true
        → Lands (of_assigned (elim r [ inl e ↦ inl e | inr c ↦ inr (joined a c t) ]))
    made (inl e) v o s = tt
    made (inr c) v o s = joined-IsJoined a c t v o s

handle_assign_ip-Lands :
    (hs : Handshake) (payload : List ℕ) (t : Tunnel)
    → Lands (of_assigned (handle_assign_ip hs payload t))
unfolding handle_assign_ip
handle_assign_ip-Lands hs payload t = decoded (unmarshal_assign_ip payload)
  where
    decoded :
        (r : Result AssignIpPayload)
        → Lands (
            of_assigned (elim r [
              | ok a ↦ assign_checked hs a t
              | err e ↦ inl parse_ip_failed
              | panic ↦ inl parse_ip_failed
            ]))
    decoded (ok a) = assign_checked-Lands hs a t
    decoded (err e) = tt
    decoded panic = tt

of_answer-Lands : (n : ℕ) (r : RegError ⊎ List ℕ) → Lands (of_answer n r)
of_answer-Lands n (inl e) = tt
of_answer-Lands n (inr p) = tt

handle_reg_response-Lands :
    (hs : Handshake) (m : Message) (rounds : ℕ) (t : Tunnel)
    → Lands (handle_reg_response hs m rounds t)
unfolding handle_reg_response
handle_reg_response-Lands hs m rounds t = elim (Bool-cases (m.typ == type_assign_ip)) [
  | inl a ↦ rw (handle_reg_response, a) (handle_assign_ip-Lands hs m.payload t)
  | inr a ↦ elim (Bool-cases (m.typ == type_auth_challenge)) [
    | inl b ↦ elim (Bool-cases (ltb max_auth_rounds (rounds + 1))) [
      | inl c ↦ rw (handle_reg_response, a, b, c) tt
      | inr c ↦ rw (handle_reg_response, a, b, c) (of_answer-Lands _ _)
    ]
    | inr b ↦ elim (Bool-cases (m.typ == type_kick)) [
      | inl c ↦ rw (handle_reg_response, a, b, c) tt
      | inr c ↦ rw (handle_reg_response, a, b, c) tt
    ]
  ]
]

register_loop-Lands :
    (hs : Handshake) (retries rounds : ℕ) (reads : List RegRead) (t : Tunnel)
    → Lands (register_loop hs retries rounds reads t).0
unfolding register_loop
register_loop-Lands hs retries rounds [] t = tt
register_loop-Lands hs retries rounds (cancelled ∷ reads) t = tt
register_loop-Lands hs retries rounds (read_failed ∷ reads) t = tt
register_loop-Lands hs retries rounds (nothing_read ∷ reads) t =
    elim (Bool-cases (ltb max_retries (retries + 1))) [
      | inl l ↦ rw l tt
      | inr l ↦ rw l (register_loop-Lands hs (retries + 1) rounds reads t)
    ]
register_loop-Lands hs retries rounds (datagram bytes ∷ reads) t =
    decoded (λ next. register_loop-Lands hs 0 next reads t) (decode_checked bytes)
  where
    answered :
        ((next : ℕ) → Lands (register_loop hs 0 next reads t).0)
        → (s : RegStep) → Lands s
        → Lands (
            let step : RegStep × List (List ℕ) = elim s [
              | joins t' ↦ (joins t', [])
              | fails e ↦ (fails e, [])
              | waits next sent ↦
                  let rest = register_loop hs 0 next reads t in (rest.0, sent ++ rest.1)
            ] in
            step.0)
    answered later (joins t') h = h
    answered later (fails e) h = tt
    answered later (waits next sent) h = later next

    decoded :
        ((next : ℕ) → Lands (register_loop hs 0 next reads t).0)
        → (r : Result Message)
        → Lands (
            let step : RegStep × List (List ℕ) = elim r [
              | ok m ↦ elim (handle_reg_response hs m rounds t) [
                | joins t' ↦ (joins t', [])
                | fails e ↦ (fails e, [])
                | waits next sent ↦
                    let rest = register_loop hs 0 next reads t in (rest.0, sent ++ rest.1)
              ]
              | err e ↦ (fails decode_failed, [])
              | panic ↦ (fails decode_failed, [])
            ] in
            step.0)
    decoded later (ok m) =
        answered later (handle_reg_response hs m rounds t) (handle_reg_response-Lands hs m rounds t)
    decoded later (err e) = tt
    decoded later panic = tt

-- Whatever the client reads while it registers: when the loop ends with success, its own address and
-- that of the server lie in the network that it keeps, the version of the server is compatible, and no
-- peer is left of an earlier session.
pub register_loop-IsJoined :
    (hs : Handshake) (retries rounds : ℕ) (reads : List RegRead) (t t' : Tunnel)
    → (register_loop hs retries rounds reads t).0 ≡ joins t'
    → IsJoined t'
register_loop-IsJoined hs retries rounds reads t t' h =
    subst Lands h (register_loop-Lands hs retries rounds reads t)
