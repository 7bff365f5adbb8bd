-- ===== src/Server/Room/Seats/Registering.antt =====
-- handleRegister keeps the table of the clients, the map of the addresses and the bitmap together.
use gametunnel.Base.{
  ℕ, ◌≤◌, ◌<◌, ◌≡◌, refl, ap, sym, ◌∙◌, true, false, none, some, List, [], ◌∷◌, arith, leb,
  Bool-cases, Option-cases, inl, inr,
}
use gametunnel.Net.{Ip, UdpAddr, addr_to_rate_key, conn_ip_key, ip_key, ipv4}
use gametunnel.Map.{
  Map, lookup-insert_ne, beq_of_ne, lookup, bytes_key, lookup-insert_self, Distinct, lookup-tail,
  lookup-head,
}
use gametunnel.Server.Bitmap.{next_available, mark_ip_used, is_used}
use gametunnel.Server.Bitmap.Scan.{next_available-some}
use gametunnel.Server.Room.{Room, Client, Ref, Env, rate_key, is_pending}
use gametunnel.Protocol.Register.{RegisterPayload}
use gametunnel.Server.Room.Helpers.{
  or_zero, find_placeholder, is_placeholder, resolve_restored_client, increment_ip_conn_count,
  do_register_client, do_send_auth_challenge, add_client, new_client, attach, pending_client,
}
use gametunnel.Server.Room.Register.{drop_stale_auth, refresh_client, register_open}
use gametunnel.Server.Room.Seats.{IsSeated}
use gametunnel.Server.Room.Seats.Moves.{
  store-Table, allocate-Table, unlist-Table, list-Table, store_self, no_entry_none,
}
use gametunnel.Server.Room.Seats.Seating.{
  none_ne_some, free-lookup, seat-Table, readdress-Table, unmark-Table, true_ne_false,
}

pub drop_stale_auth-IsSeated :
    (from : UdpAddr) (r : Room) → IsSeated r → IsSeated (drop_stale_auth from r)
unfolding drop_stale_auth
drop_stale_auth-IsSeated from r v =
    elim (Option-cases (lookup (addr_to_rate_key from) r.addr_map)) [
      | inl e ↦ rw (e, drop_stale_auth) v
      | inr (p, e) ↦
          rw (e, drop_stale_auth)
            (elim (Bool-cases (is_pending (r.heap p))) [
              | inl t ↦ rw t (unlist-Table v (addr_to_rate_key from))
              | inr f ↦ rw f v
            ])
    ]

pub refresh_client-IsSeated :
    (env : Env) (reg : RegisterPayload) (from : UdpAddr) (p : Ref) (r : Room)
    → IsSeated r
    → IsSeated (refresh_client env reg from p r).0
unfolding refresh_client
refresh_client-IsSeated env reg from p r v =
    store-Table v p (record (r.heap p) { last_seen = env.now; client_version = reg.version })
      (record { same_vip = refl; same_state = refl; same_addr = λ _. refl })

-- A placeholder stands in the table, is registered, and has no address.
find_placeholder-some :
    (heap : Ref → Client) (username room_id : List ℕ) (m : Map (List ℕ) Ref) (p : Ref)
    → Distinct m
    → find_placeholder heap username room_id m ≡ some p
    → ((k : List ℕ) × (lookup k m ≡ some p)) × (is_placeholder username room_id (heap p) ≡ true)
unfolding find_placeholder
find_placeholder-some heap username room_id [] p d h = absurd (let q : none ≡ some p = h in cc)
find_placeholder-some heap username room_id ((k, q) ∷ m) p d h =
    elim (Bool-cases (is_placeholder username room_id (heap q))) [
      | inl t ↦
          let e : some q ≡ some p = (rw t at h) in
          let f : q ≡ p = cc in
          ((k, ap (λ x. lookup k ((k, x) ∷ m)) f ∙ lookup-head k p m), rw f at t)
      | inr f ↦
          let ((l, e), g) = find_placeholder-some heap username room_id m p d.1 (rw f at h) in
          ((l, lookup-tail k l q p m d e), g)
    ]

placeholder-registered :
    (username room_id : List ℕ) (c : Client)
    → is_placeholder username room_id c ≡ true
    → (c.public_addr ≡ none) × (is_pending c ≡ false)
placeholder-registered username room_id c h = elim (Option-cases c.public_addr) [
  | inl e ↦ (e, ground (arith, rw e at h))
  | inr (a, e) ↦ absurd (let q : false ≡ true = (rw e at h) in cc)
]

attach-IsSeated :
    (env : Env) (from : UdpAddr) (k : List ℕ) (p : Ref) (r : Room)
    → lookup k r.clients ≡ some p
    → (r.heap p).public_addr ≡ none
    → IsSeated r
    → IsSeated (attach env from p r)
unfolding attach
attach-IsSeated env from k p r found no_addr v =
    let (small, s) = v.seats k p found in
    readdress-Table v p (record (r.heap p) { public_addr = some from; last_seen = env.now })
      (addr_to_rate_key from) small (no_entry_none v p s.settled no_addr) refl refl
      (λ settled. ((from, refl, refl), ap (λ x. lookup x r.clients) (sym s.key) ∙ found))

pub resolve_restored_client-IsSeated :
    (env : Env) (username room_id : List ℕ) (from : UdpAddr) (r : Room)
    → IsSeated r
    → IsSeated (resolve_restored_client env username room_id from r).0
unfolding resolve_restored_client
resolve_restored_client-IsSeated env username room_id from r v =
    let ip = conn_ip_key from in
    elim (Bool-cases (leb r.max_per_ip (or_zero (lookup ip r.ip_conn_count)))) [
      | inl t ↦ rw t v
      | inr f ↦ rw f (elim (Option-cases (find_placeholder r.heap username room_id r.clients)) [
        | inl e ↦ rw e v
        | inr (p, e) ↦
            let ((k, found), held) =
              find_placeholder-some r.heap username room_id r.clients p v.clients_distinct e in
            let (no_addr, settled) = placeholder-registered username room_id (r.heap p) held in
            rw e (
              attach-IsSeated env from k p
                (record r { ip_conn_count = increment_ip_conn_count ip r.ip_conn_count }) found
                no_addr v)
      ])
    ]

-- The new client is at a free address of the pool, and its sender's address points to it.
add_client-IsSeated :
    (env : Env) (reg : RegisterPayload) (from : UdpAddr) (octet : ℕ) (token : List ℕ) (r : Room)
    → is_used r.ip_bitmap octet ≡ false
    → 2 ≤ octet
    → octet < 255
    → IsSeated r
    → let vip = ipv4 r.subnet.b0 r.subnet.b1 r.subnet.b2 octet in
      IsSeated (
        add_client env from vip
          (new_client env reg from vip token)
          (record r { ip_bitmap = mark_ip_used octet r.ip_bitmap }))
unfolding add_client
add_client-IsSeated env reg from octet token r free low high v =
    let vip = ipv4 r.subnet.b0 r.subnet.b1 r.subnet.b2 octet in
    let c = new_client env reg from vip token in
    list-Table (seat-Table v octet c free low high refl refl) (addr_to_rate_key from) r.next_ref
      (omega arith)
      (rw (store_self r.next_ref c r.heap)
        (λ settled. ((from, refl, refl), lookup-insert_self (ip_key vip) r.next_ref r.clients)))

pub do_register_client-IsSeated :
    (env : Env) (reg : RegisterPayload) (from : UdpAddr) (r : Room)
    → IsSeated r
    → IsSeated (do_register_client env reg from r).0
unfolding do_register_client
do_register_client-IsSeated env reg from r v = elim (Option-cases (next_available r.ip_bitmap)) [
  | inl e ↦ rw (e, do_register_client) v
  | inr (octet, e) ↦
      let (low, high, free, least) = next_available-some r.ip_bitmap octet v.shaped e in
      rw (e, do_register_client)
        (elim (Option-cases env.new_token) [
          | inl f ↦ rw f (unmark-Table v octet free high)
          | inr (token, f) ↦ rw f (add_client-IsSeated env reg from octet token r free low high v)
        ])
]

-- The address that is handed out is free, the new client stands there, and nobody loses its place.
pub do_register_client-fresh :
    (env : Env) (reg : RegisterPayload) (from : UdpAddr) (r : Room) (vip : Ip)
    → IsSeated r
    → (do_register_client env reg from r).1 ≡ some vip
    → (lookup (ip_key vip) r.clients ≡ none)
      × (lookup (ip_key vip) (do_register_client env reg from r).0.clients ≡ some r.next_ref)
      × ((k : List ℕ) (p : Ref)
          → lookup k r.clients ≡ some p
          → lookup k (do_register_client env reg from r).0.clients ≡ some p)
unfolding do_register_client add_client
do_register_client-fresh env reg from r vip v h = elim (Option-cases (next_available r.ip_bitmap)) [
  | inl e ↦ absurd (none_ne_some (rw (do_register_client, e) at h))
  | inr (octet, e) ↦ elim (Option-cases env.new_token) [
    | inl f ↦ absurd (none_ne_some (rw (do_register_client, e, f) at h))
    | inr (token, f) ↦
        let (low, high, free, least) = next_available-some r.ip_bitmap octet v.shaped e in
        let given : ipv4 r.subnet.b0 r.subnet.b1 r.subnet.b2 octet ≡ vip =
          let q : some (ipv4 r.subnet.b0 r.subnet.b1 r.subnet.b2 octet) ≡ some vip =
            (rw (do_register_client, e, f) at h) in
          cc in
        let nobody : lookup (ip_key vip) r.clients ≡ none =
          ap (λ i. lookup (ip_key i) r.clients) (sym given) ∙ free-lookup v octet free in
        (
          nobody,
          rw (do_register_client, e, f, given)
              (lookup-insert_self (ip_key vip) r.next_ref r.clients),
          λ k p l.
              rw (do_register_client, e, f, given)
                (lookup-insert_ne (ip_key vip) k r.next_ref r.clients (
                    beq_of_ne (ip_key vip) k λ same.
                      absurd (none_ne_some (sym nobody ∙ ap (λ i. lookup i r.clients) same ∙ l)))
                  ∙ l),
        )
  ]
]

pub register_open-IsSeated :
    (env : Env) (reg : RegisterPayload) (from : UdpAddr) (r : Room)
    → IsSeated r
    → IsSeated (register_open env reg from r).0
unfolding register_open
register_open-IsSeated env reg from r v =
    let u = do_register_client-IsSeated env reg from r v in
    elim (Option-cases (do_register_client env reg from r).1) [
      | inl e ↦ rw (e, register_open) u
      | inr (vip, e) ↦ rw (e, register_open) u
    ]

pub do_send_auth_challenge-IsSeated :
    (env : Env) (reg : RegisterPayload) (from : UdpAddr) (r : Room)
    → IsSeated r
    → IsSeated (do_send_auth_challenge env reg from r).0
unfolding do_send_auth_challenge
do_send_auth_challenge-IsSeated env reg from r v = elim (Option-cases env.new_challenge) [
  | inl e ↦ rw e v
  | inr (challenge, e) ↦
      let c = pending_client env reg from challenge in
      rw e (
        list-Table (allocate-Table v c) (addr_to_rate_key from) r.next_ref (omega arith)
          (rw (store_self r.next_ref c r.heap) λ settled. absurd (true_ne_false settled)))
]
