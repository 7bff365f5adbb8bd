-- ===== src/Server/Room/Seats/Leaving.antt =====
-- Keepalives, disconnects and the cleanup keep the table, the map of the addresses and the bitmap
-- together.
use gametunnel.Base.{
  ℕ, ◌-◌, ◌≡◌, refl, ap, ◌∙◌, Bool, false, ◌&&◌, Option, none, some, List, [], ◌∷◌, All, arith, ltb,
  ◌==◌, Bool-cases, Option-cases, inl, inr,
}
use gametunnel.Net.{Ip, UdpAddr, RateKey, addr_to_rate_key, ip_key, ipv4, to4}
use gametunnel.Map.{Map, lookup, erase, bytes_key}
use gametunnel.Server.Room.{Room, Client, Ref, Env, rate_key, is_pending}
use gametunnel.Server.Room.Lifecycle.{
  handle_keep_alive, free_vip, leave, handle_disconnect, StaleClient, StaleAuth, stale_clients,
  stale_auths, forget_addr, sweep_client, sweep_auth, sweep_clients, sweep_auths, cleanup_stale,
  last_octet, stale_after,
}
use gametunnel.Server.Room.Seats.{Seat, Table, IsSeated}
use gametunnel.Server.Room.Seats.Moves.{
  Agrees, store-Table, unlist-Table, vacate-Table, no_entry, no_entry_none,
}

abbrev seen : Env → List ℕ → Client → Client
seen env payload c =
    let c' = record c { last_seen = env.now } in
    elim payload [ [] ↦ c' | b ∷ bs ↦ record c' { nat_type = b } ]

seen-Agrees : (env : Env) (payload : List ℕ) (c : Client) → Agrees c (seen env payload c)
seen-Agrees env [] c = record { same_vip = refl; same_state = refl; same_addr = λ _. refl }
seen-Agrees env (b ∷ bs) c = record { same_vip = refl; same_state = refl; same_addr = λ _. refl }

pub handle_keep_alive-IsSeated :
    (env : Env) (payload : List ℕ) (from : UdpAddr) (r : Room)
    → IsSeated r
    → IsSeated (handle_keep_alive env payload from r)
unfolding handle_keep_alive
handle_keep_alive-IsSeated env payload from r v =
    elim (Option-cases (lookup (addr_to_rate_key from) r.addr_map)) [
      | inl e ↦ rw (e, handle_keep_alive) v
      | inr (p, e) ↦
          rw (e, handle_keep_alive)
            (store-Table v p (seen env payload (r.heap p)) (seen-Agrees env payload (r.heap p)))
    ]

-- The last byte of an address of the subnet.
last_octet-ipv4 : (a b c d : ℕ) → last_octet (ipv4 a b c d) ≡ some d
unfolding last_octet ipv4 to4
last_octet-ipv4 a b c d = refl

-- A client without an entry leaves the table, and gives its address back; the entry is erased first
-- here, and last in the code.
depart-IsSeated :
    (k : List ℕ) (p : Ref) (f : Map RateKey Ref → Map RateKey Ref) (r : Room)
    → lookup k r.clients ≡ some p
    → Table r.subnet r.ip_bitmap r.heap r.next_ref r.clients (f r.addr_map)
    → ((j : RateKey) → lookup j (f r.addr_map) ≡ some p → ⊥)
    → let freed = free_vip (r.heap p).virtual_ip r in
      IsSeated (record freed { clients = erase k freed.clients; addr_map = f freed.addr_map })
unfolding free_vip
depart-IsSeated k p f r found v gone =
    let s : Seat r.subnet r.ip_bitmap (r.heap p) k = (v.seats k p found).1 in
    let e : last_octet (r.heap p).virtual_ip ≡ some s.octet =
      ap last_octet s.vip ∙ last_octet-ipv4 r.subnet.b0 r.subnet.b1 r.subnet.b2 s.octet in
    rw (e, free_vip) (vacate-Table v k p s.octet found s.vip s.low s.high gone)

pub handle_disconnect-IsSeated :
    (env : Env) (from : UdpAddr) (r : Room) → IsSeated r → IsSeated (handle_disconnect env from r).0
unfolding handle_disconnect leave
handle_disconnect-IsSeated env from r v =
    let k = addr_to_rate_key from in
    elim (Option-cases (lookup k r.addr_map)) [
      | inl e ↦ rw (e, handle_disconnect) v
      | inr (p, e) ↦ elim (Bool-cases (is_pending (r.heap p))) [
        | inl t ↦ rw (e, handle_disconnect, t, leave) (unlist-Table v k)
        | inr t ↦
            let ((a, f, g), found) = (v.entries k p e).1 t in
            rw (e, handle_disconnect, t, leave)
              (depart-IsSeated (ip_key (r.heap p).virtual_ip) p (erase k)
                (record r { last_activity = env.now }) found (unlist-Table v k)
                (rw g at (no_entry v p a t f)))
      ]
    ]

-- The client of the table that is removed under its noted address, which is its address.
forget_addr-IsSeated :
    (k : List ℕ) (p : Ref) (addr : Option UdpAddr) (r : Room)
    → lookup k r.clients ≡ some p
    → (r.heap p).public_addr ≡ addr
    → IsSeated r
    → let freed = free_vip (r.heap p).virtual_ip r in
      IsSeated (forget_addr addr addr (record freed { clients = erase k freed.clients }))
unfolding forget_addr
forget_addr-IsSeated k p none r found e v =
    depart-IsSeated k p (λ m. m) r found v (no_entry_none v p (v.seats k p found).1.settled e)
forget_addr-IsSeated k p (some a) r found e v =
    depart-IsSeated k p (erase (addr_to_rate_key a)) r found (unlist-Table v (addr_to_rate_key a))
      (no_entry v p a (v.seats k p found).1.settled e)

-- The addresses that were noted are those of the heap.
abbrev IsNoted : (Ref → Client) → StaleClient → Type 0
IsNoted heap s = s.addr ≡ (heap s.ref).public_addr

sweep_client-IsSeated :
    (now : ℕ) (s : StaleClient) (r : Room) (changed : Bool)
    → IsNoted r.heap s
    → IsSeated r
    → IsSeated (sweep_client now s (r, changed)).0
unfolding sweep_client
sweep_client-IsSeated now s r changed noted v = elim (Option-cases (lookup s.key r.clients)) [
  | inl e ↦ rw (e, sweep_client) v
  | inr (cur, e) ↦
      rw (e, sweep_client)
        (elim (Bool-cases (cur == s.ref && ltb stale_after (now - (r.heap cur).last_seen))) [
          | inl t ↦
              let same : cur ≡ s.ref = ground arith in
              rw (t, noted)
                (forget_addr-IsSeated s.key s.ref (r.heap s.ref).public_addr r (e ∙ ap some same)
                  refl v)
          | inr t ↦ rw t v
        ])
]

-- The sweep changes no object.
forget_addr_heap :
    (noted addr : Option UdpAddr) (r : Room) → (forget_addr noted addr r).heap ≡ r.heap
unfolding forget_addr
forget_addr_heap none none r = refl
forget_addr_heap (some a) none r = refl
forget_addr_heap none (some b) r = refl
forget_addr_heap (some a) (some b) r = refl

free_vip_heap : (vip : Ip) (r : Room) → (free_vip vip r).heap ≡ r.heap
unfolding free_vip
free_vip_heap vip r = elim (Option-cases (last_octet vip)) [
  | inl e ↦ rw (e, free_vip) refl
  | inr (o, e) ↦ rw (e, free_vip) refl
]

sweep_client_heap :
    (now : ℕ) (s : StaleClient) (r : Room) (changed : Bool)
    → (sweep_client now s (r, changed)).0.heap ≡ r.heap
unfolding sweep_client
sweep_client_heap now s r changed = elim (Option-cases (lookup s.key r.clients)) [
  | inl e ↦ rw (e, sweep_client) refl
  | inr (cur, e) ↦
      rw (e, sweep_client)
        (elim (Bool-cases (cur == s.ref && ltb stale_after (now - (r.heap cur).last_seen))) [
          | inl t ↦ rw t (
              forget_addr_heap s.addr (r.heap s.ref).public_addr _
              ∙ free_vip_heap (r.heap s.ref).virtual_ip r)
          | inr t ↦ rw t refl
        ])
]

sweep_clients-IsSeated :
    (now : ℕ) (xs : List StaleClient) (s : Room × Bool)
    → All (IsNoted s.0.heap) xs
    → IsSeated s.0
    → IsSeated (sweep_clients now xs s).0
unfolding sweep_clients
sweep_clients-IsSeated now [] s a v = v
sweep_clients-IsSeated now (x ∷ xs) s a v =
    sweep_clients-IsSeated now xs (sweep_client now x s) (rw (sweep_client_heap now x s.0 s.1) a.1)
      (sweep_client-IsSeated now x s.0 s.1 a.0 v)

stale_clients-IsNoted :
    (now : ℕ) (heap : Ref → Client) (m : Map (List ℕ) Ref)
    → All (IsNoted heap) (stale_clients now heap m)
unfolding stale_clients
stale_clients-IsNoted now heap [] = tt
stale_clients-IsNoted now heap ((k, p) ∷ m) =
    elim (Bool-cases (ltb stale_after (now - (heap p).last_seen))) [
      | inl t ↦ rw t (refl, stale_clients-IsNoted now heap m)
      | inr f ↦ rw f (stale_clients-IsNoted now heap m)
    ]

sweep_auth-IsSeated : (s : StaleAuth) (r : Room) → IsSeated r → IsSeated (sweep_auth s r)
unfolding sweep_auth
sweep_auth-IsSeated s r v = elim (Option-cases (lookup s.key r.addr_map)) [
  | inl e ↦ rw (e, sweep_auth) v
  | inr (cur, e) ↦
      rw (e, sweep_auth)
        (elim (Bool-cases (cur == s.ref)) [ inl t ↦ rw t (unlist-Table v s.key) | inr t ↦ rw t v ])
]

sweep_auths-IsSeated : (xs : List StaleAuth) (r : Room) → IsSeated r → IsSeated (sweep_auths xs r)
unfolding sweep_auths
sweep_auths-IsSeated [] r v = v
sweep_auths-IsSeated (x ∷ xs) r v =
    sweep_auths-IsSeated xs (sweep_auth x r) (sweep_auth-IsSeated x r v)

pub cleanup_stale-IsSeated :
    (now later : ℕ) (r : Room) → IsSeated r → IsSeated (cleanup_stale now later r).0
unfolding cleanup_stale
cleanup_stale-IsSeated now later r v = sweep_auths-IsSeated (stale_auths now r.heap r.addr_map) _ (
    sweep_clients-IsSeated later (stale_clients now r.heap r.clients) (r, false)
      (stale_clients-IsNoted now r.heap r.clients) v)
