-- ===== src/Server/Room/Invariant/Leaving.antt =====
-- Keepalives, disconnects and the cleanup keep the limits of the room.
use gametunnel.Base.{
  replicate, ℕ, ◌-◌, Bool, false, ◌&&◌, Option, none, some, List, [], ◌∷◌, arith, ltb, ◌==◌,
  Bool-cases, Option-cases, inl, inr,
}
use gametunnel.Net.{Ip, UdpAddr, addr_to_rate_key, conn_ip_key}
use gametunnel.Map.{Map, lookup, erase, bytes_key, length-erase-le}
use gametunnel.Server.Room.{Room, Ref, Env, rate_key, is_pending}
use gametunnel.Server.Room.Invariant.{IsWithin, decrement-IsWithin, release-IsWithin, Inv}
use gametunnel.Server.Room.Lifecycle.{
  handle_keep_alive, free_vip, leave, handle_disconnect, StaleClient, StaleAuth, stale_clients,
  stale_auths, forget_addr, release_noted, sweep_client, sweep_auth, sweep_clients, sweep_auths,
  cleanup_stale, last_octet, stale_after,
}
use gametunnel.Server.Room.Helpers.{reg_rate_tick, release_addr}

pub handle_keep_alive-Inv :
    (env : Env) (payload : List ℕ) (from : UdpAddr) (r : Room)
    → Inv r
    → Inv (handle_keep_alive env payload from r)
unfolding handle_keep_alive
handle_keep_alive-Inv env payload from r v =
    elim (Option-cases (lookup (addr_to_rate_key from) r.addr_map)) [
      | inl e ↦ rw (e, handle_keep_alive) v
      | inr (p, e) ↦
          rw (e, handle_keep_alive)
            (record { capacity = v.capacity; within = v.within; pending = v.pending })
    ]

-- Only the bitmap changes.
free_vip-Inv : (vip : Ip) (r : Room) → Inv r → Inv (free_vip vip r)
unfolding free_vip
free_vip-Inv vip r v = elim (Option-cases (last_octet vip)) [
  | inl e ↦ rw (e, free_vip) v
  | inr (o, e) ↦
      rw (e, free_vip) (record { capacity = v.capacity; within = v.within; pending = v.pending })
]

without_client-Inv :
    (k : List ℕ) (r : Room) → Inv r → Inv (record r { clients = erase k r.clients })
without_client-Inv k r v = record {
  capacity = omega (arith, length-erase-le k r.clients, v.capacity);
  within = v.within;
  pending = v.pending;
}

released-Inv :
    (a : Option UdpAddr) (r : Room)
    → Inv r
    → Inv (record r { ip_conn_count = release_addr a r.ip_conn_count })
released-Inv a r v = record {
  capacity = v.capacity;
  within = release-IsWithin r.max_per_ip a r.ip_conn_count v.within;
  pending = v.pending;
}

leave-Inv : (p : Ref) (r : Room) → Inv r → Inv (leave p r)
unfolding leave
leave-Inv p r v = elim (Bool-cases (is_pending (r.heap p))) [
  | inl t ↦
      rw (t, leave)
        (released-Inv (r.heap p).public_addr (record r { pending_auth = r.pending_auth - 1 })
          (record { capacity = v.capacity; within = v.within; pending = omega (arith, v.pending) }))
  | inr t ↦
      rw (t, leave)
        (released-Inv (r.heap p).public_addr _
          (without_client-Inv _ _ (free_vip-Inv (r.heap p).virtual_ip r v)))
]

pub handle_disconnect-Inv :
    (env : Env) (from : UdpAddr) (r : Room) → Inv r → Inv (handle_disconnect env from r).0
unfolding handle_disconnect
handle_disconnect-Inv env from r v =
    elim (Option-cases (lookup (addr_to_rate_key from) r.addr_map)) [
      | inl e ↦ rw (e, handle_disconnect) v
      | inr (p, e) ↦
          let stamped : Inv (record r { last_activity = env.now }) = record {
            capacity = v.capacity;
            within = v.within;
            pending = v.pending;
          } in
          let u = leave-Inv p (record r { last_activity = env.now }) stamped in
          rw (e, handle_disconnect)
            (record { capacity = u.capacity; within = u.within; pending = u.pending })
    ]

forget_addr-Inv : (noted addr : Option UdpAddr) (r : Room) → Inv r → Inv (forget_addr noted addr r)
unfolding forget_addr
forget_addr-Inv none none r v = v
forget_addr-Inv (some a) none r v = v
forget_addr-Inv none (some b) r v = record {
  capacity = v.capacity;
  within = decrement-IsWithin r.max_per_ip _ r.ip_conn_count v.within;
  pending = v.pending;
}
forget_addr-Inv (some a) (some b) r v = record {
  capacity = v.capacity;
  within = decrement-IsWithin r.max_per_ip _ r.ip_conn_count v.within;
  pending = v.pending;
}

sweep_client-Inv :
    (now : ℕ) (s : StaleClient) (r : Room) (changed : Bool)
    → Inv r
    → Inv (sweep_client now s (r, changed)).0
unfolding sweep_client
sweep_client-Inv now s r changed v = elim (Option-cases (lookup s.key r.clients)) [
  | inl e ↦ rw (e, sweep_client) v
  | inr (cur, e) ↦
      rw (e, sweep_client)
        (elim (Bool-cases (cur == s.ref && ltb stale_after (now - (r.heap cur).last_seen))) [
          | inl t ↦ rw t (
              forget_addr-Inv s.addr (r.heap s.ref).public_addr _
                (without_client-Inv s.key _ (free_vip-Inv (r.heap s.ref).virtual_ip r v)))
          | inr t ↦ rw t v
        ])
]

sweep_clients-Inv :
    (now : ℕ) (xs : List StaleClient) (s : Room × Bool) → Inv s.0 → Inv (sweep_clients now xs s).0
unfolding sweep_clients
sweep_clients-Inv now [] s v = v
sweep_clients-Inv now (x ∷ xs) s v =
    sweep_clients-Inv now xs (sweep_client now x s) (sweep_client-Inv now x s.0 s.1 v)

release_noted-IsWithin :
    (limit : ℕ) (noted current : Option UdpAddr) (m : Map (List ℕ) ℕ)
    → IsWithin limit m
    → IsWithin limit (release_noted noted current m)
unfolding release_noted
release_noted-IsWithin limit noted none m h = h
release_noted-IsWithin limit none (some b) m h = decrement-IsWithin limit (replicate 16 0) m h
release_noted-IsWithin limit (some a) (some b) m h = decrement-IsWithin limit (conn_ip_key a) m h

sweep_auth-Inv : (s : StaleAuth) (r : Room) → Inv r → Inv (sweep_auth s r)
unfolding sweep_auth
sweep_auth-Inv s r v = elim (Option-cases (lookup s.key r.addr_map)) [
  | inl e ↦ rw (e, sweep_auth) v
  | inr (cur, e) ↦
      rw (e, sweep_auth)
        (elim (Bool-cases (cur == s.ref)) [
          | inl t ↦ rw t (record {
            capacity = v.capacity;
            within =
                release_noted-IsWithin r.max_per_ip s.addr (r.heap s.ref).public_addr
                  r.ip_conn_count v.within;
            pending = omega (arith, v.pending);
          })
          | inr t ↦ rw t v
        ])
]

sweep_auths-Inv : (xs : List StaleAuth) (r : Room) → Inv r → Inv (sweep_auths xs r)
unfolding sweep_auths
sweep_auths-Inv [] r v = v
sweep_auths-Inv (x ∷ xs) r v = sweep_auths-Inv xs (sweep_auth x r) (sweep_auth-Inv x r v)

pub cleanup_stale-Inv : (now later : ℕ) (r : Room) → Inv r → Inv (cleanup_stale now later r).0
unfolding cleanup_stale
cleanup_stale-Inv now later r v =
    sweep_auths-Inv (stale_auths now r.heap r.addr_map) _
      (sweep_clients-Inv later (stale_clients now r.heap r.clients) (r, false) v)

pub reg_rate_tick-Inv : (r : Room) → Inv r → Inv (reg_rate_tick r)
unfolding reg_rate_tick
reg_rate_tick-Inv r v = record { capacity = v.capacity; within = v.within; pending = v.pending }
