-- ===== src/Server/Room/Accounting.antt =====
-- The counters of connections and pending authentications where internal/server/room_auth.go
-- handles a response.
use gametunnel.Base.{
  ℕ, ◌-◌, ◌≡◌, refl, false, none, some, List, arith, Option-cases, Bool-cases, inl, inr, ltb,
}
use gametunnel.Net.{UdpAddr, addr_to_rate_key, conn_ip_key}
use gametunnel.Map.{Map, lookup, bytes_key, lookup-insert_self, lookup-erase_self}
use gametunnel.Protocol.Auth.{AuthResponsePayload}
use gametunnel.Server.Room.{Room, Ref, Env, Crypto, is_pending, rate_key}
use gametunnel.Server.Room.Helpers.{
  or_zero, release_addr, decrement_ip_conn_count, cleanup_pending_auth, send_kick, send_kick_code,
}
use gametunnel.Server.Room.Auth.{scan_pending, locate, mismatch, respond_located}

-- A count of two or more goes down by one; a count of one is removed.
decrement-or_zero :
    (k : List ℕ) (m : Map (List ℕ) ℕ)
    → or_zero (lookup k (decrement_ip_conn_count k m)) ≡ or_zero (lookup k m) - 1
unfolding decrement_ip_conn_count
decrement-or_zero k m = elim (Option-cases (lookup k m)) [
  | inl e ↦ rw (e, decrement_ip_conn_count, lookup-erase_self k m) refl
  | inr (n, e) ↦
      rw (e, decrement_ip_conn_count)
        (elim (Bool-cases (ltb 1 n)) [
          | inl t ↦ rw (t, lookup-insert_self k (n - 1) m) refl
          | inr f ↦ rw (f, lookup-erase_self k m) (ground arith)
        ])
]

locate-registered :
    (resp : AuthResponsePayload) (from : UdpAddr) (r : Room) (p : Ref)
    → lookup (addr_to_rate_key from) r.addr_map ≡ some p
    → is_pending (r.heap p) ≡ false
    → scan_pending r.heap resp.room_id resp.username r.addr_map ≡ none
    → locate (addr_to_rate_key from) resp r ≡ mismatch p
unfolding locate
locate-registered resp from r p found registered absent =
    rw (found, locate, registered, absent) refl

-- A response from the address of a client that is already registered, where no pending entry has the
-- room and name of the response: the client's entry of the address map is removed, and the counts of
-- pending authentications and of the connections of its address go down, while the table of clients
-- keeps the client.
pub respond_located-registered :
    (crypto : Crypto) (env : Env) (resp : AuthResponsePayload) (from : UdpAddr) (r : Room) (p : Ref)
    → lookup (addr_to_rate_key from) r.addr_map ≡ some p
    → is_pending (r.heap p) ≡ false
    → (r.heap p).public_addr ≡ some from
    → scan_pending r.heap resp.room_id resp.username r.addr_map ≡ none
    → let after =
        (respond_located crypto env resp from r (locate (addr_to_rate_key from) resp r)).0 in
      (after.clients ≡ r.clients)
      × (lookup (addr_to_rate_key from) after.addr_map ≡ none)
      × (after.pending_auth ≡ r.pending_auth - 1)
      × (or_zero (lookup (conn_ip_key from) after.ip_conn_count)
          ≡ or_zero (lookup (conn_ip_key from) r.ip_conn_count) - 1)
unfolding respond_located cleanup_pending_auth send_kick send_kick_code release_addr
respond_located-registered crypto env resp from r p found registered addr absent =
    rw (located, addr)
      (
        refl,
        lookup-erase_self (addr_to_rate_key from) r.addr_map,
        refl,
        decrement-or_zero (conn_ip_key from) r.ip_conn_count,
      )
  where
    located : locate (addr_to_rate_key from) resp r ≡ mismatch p
    located = locate-registered resp from r p found registered absent
