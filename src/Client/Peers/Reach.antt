-- ===== src/Client/Peers/Reach.antt =====
-- What a list from the server does to the direct reach of peers.
use gametunnel.Base.{
  ℕ, ◌≡◌, refl, ap, sym, ◌∙◌, true, false, Option, none, some, List, [], ◌∷◌, ◌⊎◌, inl, inr,
  bytes_eq, bytes_eq→eq, Bool-cases, Option-cases, arith,
}
use gametunnel.Net.{Ip, ip_key}
use gametunnel.Map.{lookup, insert, bytes_key, Distinct, lookup-insert_self, lookup-insert_ne}
use gametunnel.Protocol.PeerInfo.{PeerInfoEntry}
use gametunnel.Client.Tunnel.{Peer}
use gametunnel.Client.Peers.{
  Peers, PeerUpdate, mark_stale, is_own, wide_addr, addr_changed, refresh_peer, update_entry,
  update_entries, apply_peers,
}
use gametunnel.Client.Peers.Table.{
  reached, unstale, sweep_stale-Distinct, lookup-sweep_stale, update_entry-Updates,
  update_entries-Distinct, mark_stale-Distinct,
}

reached-mark_stale :
    (k : List ℕ) (m : Peers) → reached (lookup k (mark_stale m)) ≡ reached (lookup k m)
unfolding lookup mark_stale
reached-mark_stale k [] = refl
reached-mark_stale k ((j, p) ∷ m) = ground (arith, reached-mark_stale k m)

-- A written peer that is reached stands under the written key, or was there.
pub reached-insert :
    (j k : List ℕ) (q : Peer) (m : Peers)
    → reached (lookup k (insert j q m)) ≡ true
    → ((j ≡ k) × (q.direct_reach ≡ true)) ⊎ (reached (lookup k m) ≡ true)
reached-insert j k q m h = elim (Bool-cases (bytes_eq j k)) [
  | inl t ↦
      let e = bytes_eq→eq j k t in
      let found : lookup k (insert j q m) ≡ some q =
        ap (λ i. lookup i (insert j q m)) (sym e) ∙ lookup-insert_self j q m in
      inl (e, ap reached (sym found) ∙ h)
  | inr f ↦ inr (ap reached (sym (lookup-insert_ne j k q m f)) ∙ h)
]

unstale-reached : (o : Option Peer) → reached (unstale o) ≡ true → reached o ≡ true
unstale-reached none h = h
unstale-reached (some p) h = ground arith

module _ (now : ℕ) (own : Option Ip) where
  update_entry-reached :
      (e : PeerInfoEntry) (k : List ℕ) (u : PeerUpdate)
      → reached (lookup k (update_entry now own e u).peers) ≡ true
      → reached (lookup k u.peers) ≡ true
  update_entry-reached e k u h = elim (update_entry-Updates now own e u) [
    | inl (t, same) ↦ ap (λ m. reached (lookup k m)) (sym same) ∙ h
    | inr (t, (q, live, direct, written)) ↦
        elim (reached-insert (ip_key e.virtual_ip) k q u.peers
          (ap (λ m. reached (lookup k m)) (sym written) ∙ h)) [
            | inl (same, d) ↦ ap (λ i. reached (lookup i u.peers)) (sym same) ∙ direct d
            | inr old ↦ old
          ]
  ]

  update_entries-reached :
      (es : List PeerInfoEntry) (k : List ℕ) (u : PeerUpdate)
      → reached (lookup k (update_entries now own es u).peers) ≡ true
      → reached (lookup k u.peers) ≡ true
  unfolding update_entries
  update_entries-reached [] k u h = h
  update_entries-reached (e ∷ es) k u h =
      update_entry-reached e k u (update_entries-reached es k (update_entry now own e u) h)

  -- A list makes no peer directly reached.
  pub apply_peers-reached :
      (es : List PeerInfoEntry) (peers : Peers) (k : List ℕ)
      → Distinct peers
      → reached (lookup k (apply_peers now own es peers).0) ≡ true
      → reached (lookup k peers) ≡ true
  unfolding apply_peers
  apply_peers-reached es peers k d h =
      let u : PeerUpdate = record { peers = mark_stale peers; new_ips = []; changed_ips = [] } in
      sym (reached-mark_stale k peers)
      ∙ update_entries-reached es k u (
          unstale-reached (lookup k (update_entries now own es u).peers) (
            ap reached (
              sym (
                lookup-sweep_stale k (update_entries now own es u).peers
                  (update_entries-Distinct now own es u (mark_stale-Distinct peers d))))
            ∙ h))

  lookup-mark_stale :
      (k : List ℕ) (m : Peers) (p : Peer)
      → lookup k m ≡ some p
      → lookup k (mark_stale m) ≡ some (record p { stale = true })
  unfolding lookup mark_stale
  lookup-mark_stale k [] p h = cc
  lookup-mark_stale k ((j, q) ∷ m) p h = ground (arith, lookup-mark_stale k m p)

  refreshed :
      (e : PeerInfoEntry) (u : PeerUpdate) (p : Peer)
      → is_own own e.virtual_ip ≡ false
      → lookup (ip_key e.virtual_ip) u.peers ≡ some (record p { stale = true })
      → lookup (ip_key e.virtual_ip) (update_entries now own (e ∷ []) u).peers
        ≡ some (refresh_peer now e p)
  unfolding update_entries update_entry refresh_peer
  refreshed e u p other h = rw (other, h) (lookup-insert_self _ _ u.peers)

  refreshed_unstale :
      (e : PeerInfoEntry) (p : Peer)
      → unstale (some (refresh_peer now e p)) ≡ some (refresh_peer now e p)
  unfolding refresh_peer
  refreshed_unstale e p = refl

  -- What one entry makes of the peer that it names.
  pub apply_peers_one :
      (e : PeerInfoEntry) (peers : Peers) (p : Peer)
      → Distinct peers
      → is_own own e.virtual_ip ≡ false
      → lookup (ip_key e.virtual_ip) peers ≡ some p
      → lookup (ip_key e.virtual_ip) (apply_peers now own (e ∷ []) peers).0
        ≡ some (refresh_peer now e p)
  unfolding apply_peers
  apply_peers_one e peers p d other h =
      let u : PeerUpdate = record { peers = mark_stale peers; new_ips = []; changed_ips = [] } in
      lookup-sweep_stale (ip_key e.virtual_ip) (update_entries now own (e ∷ []) u).peers
        (update_entries-Distinct now own (e ∷ []) u (mark_stale-Distinct peers d))
      ∙ ap unstale (refreshed e u p other (lookup-mark_stale (ip_key e.virtual_ip) peers p h))
      ∙ refreshed_unstale e p

  pub apply_peers-Distinct :
      (es : List PeerInfoEntry) (peers : Peers)
      → Distinct peers
      → Distinct (apply_peers now own es peers).0
  unfolding apply_peers
  apply_peers-Distinct es peers d =
      sweep_stale-Distinct _ (update_entries-Distinct now own es _ (mark_stale-Distinct peers d))

refresh_peer-gap :
    (now later : ℕ) (e f : PeerInfoEntry) (p : Peer)
    → e.public_addr ≡ none
    → (refresh_peer later f (refresh_peer now e p)).direct_reach ≡ p.direct_reach
unfolding refresh_peer addr_changed wide_addr
refresh_peer-gap now later e f p gone = elim (Option-cases p.public_addr) [
  | inl n ↦ rw (gone, n) refl
  | inr (a, s) ↦ rw (gone, s) refl
]

refresh_peer-addr :
    (now : ℕ) (e : PeerInfoEntry) (p : Peer)
    → (refresh_peer now e p).public_addr ≡ wide_addr e.public_addr
unfolding refresh_peer
refresh_peer-addr now e p = refl

-- A peer whose address is missing in one list and another in the next keeps its direct reach: it counts
-- as directly reached at an address from which no packet has come.
pub apply_peers-address_gap :
    (now later : ℕ) (own : Option Ip) (e f : PeerInfoEntry) (peers : Peers) (p : Peer)
    → Distinct peers
    → is_own own e.virtual_ip ≡ false
    → f.virtual_ip ≡ e.virtual_ip
    → e.public_addr ≡ none
    → lookup (ip_key e.virtual_ip) peers ≡ some p
    → (q : Peer) × (lookup
          (ip_key e.virtual_ip)
          (apply_peers later own (f ∷ []) (apply_peers now own (e ∷ []) peers).0).0
        ≡ some q)
      × (q.direct_reach ≡ p.direct_reach)
      × (q.public_addr ≡ wide_addr f.public_addr)
apply_peers-address_gap now later own e f peers p d other same gone h =
    let once = apply_peers_one now own e peers p d other h in
    let twice =
      apply_peers_one later own f (apply_peers now own (e ∷ []) peers).0 (refresh_peer now e p)
        (apply_peers-Distinct now own (e ∷ []) peers d) (ap (is_own own) same ∙ other)
        (ap (λ ip. lookup (ip_key ip) (apply_peers now own (e ∷ []) peers).0) same ∙ once) in
    (
      refresh_peer later f (refresh_peer now e p),
      ap
            (λ ip.
              lookup (ip_key ip)
                (apply_peers later own (f ∷ []) (apply_peers now own (e ∷ []) peers).0).0)
            (sym same)
          ∙ twice,
      refresh_peer-gap now later e f p gone,
      refresh_peer-addr later f (refresh_peer now e p),
    )
