-- ===== src/Client/Peers/Table.antt =====
-- Who is in the table of peers after a list from the server.
use gametunnel.Base.{
  ℕ, ◌≡◌, refl, ap, sym, ◌∙◌, Bool, true, false, not, ◌&&◌, ◌||◌, Option, none, some, List, [], ◌∷◌,
  if◌then◌else◌, Bool-cases, Option-cases, inl, inr, ◌⊎◌, arith, bytes_eq, bytes_eq→eq,
}
use gametunnel.Net.{Ip, ip_key}
use gametunnel.Map.{
  lookup, insert, bytes_key, Distinct, insert-Distinct, lookup-insert_self, lookup-insert_ne,
}
use gametunnel.Protocol.PeerInfo.{PeerInfoEntry}
use gametunnel.Client.Tunnel.{Peer}
use gametunnel.Client.Peers.{
  Peers, PeerUpdate, mark_stale, sweep_stale, is_own, refresh_peer, new_peer, update_entry,
  update_entries, apply_peers,
}

-- Does the list name the peer with this key, other than the client itself?
unfoldable pub listed : Option Ip → List ℕ → List PeerInfoEntry → Bool
listed own k [] = false
listed own k (e ∷ es) =
    (not (is_own own e.virtual_ip) && bytes_eq (ip_key e.virtual_ip) k) || listed own k es

abbrev pub is_some {ℓ} : {A : Type ℓ} → Option A → Bool
is_some none = false
is_some (some a) = true

-- A peer that was not marked, or whose mark was taken off.
abbrev is_live : Option Peer → Bool
is_live none = false
is_live (some p) = not p.stale

abbrev pub unstale : Option Peer → Option Peer
unstale none = none
unstale (some p) = if p.stale then none else some p

lookup-sweep_none : (k : List ℕ) (m : Peers) → lookup k m ≡ none → lookup k (sweep_stale m) ≡ none
unfolding lookup sweep_stale
lookup-sweep_none k [] h = refl
lookup-sweep_none k ((j, p) ∷ m) h = ground (arith, lookup-sweep_none k m)

pub lookup-sweep_stale :
    (k : List ℕ) (m : Peers) → Distinct m → lookup k (sweep_stale m) ≡ unstale (lookup k m)
unfolding lookup sweep_stale
lookup-sweep_stale k [] d = refl
lookup-sweep_stale k ((j, p) ∷ m) d = elim (Bool-cases (bytes_eq j k)) [
  | inl t ↦
      let gone : lookup k (sweep_stale m) ≡ none =
        lookup-sweep_none k m (ap (λ i. lookup i m) (sym (bytes_eq→eq j k t)) ∙ d.0) in
      elim (Bool-cases p.stale) [
        | inl s ↦ ground (arith, s, t, gone)
        | inr s ↦ ground (arith, s, t)
      ]
  | inr f ↦ elim (Bool-cases p.stale) [
    | inl s ↦ ground (arith, s, f, lookup-sweep_stale k m d.1)
    | inr s ↦ ground (arith, s, f, lookup-sweep_stale k m d.1)
  ]
]

lookup-mark_none : (k : List ℕ) (m : Peers) → lookup k m ≡ none → lookup k (mark_stale m) ≡ none
unfolding lookup mark_stale
lookup-mark_none k [] h = refl
lookup-mark_none k ((j, p) ∷ m) h = ground (arith, lookup-mark_none k m)

pub mark_stale-Distinct : (m : Peers) → Distinct m → Distinct (mark_stale m)
unfolding mark_stale
mark_stale-Distinct [] d = tt
mark_stale-Distinct ((k, p) ∷ m) d = (lookup-mark_none k m d.0, mark_stale-Distinct m d.1)

mark_stale_dead : (k : List ℕ) (m : Peers) → is_live (lookup k (mark_stale m)) ≡ false
unfolding lookup mark_stale
mark_stale_dead k [] = refl
mark_stale_dead k ((j, p) ∷ m) = ground (arith, mark_stale_dead k m)

-- Does the key lead to a peer that direct packets reach?
abbrev pub reached : Option Peer → Bool
reached none = false
reached (some p) = p.direct_reach

refresh_peer-reached :
    (now : ℕ) (e : PeerInfoEntry) (p : Peer)
    → (refresh_peer now e p).direct_reach ≡ true
    → p.direct_reach ≡ true
unfolding refresh_peer
refresh_peer-reached now e p h = ground arith

refresh_peer-stale : (now : ℕ) (e : PeerInfoEntry) (p : Peer) → (refresh_peer now e p).stale ≡ false
unfolding refresh_peer
refresh_peer-stale now e p = refl

new_peer-reached : (now : ℕ) (e : PeerInfoEntry) → (new_peer now e).direct_reach ≡ false
unfolding new_peer
new_peer-reached now e = refl

new_peer-stale : (now : ℕ) (e : PeerInfoEntry) → (new_peer now e).stale ≡ false
unfolding new_peer
new_peer-stale now e = refl

unstale_live : (o : Option Peer) → is_some (unstale o) ≡ is_live o
unstale_live none = refl
unstale_live (some p) = ground arith

module _ (now : ℕ) (own : Option Ip) where
  -- An entry writes a peer without a mark, or is that of the client itself.
  abbrev pub Updates : PeerInfoEntry → Peers → Peers → Type 0
  Updates e before after =
      ((is_own own e.virtual_ip ≡ true) × (after ≡ before))
      ⊎ ((is_own own e.virtual_ip ≡ false)
          × ((q : Peer) × (q.stale ≡ false)
              × (q.direct_reach ≡ true → reached (lookup (ip_key e.virtual_ip) before) ≡ true)
              × (after ≡ insert (ip_key e.virtual_ip) q before)))

  pub update_entry-Updates :
      (e : PeerInfoEntry) (u : PeerUpdate) → Updates e u.peers (update_entry now own e u).peers
  unfolding update_entry
  update_entry-Updates e u = elim (Bool-cases (is_own own e.virtual_ip)) [
    | inl t ↦ inl (t, rw t refl)
    | inr t ↦ elim (Option-cases (lookup (ip_key e.virtual_ip) u.peers)) [
      | inl n ↦ inr (
        t,
        (
          new_peer now e,
          new_peer-stale now e,
          (λ d. let r = new_peer-reached now e in cc),
          rw (t, n) refl,
        ),
      )
      | inr (p, h) ↦ inr (
        t,
        (
          refresh_peer now e p,
          refresh_peer-stale now e p,
          (λ d. rw h (refresh_peer-reached now e p d)),
          rw (t, h) refl,
        ),
      )
    ]
  ]

  update_entry-Distinct :
      (e : PeerInfoEntry) (u : PeerUpdate)
      → Distinct u.peers
      → Distinct (update_entry now own e u).peers
  update_entry-Distinct e u d = elim (update_entry-Updates e u) [
    | inl (t, same) ↦ rw same d
    | inr (t, (q, live, direct, written)) ↦ rw written (insert-Distinct _ q u.peers d)
  ]

  update_entry-live :
      (e : PeerInfoEntry) (k : List ℕ) (u : PeerUpdate)
      → is_live (lookup k (update_entry now own e u).peers) ≡ (
          (not (is_own own e.virtual_ip) && bytes_eq (ip_key e.virtual_ip) k)
          || is_live (lookup k u.peers))
  update_entry-live e k u = elim (update_entry-Updates e u) [
    | inl (t, same) ↦ rw (same, t) refl
    | inr (t, (q, live, direct, written)) ↦
        ap (λ m. is_live (lookup k m)) written
        ∙ (elim (Bool-cases (bytes_eq (ip_key e.virtual_ip) k)) [
          | inl b ↦
              let found : lookup k (insert (ip_key e.virtual_ip) q u.peers) ≡ some q =
                ap (λ i. lookup i (insert (ip_key e.virtual_ip) q u.peers))
                  (sym (bytes_eq→eq (ip_key e.virtual_ip) k b))
                ∙ lookup-insert_self (ip_key e.virtual_ip) q u.peers in
              ap is_live found ∙ ground (arith, live, t, b)
          | inr b ↦
              ap is_live (lookup-insert_ne (ip_key e.virtual_ip) k q u.peers b)
              ∙ ground (arith, t, b)
        ])
  ]

  pub update_entries-Distinct :
      (es : List PeerInfoEntry) (u : PeerUpdate)
      → Distinct u.peers
      → Distinct (update_entries now own es u).peers
  unfolding update_entries
  update_entries-Distinct [] u d = d
  update_entries-Distinct (e ∷ es) u d =
      update_entries-Distinct es (update_entry now own e u) (update_entry-Distinct e u d)

  update_entries-live :
      (es : List PeerInfoEntry) (k : List ℕ) (u : PeerUpdate)
      → is_live (lookup k (update_entries now own es u).peers)
        ≡ (listed own k es || is_live (lookup k u.peers))
  unfolding update_entries listed
  update_entries-live [] k u = refl
  update_entries-live (e ∷ es) k u =
      update_entries-live es k (update_entry now own e u) ∙ ground (arith, update_entry-live e k u)

  -- After a list of peers from the server, exactly the peers that it names are in the table, the
  -- client itself left out, whoever was there before.
  pub apply_peers-listed :
      (es : List PeerInfoEntry) (peers : Peers) (k : List ℕ)
      → Distinct peers
      → is_some (lookup k (apply_peers now own es peers).0) ≡ listed own k es
  unfolding apply_peers
  apply_peers-listed es peers k d =
      let u : PeerUpdate = record { peers = mark_stale peers; new_ips = []; changed_ips = [] } in
      ap is_some (
        lookup-sweep_stale k (update_entries now own es u).peers
          (update_entries-Distinct es u (mark_stale-Distinct peers d)))
      ∙ unstale_live (lookup k (update_entries now own es u).peers)
      ∙ update_entries-live es k u
      ∙ ground (arith, mark_stale_dead k peers)

pub sweep_stale-Distinct : (m : Peers) → Distinct m → Distinct (sweep_stale m)
unfolding sweep_stale
sweep_stale-Distinct [] d = tt
sweep_stale-Distinct ((k, p) ∷ m) d = elim (Bool-cases p.stale) [
  | inl s ↦ rw s (sweep_stale-Distinct m d.1)
  | inr s ↦ rw s (lookup-sweep_none k m d.0, sweep_stale-Distinct m d.1)
]
