-- ===== src/Client/Receive/Confirms.antt =====
-- Steps that leave the peers as they are, or confirm the one that a packet comes from.
use gametunnel.Base.{
  ℕ, ◌≡◌, refl, ap, sym, ◌∙◌, true, some, List, ◌⊎◌, inl, inr, Bool-cases, Option-cases, arith,
  subst,
}
use gametunnel.Bytes.{Result, ok, err, panic}
use gametunnel.Net.{Ip, UdpAddr, ip_key, same_endpoint}
use gametunnel.Map.{lookup, bytes_key}
use gametunnel.Client.Tunnel.{Tunnel, Peer}
use gametunnel.Client.Peers.Table.{reached}
use gametunnel.Client.Peers.Reach.{reached-insert}
use gametunnel.Crypto.{is_encrypted}
use gametunnel.Client.Receive.{
  Outside, store_peer, decrypt_write_and_release, decrypt_write, known_sender,
}

-- The table has a peer under this key whose public address is that of the sender.
abbrev pub IsSender : List ℕ → UdpAddr → Tunnel → Type 0
IsSender k from t =
    (p : Peer) × (a : UdpAddr) × (lookup k t.peers ≡ some p)
    × (p.public_addr ≡ some a)
    × (same_endpoint from a ≡ true)

-- Peers that are reached after a step were so before, or sent the packet.
abbrev pub Confirms : UdpAddr → Tunnel → Tunnel → Type 0
Confirms from t t' =
    (k : List ℕ)
    → reached (lookup k t'.peers) ≡ true
    → (reached (lookup k t.peers) ≡ true) ⊎ IsSender k from t

pub same_peers : (from : UdpAddr) (t t' : Tunnel) → t'.peers ≡ t.peers → Confirms from t t'
same_peers from t t' e k h = inl (ap (λ m. reached (lookup k m)) (sym e) ∙ h)

known_sender-IsSender :
    (vip : Ip) (from : UdpAddr) (t : Tunnel) (p : Peer)
    → known_sender vip from t ≡ some p
    → IsSender (ip_key vip) from t
unfolding known_sender
known_sender-IsSender vip from t p h = elim (Option-cases (lookup (ip_key vip) t.peers)) [
  | inl n ↦ ground (arith, n)
  | inr (q, l) ↦ elim (Option-cases q.public_addr) [
    | inl n ↦ ground (arith, l, n)
    | inr (a, e) ↦ elim (Bool-cases (same_endpoint from a)) [
      | inl s ↦ (q, a, l, e, s)
      | inr s ↦ ground (arith, l, e, s)
    ]
  ]
]

pub stored-Confirms :
    (vip : Ip) (from : UdpAddr) (t : Tunnel) (p q : Peer)
    → known_sender vip from t ≡ some p
    → Confirms from t (store_peer (ip_key vip) q t)
stored-Confirms vip from t p q h k r = elim (reached-insert (ip_key vip) k q t.peers r) [
  | inl (e, d) ↦ inr (subst (λ k. IsSender k from t) e (known_sender-IsSender vip from t p h))
  | inr old ↦ inl old
]

-- Writing to the TUN device leaves the peers alone.
pub decrypt_write-peers :
    (out : Outside) (bytes : List ℕ) (t : Tunnel)
    → (decrypt_write_and_release out bytes t).0.peers ≡ t.peers
unfolding decrypt_write_and_release decrypt_write
decrypt_write-peers out bytes t = elim (Bool-cases t.tun_open) [
  | inr shut ↦ rw shut refl
  | inl up ↦ elim (Option-cases t.crypto.p2p_cipher) [
    | inl n ↦ rw (up, n) refl
    | inr (c, s) ↦ elim (Bool-cases (is_encrypted bytes)) [
      | inl e ↦ rw (up, s, e) refl
      | inr e ↦ rw (up, s, e) refl
    ]
  ]
]

pub Confirms-then :
    (from : UdpAddr) (t t' t'' : Tunnel)
    → t''.peers ≡ t'.peers
    → Confirms from t t'
    → Confirms from t t''
Confirms-then from t t' t'' e c k h = c k (ap (λ m. reached (lookup k m)) (sym e) ∙ h)

abbrev pub of_result {ℓ κ} :
    {A : Type ℓ} {B : Type κ} → (A → Tunnel × B) → Tunnel × B → Result A → Tunnel × B
of_result f other r = elim r [ ok a ↦ f a | err e ↦ other | panic ↦ other ]

pub of_result-Confirms {ℓ κ} :
    {A : Type ℓ} {B : Type κ}
    → (from : UdpAddr) (t : Tunnel) (f : A → Tunnel × B) (other : Tunnel × B) (r : Result A)
    → other.0.peers ≡ t.peers
    → ((a : A) → Confirms from t (f a).0)
    → Confirms from t (of_result f other r).0
of_result-Confirms from t f other (ok a) e h = h a
of_result-Confirms from t f other (err _) e h = same_peers from t other.0 e
of_result-Confirms from t f other panic e h = same_peers from t other.0 e
