-- ===== src/Server/Room/Seats/Moves.antt =====
-- The steps that the handlers of a room are made of, on the table, the map and the bitmap.
use gametunnel.Base.{
  ℕ, suc, ◌≤◌, ◌<◌, ◌≡◌, ◌≢◌, refl, sym, ap, ◌∙◌, false, ◌==◌, none, some, List, arith, inl, inr,
  Bool-cases,
}
use gametunnel.Net.{UdpAddr, RateKey, ip_key, ipv4, addr_to_rate_key}
use gametunnel.Map.{
  Map, lookup, erase, insert, bytes_key, erase-Distinct, insert-Distinct, lookup-erase-some,
  lookup-insert-some, lookup-erase_ne, beq_of_ne, ne_of_beq,
}
use gametunnel.Server.Bitmap.{Word, mark_ip_free}
use gametunnel.Server.Bitmap.Marks.{is_used-mark_ip_free, mark_ip_free-IsShaped}
use gametunnel.Server.Room.{Client, Ref, Subnet, is_pending, rate_key}
use gametunnel.Server.Room.Helpers.{store}
use gametunnel.Server.Room.Seats.{Seat, Entry, Table}

-- Two heaps agree on a client: its address inside the network and its state are the same, and its
-- public address is, once it is registered.
pub record Agrees (c c' : Client) : Type 0 where
  pub same_vip : c'.virtual_ip ≡ c.virtual_ip
  pub same_state : is_pending c' ≡ is_pending c
  pub same_addr : is_pending c ≡ false → c'.public_addr ≡ c.public_addr

pub Seat-Agrees :
    (subnet : Subnet) (bm : List Word) (c c' : Client) (k : List ℕ)
    → c'.virtual_ip ≡ c.virtual_ip
    → is_pending c' ≡ is_pending c
    → Seat subnet bm c k
    → Seat subnet bm c' k
Seat-Agrees subnet bm c c' k v s t = record {
  octet = t.octet;
  low = t.low;
  high = t.high;
  vip = v ∙ t.vip;
  key = t.key ∙ ap ip_key (sym v);
  used = t.used;
  settled = s ∙ t.settled;
}

pub Entry-Agrees :
    (clients : Map (List ℕ) Ref) (c c' : Client) (k : RateKey) (p : Ref)
    → Agrees c c'
    → Entry clients c k p
    → Entry clients c' k p
Entry-Agrees clients c c' k p g h settled =
    let was : is_pending c ≡ false = sym g.same_state ∙ settled in
    let ((a, e, f), l) = h was in
    ((a, g.same_addr was ∙ e, f), ap (λ x. lookup (ip_key x) clients) g.same_vip ∙ l)

pub store_self : (p : Ref) (c : Client) (heap : Ref → Client) → store p c heap p ≡ c
unfolding store
store_self p c heap = ground arith

pub store_other : (p q : Ref) (c : Client) (heap : Ref → Client) → p ≢ q → store p c heap q ≡ heap q
unfolding store
store_other p q c heap h = ground arith

module _ {subnet : Subnet} {bm : List Word} {heap : Ref → Client} {next : Ref}
    {clients : Map (List ℕ) Ref} {addrs : Map RateKey Ref}
    (t : Table subnet bm heap next clients addrs) where
  -- The heap changes where no client cares.
  pub heap-Table :
      (heap' : Ref → Client) (next' : Ref)
      → next ≤ next'
      → ((p : Ref) → p < next → Agrees (heap p) (heap' p))
      → Table subnet bm heap' next' clients addrs
  heap-Table heap' next' l g = record {
    shaped = t.shaped;
    clients_distinct = t.clients_distinct;
    addrs_distinct = t.addrs_distinct;
    seats = λ k p h.
        let (small, s) = t.seats k p h in
        let a = g p small in
        (omega arith, Seat-Agrees subnet bm (heap p) (heap' p) k a.same_vip a.same_state s);
    entries = λ k p h.
        let (small, s) = t.entries k p h in
        (omega arith, Entry-Agrees clients (heap p) (heap' p) k p (g p small) s);
  }

  -- One object is overwritten by one that agrees with it.
  pub store-Table :
      (q : Ref) (c : Client)
      → Agrees (heap q) c
      → Table subnet bm (store q c heap) next clients addrs
  store-Table q c g = heap-Table (store q c heap) next (omega arith) (λ p small. agree p)
    where
      agree : (p : Ref) → Agrees (heap p) (store q c heap p)
      agree p = elim (Bool-cases (q == p)) [
        | inl e ↦ let same : q ≡ p = ground arith in rw (← same, store_self q c heap) g
        | inr e ↦
            rw (store_other q p c heap (ground arith))
              (record { same_vip = refl; same_state = refl; same_addr = λ _. refl })
      ]

  -- A new object.
  pub allocate-Table : (c : Client) → Table subnet bm (store next c heap) (suc next) clients addrs
  allocate-Table c = heap-Table (store next c heap) (suc next) (omega arith) λ p small.
      rw (store_other next p c heap (omega arith))
        (record { same_vip = refl; same_state = refl; same_addr = λ _. refl })

  pub unlist-Table : (k : RateKey) → Table subnet bm heap next clients (erase k addrs)
  unlist-Table k = record {
    shaped = t.shaped;
    clients_distinct = t.clients_distinct;
    addrs_distinct = erase-Distinct k addrs t.addrs_distinct;
    seats = t.seats;
    entries = λ j p h. t.entries j p (lookup-erase-some k j p addrs h).1;
  }

  pub list-Table :
      (k : RateKey) (p : Ref)
      → p < next
      → Entry clients (heap p) k p
      → Table subnet bm heap next clients (insert k p addrs)
  list-Table k p small new = record {
    shaped = t.shaped;
    clients_distinct = t.clients_distinct;
    addrs_distinct = insert-Distinct k p addrs t.addrs_distinct;
    seats = t.seats;
    entries = λ j q h. elim (lookup-insert-some k j p q addrs h) [
      | inl (e, f) ↦ rw (← e, ← f) (small, new)
      | inr (ne, old) ↦ t.entries j q old
    ];
  }

  -- A registered client has no entry but the one under its own address.
  pub no_entry :
      (p : Ref) (old : UdpAddr)
      → is_pending (heap p) ≡ false
      → (heap p).public_addr ≡ some old
      → (k : RateKey) → lookup k (erase (addr_to_rate_key old) addrs) ≡ some p
      → ⊥
  no_entry p old settled e k h =
      let (ne, l) = lookup-erase-some (addr_to_rate_key old) k p addrs h in
      let ((a, f, g), m) = (t.entries k p l).1 settled in
      let same : a ≡ old = (let q : some a ≡ some old = sym f ∙ e in cc) in
      ne_of_beq (addr_to_rate_key old) k ne (ap addr_to_rate_key (sym same) ∙ g)

  pub no_entry_none :
      (p : Ref)
      → is_pending (heap p) ≡ false
      → (heap p).public_addr ≡ none
      → (k : RateKey) → lookup k addrs ≡ some p
      → ⊥
  no_entry_none p settled e k h =
      let ((a, f, g), m) = (t.entries k p h).1 settled in let q : some a ≡ none = sym f ∙ e in cc

  -- A client without an entry leaves the table, and its address becomes free.
  pub vacate-Table :
      (k : List ℕ) (p : Ref) (octet : ℕ)
      → lookup k clients ≡ some p
      → (heap p).virtual_ip ≡ ipv4 subnet.b0 subnet.b1 subnet.b2 octet
      → 2 ≤ octet
      → octet < 255
      → ((j : RateKey) → lookup j addrs ≡ some p → ⊥)
      → Table subnet (mark_ip_free octet bm) heap next (erase k clients) addrs
  vacate-Table k p octet found vip low high gone = record {
    shaped = mark_ip_free-IsShaped octet bm (omega arith) t.shaped;
    clients_distinct = erase-Distinct k clients t.clients_distinct;
    addrs_distinct = t.addrs_distinct;
    seats = λ j q h.
        let (ne, l) = lookup-erase-some k j q clients h in
        let (small, s) = t.seats j q l in (small, still s (other s (ne_of_beq k j ne)));
    entries = λ j q h.
        let (small, s) = t.entries j q h in
        (small, λ settled. let (a, l) = s settled in (a, kept q l (λ e. gone j (rw e at h))));
  }
    where
      own : Seat subnet bm (heap p) k
      own = (t.seats k p found).1

      other : {j : List ℕ} {c : Client} (s : Seat subnet bm c j) → k ≢ j → s.octet ≢ octet
      other {j} {c} s n e = n (
          own.key
          ∙ (ap ip_key (vip ∙ (ap (ipv4 subnet.b0 subnet.b1 subnet.b2) (sym e) ∙ sym s.vip))
              ∙ sym s.key))

      still :
          {j : List ℕ} {c : Client} (s : Seat subnet bm c j)
          → s.octet ≢ octet
          → Seat subnet (mark_ip_free octet bm) c j
      still s n = record {
        octet = s.octet;
        low = s.low;
        high = s.high;
        vip = s.vip;
        key = s.key;
        used =
            is_used-mark_ip_free octet s.octet bm (omega arith) t.shaped
            ∙ ground (arith, s.used, n);
        settled = s.settled;
      }

      kept :
          (q : Ref)
          → lookup (ip_key (heap q).virtual_ip) clients ≡ some q
          → q ≢ p
          → lookup (ip_key (heap q).virtual_ip) (erase k clients) ≡ some q
      kept q l n =
          lookup-erase_ne k (ip_key (heap q).virtual_ip) clients (
            beq_of_ne k (ip_key (heap q).virtual_ip)
              (λ e. n (let r : some q ≡ some p = sym l ∙ (rw (← e) found) in cc)))
          ∙ l
