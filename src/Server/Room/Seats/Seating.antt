-- ===== src/Server/Room/Seats/Seating.antt =====
-- A client takes a free address, and a client takes a new public address.
use gametunnel.Base.{
  ℕ, suc, ◌≤◌, ◌<◌, ◌≡◌, refl, sym, ap, ◌∙◌, true, false, ◌==◌, none, some, List, arith, inl, inr,
  Bool-cases, Option-cases,
}
use gametunnel.Net.{RateKey, ip_key, ipv4}
use gametunnel.Map.{
  Map, lookup, insert, bytes_key, insert-Distinct, lookup-insert-some, lookup-insert_ne, beq_of_ne,
}
use gametunnel.Server.Bitmap.{Word, IsShaped, is_used, mark_ip_used, mark_ip_free}
use gametunnel.Server.Bitmap.Marks.{
  is_used-mark_ip_free, mark_ip_free-IsShaped, is_used-mark_ip_used, mark_ip_used-IsShaped,
}
use gametunnel.Server.Room.{Client, Ref, Subnet, is_pending, rate_key}
use gametunnel.Server.Room.Helpers.{store}
use gametunnel.Server.Room.Seats.{Seat, Entry, Table}
use gametunnel.Server.Room.Seats.Moves.{
  store_self, store_other, allocate-Table, list-Table, Seat-Agrees,
}

ip_key-ipv4 : (a b c d e : ℕ) → ip_key (ipv4 a b c d) ≡ ip_key (ipv4 a b c e) → d ≡ e
unfolding ip_key ipv4
ip_key-ipv4 a b c d e h = cc

pub true_ne_false : true ≡ false → ⊥
true_ne_false p = cc

pub none_ne_some : {A : Type 0} {a : A} → none ≡ some a → ⊥
none_ne_some p = cc

-- More addresses in use take no seat away.
mark-Seat :
    (subnet : Subnet) (bm : List Word) (c : Client) (k : List ℕ) (octet : ℕ)
    → IsShaped bm
    → octet < 255
    → Seat subnet bm c k
    → Seat subnet (mark_ip_used octet bm) c k
mark-Seat subnet bm c k octet shaped small s = record {
  octet = s.octet;
  low = s.low;
  high = s.high;
  vip = s.vip;
  key = s.key;
  used = is_used-mark_ip_used octet s.octet bm (omega arith) shaped ∙ ground (arith, s.used);
  settled = s.settled;
}

module _ {subnet : Subnet} {bm : List Word} {heap : Ref → Client} {next : Ref}
    {clients : Map (List ℕ) Ref} {addrs : Map RateKey Ref}
    (t : Table subnet bm heap next clients addrs) where
  -- Nobody sits at a free address.
  pub free-lookup :
      (octet : ℕ)
      → is_used bm octet ≡ false
      → lookup (ip_key (ipv4 subnet.b0 subnet.b1 subnet.b2 octet)) clients ≡ none
  free-lookup octet free =
      elim (Option-cases (lookup (ip_key (ipv4 subnet.b0 subnet.b1 subnet.b2 octet)) clients)) [
        | inl e ↦ e
        | inr (p, e) ↦
            let (small, s) = t.seats _ p e in
            let same : octet ≡ s.octet =
              ip_key-ipv4 subnet.b0 subnet.b1 subnet.b2 octet s.octet (s.key ∙ ap ip_key s.vip) in
            absurd (true_ne_false (sym s.used ∙ (ap (is_used bm) (sym same) ∙ free)))
      ]

  -- A new client at a free address, without an entry in the map of addresses yet.
  pub seat-Table :
      (octet : ℕ) (c : Client)
      → is_used bm octet ≡ false
      → 2 ≤ octet
      → octet < 255
      → c.virtual_ip ≡ ipv4 subnet.b0 subnet.b1 subnet.b2 octet
      → is_pending c ≡ false
      → Table subnet
          (mark_ip_used octet bm)
          (store next c heap)
          (suc next)
          (insert (ip_key c.virtual_ip) next clients)
          addrs
  seat-Table octet c free low high vip settled = record {
    shaped = mark_ip_used-IsShaped octet bm (omega arith) t.shaped;
    clients_distinct = insert-Distinct (ip_key c.virtual_ip) next clients t.clients_distinct;
    addrs_distinct = t.addrs_distinct;
    seats = λ k p h. elim (lookup-insert-some (ip_key c.virtual_ip) k next p clients h) [
      | inl (e, f) ↦ rw (← e, ← f, store_self next c heap) (omega arith, own)
      | inr (ne, l) ↦
          let (small, s) = u.seats k p l in
          (small, mark-Seat subnet bm (store next c heap p) k octet t.shaped high s)
    ];
    entries = λ k p h.
        let (small, s) = u.entries k p h in (small, λ was. let (a, l) = s was in (a, kept _ p l));
  }
    where
      u : Table subnet bm (store next c heap) (suc next) clients addrs
      u = allocate-Table t c

      absent : lookup (ip_key c.virtual_ip) clients ≡ none
      absent = rw vip (free-lookup octet free)

      own : Seat subnet (mark_ip_used octet bm) c (ip_key c.virtual_ip)
      own = record {
        octet = octet;
        low = low;
        high = high;
        vip = vip;
        key = refl;
        used = is_used-mark_ip_used octet octet bm (omega arith) t.shaped ∙ ground arith;
        settled = settled;
      }

      kept :
          (k : List ℕ) (q : Ref)
          → lookup k clients ≡ some q
          → lookup k (insert (ip_key c.virtual_ip) next clients) ≡ some q
      kept k q l =
          lookup-insert_ne (ip_key c.virtual_ip) k next clients
            (beq_of_ne (ip_key c.virtual_ip) k (λ e. none_ne_some (sym (rw e at absent) ∙ l)))
          ∙ l

  -- The object of a client without an entry gets another public address, and an entry under it.
  pub readdress-Table :
      (p : Ref) (c : Client) (k : RateKey)
      → p < next
      → ((j : RateKey) → lookup j addrs ≡ some p → ⊥)
      → c.virtual_ip ≡ (heap p).virtual_ip
      → is_pending c ≡ is_pending (heap p)
      → Entry clients c k p
      → Table subnet bm (store p c heap) next clients (insert k p addrs)
  readdress-Table p c k small gone vip state entry =
      list-Table u k p small (rw (store_self p c heap) entry)
    where
      u : Table subnet bm (store p c heap) next clients addrs
      u = record {
        shaped = t.shaped;
        clients_distinct = t.clients_distinct;
        addrs_distinct = t.addrs_distinct;
        seats = λ j q h.
            let (below, s) = t.seats j q h in
            (
              below,
              elim (Bool-cases (p == q)) [
                | inl e ↦
                    let same : p ≡ q = ground arith in
                    rw (← same, store_self p c heap)
                      (Seat-Agrees subnet bm (heap p) c j vip state (rw (← same) at s))
                | inr e ↦ rw (store_other p q c heap (ground arith)) s
              ],
            );
        entries = λ j q h.
            let (below, s) = t.entries j q h in
            (below, rw (store_other p q c heap (λ e. gone j (rw (← e) at h))) s);
      }

  -- An address that is marked and given back at once.
  pub unmark-Table :
      (octet : ℕ)
      → is_used bm octet ≡ false
      → octet < 255
      → Table subnet (mark_ip_free octet (mark_ip_used octet bm)) heap next clients addrs
  unmark-Table octet free high = record {
    shaped = mark_ip_free-IsShaped octet (mark_ip_used octet bm) (omega arith) marked;
    clients_distinct = t.clients_distinct;
    addrs_distinct = t.addrs_distinct;
    seats = λ k p h.
        let (small, s) = t.seats k p h in
        (
          small,
          record {
            octet = s.octet;
            low = s.low;
            high = s.high;
            vip = s.vip;
            key = s.key;
            used = still s.octet s.used;
            settled = s.settled;
          },
        );
    entries = t.entries;
  }
    where
      marked : IsShaped (mark_ip_used octet bm)
      marked = mark_ip_used-IsShaped octet bm (omega arith) t.shaped

      still :
          (o : ℕ)
          → is_used bm o ≡ true
          → is_used (mark_ip_free octet (mark_ip_used octet bm)) o ≡ true
      still o used =
          is_used-mark_ip_free octet o (mark_ip_used octet bm) (omega arith) marked
          ∙ (elim (Bool-cases (octet == o)) [
            | inl e ↦
                let same : octet ≡ o = ground arith in
                absurd (true_ne_false (sym used ∙ (ap (is_used bm) (sym same) ∙ free)))
            | inr e ↦ rw (e, is_used-mark_ip_used octet o bm (omega arith) t.shaped, e) used
          ])
