-- ===== src/Map.antt =====
-- Go maps as association lists. A write removes the key's old entry, so no key stands twice.
use gametunnel.Base.{
  ℕ, suc, ◌+◌, ◌≤◌, ◌≡◌, refl, ap, ◌∙◌, Bool, true, false, Option, none, some, List, [], ◌∷◌, arith,
  if◌then◌else◌, length, inl, inr, ◌⊎◌, ◌≢◌, sym, Bool-cases, bytes_eq, bytes_eq_refl, bytes_eq→eq,
}

-- Keys with a test for equality.
pub record Eq {ℓ} (K : Type ℓ) : Type ℓ where
  pub beq : K → K → Bool
  pub beq_refl : (a : K) → beq a a ≡ true
  pub beq→eq : (a b : K) → beq a b ≡ true → a ≡ b

instance abbrev pub bytes_key : Eq (List ℕ)
bytes_key = record { beq = bytes_eq; beq_refl = bytes_eq_refl; beq→eq = bytes_eq→eq }

abbrev pub Map {ℓ κ} : Type ℓ → Type κ → Type (ℓ ⊔ κ)
Map K V = List (K × V)

module _ {ℓ} {K : Type ℓ} ⦃e : Eq K⦄ where
  beq_trans_false : (j k l : K) → e.beq j k ≡ true → e.beq k l ≡ false → e.beq j l ≡ false
  beq_trans_false j k l h n = rw (← e.beq→eq j k h) at n

  beq_false_sym : (j k : K) → e.beq j k ≡ false → e.beq k j ≡ false
  beq_false_sym j k f = elim (Bool-cases (e.beq k j)) [
    | inl t ↦ let p : e.beq j k ≡ true = (rw (e.beq→eq k j t) (e.beq_refl j)) in cc
    | inr g ↦ g
  ]

  pub beq_of_ne : (k l : K) → k ≢ l → e.beq k l ≡ false
  beq_of_ne k l n = elim (Bool-cases (e.beq k l)) [
    | inl t ↦ absurd (n (e.beq→eq k l t))
    | inr f ↦ f
  ]

  pub ne_of_beq : (k l : K) → e.beq k l ≡ false → k ≢ l
  ne_of_beq k l f p = let q : e.beq k k ≡ false = (rw (← p) at f) in let r = e.beq_refl k in cc

module _ {ℓ κ} {K : Type ℓ} {V : Type κ} ⦃e : Eq K⦄ where
  -- `v, ok := m[k]`
  unfoldable pub lookup : K → Map K V → Option V
  lookup k [] = none
  lookup k ((j, v) ∷ m) = if e.beq j k then some v else lookup k m

  -- `delete(m, k)`
  unfoldable pub erase : K → Map K V → Map K V
  erase k [] = []
  erase k ((j, v) ∷ m) = if e.beq j k then erase k m else (j, v) ∷ erase k m

  -- `m[k] = v`
  unfoldable pub insert : K → V → Map K V → Map K V
  unfolding erase
  insert k v m = (k, v) ∷ erase k m

  pub lookup-erase_self : (k : K) (m : Map K V) → lookup k (erase k m) ≡ none
  unfolding lookup erase
  lookup-erase_self k [] = refl
  lookup-erase_self k ((j, v) ∷ m) = elim (Bool-cases (e.beq j k)) [
    | inl h ↦ rw h (lookup-erase_self k m)
    | inr h ↦ rw (h, h) (lookup-erase_self k m)
  ]

  pub lookup-erase_ne :
      (k l : K) (m : Map K V) → e.beq k l ≡ false → lookup l (erase k m) ≡ lookup l m
  unfolding lookup erase
  lookup-erase_ne k l [] n = refl
  lookup-erase_ne k l ((j, v) ∷ m) n = elim (Bool-cases (e.beq j k)) [
    | inl h ↦ rw (h, beq_trans_false j k l h n) (lookup-erase_ne k l m n)
    | inr h ↦ rw h (ap (λ r. if e.beq j l then some v else r) (lookup-erase_ne k l m n))
  ]

  pub lookup-insert_self : (k : K) (v : V) (m : Map K V) → lookup k (insert k v m) ≡ some v
  unfolding lookup insert
  lookup-insert_self k v m = rw (e.beq_refl k)

  pub lookup-insert_ne :
      (k l : K) (v : V) (m : Map K V) → e.beq k l ≡ false → lookup l (insert k v m) ≡ lookup l m
  unfolding lookup insert
  lookup-insert_ne k l v m n = rw n (lookup-erase_ne k l m n)

  pub length-erase-le : (k : K) (m : Map K V) → length (erase k m) ≤ length m
  unfolding erase
  length-erase-le k [] = omega arith
  length-erase-le k ((j, v) ∷ m) = ground (arith, length-erase-le k m)

  pub length-insert-le : (k : K) (v : V) (m : Map K V) → length (insert k v m) ≤ length m + 1
  unfolding insert
  length-insert-le k v m = omega (arith, length-erase-le k m)

  -- No key stands twice.
  abbrev pub Distinct : Map K V → Type κ
  Distinct [] = Unit {κ}
  Distinct ((k, v) ∷ m) = (lookup k m ≡ none) × Distinct m

  erase_absent : (k : K) (m : Map K V) → lookup k m ≡ none → erase k m ≡ m
  unfolding lookup erase
  erase_absent k [] h = refl
  erase_absent k ((j, v) ∷ m) h = elim (Bool-cases (e.beq j k)) [
    | inl t ↦ absurd (absent (rw t at h))
    | inr f ↦ rw f (ap (λ r. (j, v) ∷ r) (erase_absent k m (rw f at h)))
  ]
    where
      absent : some v ≡ none → ⊥
      absent p = cc

  pub erase-Distinct : (k : K) (m : Map K V) → Distinct m → Distinct (erase k m)
  unfolding erase
  erase-Distinct k [] d = tt
  erase-Distinct k ((j, v) ∷ m) d = elim (Bool-cases (e.beq j k)) [
    | inl t ↦ rw t (erase-Distinct k m d.1)
    | inr f ↦ rw f (lookup-erase_ne k j m (beq_false_sym j k f) ∙ d.0, erase-Distinct k m d.1)
  ]

  pub insert-Distinct : (k : K) (v : V) (m : Map K V) → Distinct m → Distinct (insert k v m)
  unfolding insert
  insert-Distinct k v m d = (lookup-erase_self k m, erase-Distinct k m d)

  -- The entries whose value passes a test.
  unfoldable pub count : (V → Bool) → Map K V → ℕ
  count p [] = 0
  count p ((k, v) ∷ m) = let n = count p m in if p v then suc n else n

  pub count-erase-none :
      (p : V → Bool) (k : K) (m : Map K V) → lookup k m ≡ none → count p (erase k m) ≡ count p m
  count-erase-none p k m h = ap (count p) (erase_absent k m h)

  -- Erasing a key takes its entry from the count.
  pub count-erase :
      (p : V → Bool) (k : K) (v : V) (m : Map K V)
      → Distinct m
      → lookup k m ≡ some v
      → count p m ≡ (if p v then suc (count p (erase k m)) else count p (erase k m))
  unfolding lookup erase count
  count-erase p k v [] d h = absurd (impossible h)
    where
      impossible : none ≡ some v → ⊥
      impossible q = cc
  count-erase p k v ((j, w) ∷ m) d h = elim (Bool-cases (e.beq j k)) [
    | inl t ↦
        let same : erase k m ≡ m = erase_absent k m (rw (e.beq→eq j k t) at d.0) in
        let q : w ≡ v = ground (arith, h, t) in rw (t, same, q) refl
    | inr f ↦ rw f (ground (arith, count-erase p k v m d.1 (rw f at h)))
  ]

  -- What a lookup after a write tells of the map before it.
  pub lookup-erase-some :
      (k l : K) (v : V) (m : Map K V)
      → lookup l (erase k m) ≡ some v
      → (e.beq k l ≡ false) × (lookup l m ≡ some v)
  lookup-erase-some k l v m h = elim (Bool-cases (e.beq k l)) [
    | inl t ↦ let same : l ≡ k = sym (e.beq→eq k l t) in absurd (missing (rw same at h))
    | inr f ↦ (f, sym (lookup-erase_ne k l m f) ∙ h)
  ]
    where
      missing : lookup k (erase k m) ≡ some v → ⊥
      missing p = let q : none ≡ some v = sym (lookup-erase_self k m) ∙ p in cc

  pub lookup-insert-some :
      (k l : K) (v w : V) (m : Map K V)
      → lookup l (insert k v m) ≡ some w
      → ((k ≡ l) × (v ≡ w)) ⊎ ((e.beq k l ≡ false) × (lookup l m ≡ some w))
  lookup-insert-some k l v w m h = elim (Bool-cases (e.beq k l)) [
    | inl t ↦ let same : k ≡ l = e.beq→eq k l t in inl (same, stored (rw (← same) at h))
    | inr f ↦ inr (f, sym (lookup-insert_ne k l v m f) ∙ h)
  ]
    where
      stored : lookup k (insert k v m) ≡ some w → v ≡ w
      stored p = let q : some v ≡ some w = sym (lookup-insert_self k v m) ∙ p in cc

  pub lookup-head : (k : K) (v : V) (m : Map K V) → lookup k ((k, v) ∷ m) ≡ some v
  unfolding lookup
  lookup-head k v m = rw (e.beq_refl k) refl

  -- What stands further back in a map is found.
  pub lookup-tail :
      (j l : K) (v w : V) (m : Map K V)
      → Distinct ((j, v) ∷ m)
      → lookup l m ≡ some w
      → lookup l ((j, v) ∷ m) ≡ some w
  unfolding lookup
  lookup-tail j l v w m d h = elim (Bool-cases (e.beq j l)) [
    | inl t ↦ absurd (twice (rw (e.beq→eq j l t) at d.0))
    | inr f ↦ rw f h
  ]
    where
      twice : lookup l m ≡ none → ⊥
      twice p = let q : none ≡ some w = sym p ∙ h in cc
