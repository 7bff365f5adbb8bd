-- ===== src/Protocol/AddrText/Decimal.antt =====
-- Numbers in decimal: what is written is read back.
use native.Mathlib.Nat.{pow-suc}
use gametunnel.Base.{
  subst, sym, ℕ, zero, suc, ◌+◌, ◌-◌, ◌*◌, ◌/◌, ◌%◌, ◌^◌, ◌≤◌, ◌<◌, ◌≡◌, refl, ap, ◌∙◌, some, List,
  [], ◌∷◌, ◌++◌, ltb, length, length-append, Bool-cases, inl, inr, arith, All,
}
use gametunnel.Protocol.AddrText.{decimal, append_int, is_digit, read_digits, atoi}

abbrev pub IsDigit : ℕ → Type 0
IsDigit c = (48 ≤ c) × (c ≤ 57)

pub All-append {ℓ κ} :
    {A : Type ℓ} (P : A → Type κ) (xs ys : List A) → All P xs → All P ys → All P (xs ++ ys)
All-append P [] ys h k = k
All-append P (x ∷ xs) ys h k = (h.0, All-append P xs ys h.1 k)

pub decimal-IsDigit : (fuel n : ℕ) → All IsDigit (decimal fuel n)
unfolding decimal
decimal-IsDigit zero n = tt
decimal-IsDigit (suc fuel) n = elim (Bool-cases (ltb n 10)) [
  | inl t ↦ rw t ((omega arith, ground arith), tt)
  | inr t ↦ rw t (
      All-append IsDigit (decimal fuel (n / 10)) ((48 + n % 10) ∷ [])
        (decimal-IsDigit fuel (n / 10)) ((omega arith, omega arith), tt))
]

pub decimal_small : (fuel n : ℕ) → n < 10 → decimal (suc fuel) n ≡ (48 + n) ∷ []
unfolding decimal
decimal_small fuel n h = ground arith

pub decimal_large :
    (fuel n : ℕ) → 10 ≤ n → decimal (suc fuel) n ≡ decimal fuel (n / 10) ++ (48 + n % 10) ∷ []
unfolding decimal
decimal_large fuel n h = ground arith

read_digits-snoc :
    (acc d v : ℕ) (cs : List ℕ)
    → read_digits acc cs ≡ some v
    → d < 10
    → read_digits acc (cs ++ (48 + d) ∷ []) ≡ some (v * 10 + d)
unfolding read_digits
read_digits-snoc acc d v [] h l = ground arith
read_digits-snoc acc d v (c ∷ cs) h l = elim (Bool-cases (is_digit c)) [
  | inl t ↦ rw t (read_digits-snoc (acc * 10 + (c - 48)) d v cs (rw t at h) l)
  | inr t ↦ let bad = rw t at h in cc
]

digit_read : (d : ℕ) → d < 10 → read_digits 0 ((48 + d) ∷ []) ≡ some d
unfolding read_digits
digit_read d h = ground arith

-- With a round for every digit, the number is read back.
pub read_digits-decimal :
    (fuel n : ℕ) → n < 10 ^ suc fuel → read_digits 0 (decimal (suc fuel) n) ≡ some n
read_digits-decimal zero n h = rw (decimal_small 0 n h) (digit_read n h)
read_digits-decimal (suc fuel) n h = elim (Bool-cases (ltb n 10)) [
  | inl t ↦
      let small : n < 10 = ground arith in
      rw (decimal_small (suc fuel) n small) (digit_read n small)
  | inr t ↦
      let large : 10 ≤ n = ground arith in
      let e : n / 10 * 10 + n % 10 ≡ n = omega arith in
      let fits : n / 10 < 10 ^ suc fuel = omega (arith, pow-suc 10 (suc fuel)) in
      rw (decimal_large (suc fuel) n large) (
        read_digits-snoc 0 (n % 10) (n / 10) (decimal (suc fuel) (n / 10))
          (read_digits-decimal fuel (n / 10) fits) (omega arith)
        ∙ ap some e)
]

pub append_int_lem : (n : ℕ) → append_int n ≡ decimal 20 n
unfolding append_int
append_int_lem n = refl

append-nonempty : (xs : List ℕ) (x : ℕ) → (c : ℕ) × (cs : List ℕ) × (xs ++ x ∷ [] ≡ c ∷ cs)
append-nonempty [] x = (x, [], refl)
append-nonempty (y ∷ ys) x = (y, ys ++ x ∷ [], refl)

pub append_int-cons : (n : ℕ) → (c : ℕ) × (cs : List ℕ) × (append_int n ≡ c ∷ cs)
append_int-cons n = elim (Bool-cases (ltb n 10)) [
  | inl t ↦ (48 + n, [], append_int_lem n ∙ decimal_small 19 n (ground arith))
  | inr t ↦
      let (c, cs, e) = append-nonempty (decimal 19 (n / 10)) (48 + n % 10) in
      (c, cs, append_int_lem n ∙ decimal_large 19 n (ground arith) ∙ e)
]

pub append_int-IsDigit : (n : ℕ) → All IsDigit (append_int n)
append_int-IsDigit n = rw (append_int_lem n) (decimal-IsDigit 20 n)

pub read_digits-append_int : (n : ℕ) → n < 10 ^ 20 → read_digits 0 (append_int n) ≡ some n
read_digits-append_int n h = rw (append_int_lem n) (read_digits-decimal 19 n h)

atoi_digits :
    (c v : ℕ) (cs : List ℕ)
    → IsDigit c
    → read_digits 0 (c ∷ cs) ≡ some v
    → v < 2 ^ 63
    → atoi (c ∷ cs) ≡ some v
unfolding atoi
atoi_digits c v cs d h l = ground arith

-- Atoi reads what AppendInt writes.
pub atoi-append_int : (n : ℕ) → n < 2 ^ 63 → atoi (append_int n) ≡ some n
atoi-append_int n h =
    let (c, cs, e) = append_int-cons n in
    let digits : All IsDigit (c ∷ cs) = subst (All IsDigit) e (append_int-IsDigit n) in
    let read : read_digits 0 (c ∷ cs) ≡ some n =
      ap (read_digits 0) (sym e) ∙ read_digits-append_int n (omega arith) in
    ap atoi e ∙ atoi_digits c n cs digits.0 read h

length-decimal : (fuel n : ℕ) → length (decimal fuel n) ≤ fuel
unfolding decimal
length-decimal zero n = omega arith
length-decimal (suc fuel) n = elim (Bool-cases (ltb n 10)) [
  | inl t ↦ rw t (omega arith)
  | inr t ↦ rw t (
      omega (
        arith,
        length-append (decimal fuel (n / 10)) ((48 + n % 10) ∷ []),
        length-decimal fuel (n / 10),
      ))
]

pub length-append_int : (n : ℕ) → length (append_int n) ≤ 20
length-append_int n = rw (append_int_lem n) (length-decimal 20 n)
