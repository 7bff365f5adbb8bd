-- ===== src/Bytes/Safety.antt =====
-- Decoders that never read outside their slice.
use gametunnel.Base.{
  ℕ, ◌+◌, ◌*◌, ◌≤◌, ◌<◌, ◌≡◌, refl, ◌≢◌, Bool, true, false, List, [], ◌∷◌, arith, ltb, leb,
  Bool-cases, inl, inr, if◌then◌else◌, length, drop, length-drop,
}
use gametunnel.Bytes.Reads.{
  Result, ok, err, panic, ◌>>=◌, ◌>>◌, need, byte_at, u16_at, slice, slice_within, first_byte,
  first_u16, opt_u16_at, opt_byte_at,
}

-- A decoder that cannot panic.
abbrev pub IsSafe {ℓ} : {A : Type ℓ} → Result A → Type ℓ
IsSafe r = r ≢ panic

pub IsSafe-need {ℓ} :
    {A : Type ℓ} (buf : List ℕ) (n : ℕ) (k : Result A)
    → (n ≤ length buf → IsSafe k)
    → IsSafe (need buf n >> k)
unfolding need
IsSafe-need buf n k h = elim (Bool-cases (ltb (length buf) n)) [
  | inl short ↦ rw short (λ p. cc)
  | inr long ↦ rw long (h (ground arith))
]

pub IsSafe-byte_at {ℓ} :
    {A : Type ℓ} (buf : List ℕ) (off : ℕ) (k : ℕ → Result A)
    → off < length buf
    → ((v : ℕ) → IsSafe (k v))
    → IsSafe (byte_at buf off >>= k)
unfolding byte_at
IsSafe-byte_at buf off k h s = first (drop off buf) (omega (arith, length-drop off buf))
  where
    first : (xs : List ℕ) → 0 < length xs → IsSafe (first_byte xs >>= k)
    first [] p = absurd (omega arith)
    first (x ∷ xs) p = s x

pub IsSafe-u16_at {ℓ} :
    {A : Type ℓ} (buf : List ℕ) (off : ℕ) (k : ℕ → Result A)
    → off + 2 ≤ length buf
    → ((v : ℕ) → IsSafe (k v))
    → IsSafe (u16_at buf off >>= k)
unfolding u16_at
IsSafe-u16_at buf off k h s = first (drop off buf) (omega (arith, length-drop off buf))
  where
    first : (xs : List ℕ) → 1 < length xs → IsSafe (first_u16 xs >>= k)
    first [] p = absurd (omega arith)
    first (x ∷ []) p = absurd (omega arith)
    first (x ∷ y ∷ xs) p = s (x + 256 * y)

pub IsSafe-slice {ℓ} :
    {A : Type ℓ} (buf : List ℕ) (lo hi : ℕ) (k : List ℕ → Result A)
    → lo ≤ hi
    → hi ≤ length buf
    → ((v : List ℕ) → IsSafe (k v))
    → IsSafe (slice buf lo hi >>= k)
IsSafe-slice buf lo hi k p q s = rw (slice_within buf lo hi p q) (s _)

pub IsSafe-ok {ℓ} : {A : Type ℓ} (a : A) → IsSafe (ok a)
IsSafe-ok a p = cc

pub IsSafe->>= {ℓ κ} :
    {A : Type ℓ} {B : Type κ} {r : Result A} {k : A → Result B}
    → IsSafe r
    → ((a : A) → IsSafe (k a))
    → IsSafe (r >>= k)
IsSafe->>= {r = ok a} h s = s a
IsSafe->>= {r = err e} h s = λ p. cc
IsSafe->>= {r = panic} h s = absurd (h refl)

IsSafe-bind_ok {ℓ} : {A : Type ℓ} (r : Result A) → IsSafe (r >>= ok) → IsSafe r
IsSafe-bind_ok (ok a) h = h
IsSafe-bind_ok (err e) h = h
IsSafe-bind_ok panic h = h

pub u16_at_within : (buf : List ℕ) (off : ℕ) → off + 2 ≤ length buf → IsSafe (u16_at buf off)
u16_at_within buf off h =
    IsSafe-bind_ok (u16_at buf off) (IsSafe-u16_at buf off ok h λ v. IsSafe-ok v)

pub byte_at_within : (buf : List ℕ) (off : ℕ) → off < length buf → IsSafe (byte_at buf off)
byte_at_within buf off h =
    IsSafe-bind_ok (byte_at buf off) (IsSafe-byte_at buf off ok h λ v. IsSafe-ok v)

pub if-IsSafe {ℓ} :
    {A : Type ℓ} (b : Bool) (r s : Result A)
    → (b ≡ true → IsSafe r)
    → IsSafe s
    → IsSafe (if b then r else s)
if-IsSafe true r s h k = h refl
if-IsSafe false r s h k = k

pub opt_u16_at-IsSafe : (buf : List ℕ) (off : ℕ) → IsSafe (opt_u16_at buf off)
unfolding opt_u16_at
opt_u16_at-IsSafe buf off = if-IsSafe (leb (off + 2) (length buf)) _ _ within (IsSafe-ok 0)
  where
    within : leb (off + 2) (length buf) ≡ true → IsSafe (u16_at buf off)
    within h = u16_at_within buf off (ground arith)

pub opt_byte_at-IsSafe : (buf : List ℕ) (off : ℕ) → IsSafe (opt_byte_at buf off)
unfolding opt_byte_at
opt_byte_at-IsSafe buf off = if-IsSafe (leb (off + 1) (length buf)) _ _ within (IsSafe-ok 0)
  where
    within : leb (off + 1) (length buf) ≡ true → IsSafe (byte_at buf off)
    within h = byte_at_within buf off (ground arith)

-- The same, where the continuation needs to know what the first part returned.
pub IsSafe->>=_ok {ℓ κ} :
    {A : Type ℓ} {B : Type κ} {r : Result A} {k : A → Result B}
    → IsSafe r
    → ((a : A) → r ≡ ok a → IsSafe (k a))
    → IsSafe (r >>= k)
IsSafe->>=_ok {r = ok a} h s = s a refl
IsSafe->>=_ok {r = err e} h s = λ p. cc
IsSafe->>=_ok {r = panic} h s = absurd (h refl)
