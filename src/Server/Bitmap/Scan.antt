-- ===== src/Server/Bitmap/Scan.antt =====
-- The scan with its bit tricks against the plain search for the first free address.
use gametunnel.Base.{
  ℕ, zero, suc, ◌+◌, ◌-◌, ◌*◌, ◌/◌, ◌%◌, ◌≤◌, ◌<◌, ◌≡◌, refl, ap, ◌∙◌, true, false, not, ◌&&◌,
  Option, none, some, List, [], ◌∷◌, ◌++◌, map, ltb, ◌==◌, if◌then◌else◌, length, arith, All,
  length-append, Bool-cases, inl, inr,
}
use gametunnel.Server.Bitmap.{
  Word, get_bit, get_word, is_used, trailing_zeros, clear_lowest, is_zero, is_full, in_pool,
  scan_free, scan_words, next_available, IsShaped,
}

-- The first address of the pool whose bit is clear, `p` being the address of the first bit.
first_free : ℕ → Word → Option ℕ
first_free p [] = none
first_free p (b ∷ bs) =
    let rest = first_free (p + 1) bs in if not b && in_pool p then some p else rest

ones : Word → ℕ
ones [] = 0
ones (true ∷ bs) = suc (ones bs)
ones (false ∷ bs) = ones bs

ones-le : (bs : Word) → ones bs ≤ length bs
unfolding ones
ones-le [] = omega arith
ones-le (true ∷ bs) = omega (arith, ones-le bs)
ones-le (false ∷ bs) = omega (arith, ones-le bs)

length-not : (bs : Word) → length (map not bs) ≡ length bs
length-not [] = refl
length-not (b ∷ bs) = ap suc (length-not bs)

-- A clear lowest bit shifts the scan by one address.
scan_free_shift :
    (fuel p : ℕ) (bs : Word) → scan_free fuel p (false ∷ bs) ≡ scan_free fuel (p + 1) bs
unfolding scan_free trailing_zeros clear_lowest is_zero
scan_free_shift zero p bs = refl
scan_free_shift (suc fuel) p bs =
    let moved : p + suc (trailing_zeros bs) ≡ p + 1 + trailing_zeros bs = omega arith in
    rw moved (rw (scan_free_shift fuel p (clear_lowest bs)))

scan_free_zero : (fuel p : ℕ) (bs : Word) → is_zero bs ≡ true → scan_free fuel p bs ≡ none
unfolding scan_free
scan_free_zero zero p bs h = refl
scan_free_zero (suc fuel) p bs h = rw h

scan_free_set :
    (fuel p : ℕ) (bs : Word)
    → scan_free (suc fuel) p (true ∷ bs) ≡ (if in_pool p then some p else scan_free fuel (p + 1) bs)
unfolding scan_free trailing_zeros clear_lowest is_zero
scan_free_set fuel p bs = let here : p + 0 ≡ p = omega arith in rw (here, scan_free_shift fuel p bs)

scan_free-first_free :
    (fuel p : ℕ) (bs : Word)
    → ones (map not bs) ≤ fuel
    → scan_free fuel p (map not bs) ≡ first_free p bs
unfolding first_free ones
scan_free-first_free fuel p [] h = scan_free_zero fuel p [] (unfold is_zero in refl)
scan_free-first_free fuel p (true ∷ bs) h =
    scan_free_shift fuel p (map not bs) ∙ scan_free-first_free fuel (p + 1) bs h
scan_free-first_free zero p (false ∷ bs) h = absurd (omega arith)
scan_free-first_free (suc fuel) p (false ∷ bs) h =
    scan_free_set fuel p (map not bs)
    ∙ ap (λ r. if in_pool p then some p else r) (scan_free-first_free fuel (p + 1) bs (omega arith))

flat : List Word → Word
flat [] = []
flat (w ∷ ws) = w ++ flat ws

is_full-first_free : (p : ℕ) (bs : Word) → is_full bs ≡ true → first_free p bs ≡ none
unfolding is_full first_free
is_full-first_free p [] h = refl
is_full-first_free p (true ∷ bs) h = is_full-first_free (p + 1) bs h
is_full-first_free p (false ∷ bs) h = cc

abbrev or_else : Option ℕ → Option ℕ → Option ℕ
or_else none r = r
or_else (some o) r = some o

first_free-append :
    (p q : ℕ) (xs ys : Word)
    → q ≡ p + length xs
    → first_free p (xs ++ ys) ≡ or_else (first_free p xs) (first_free q ys)
unfolding first_free
first_free-append p q [] ys e = let same : q ≡ p = omega arith in rw same
first_free-append p q (b ∷ xs) ys e =
    ground (arith, first_free-append (p + 1) q xs ys (omega arith))

scan_words-first_free :
    (i : ℕ) (words : List Word)
    → All (λ w. length w ≡ 64) words
    → scan_words i words ≡ first_free (i * 64) (flat words)
unfolding scan_words flat
scan_words-first_free i [] h = unfold first_free in refl
scan_words-first_free i (w ∷ ws) h =
    let ih = scan_words-first_free (i + 1) ws h.1 in
    let split = first_free-append (i * 64) ((i + 1) * 64) w (flat ws) (omega (arith, h.0)) in
    let scan =
      scan_free-first_free 64 (i * 64) w (omega (arith, ones-le (map not w), length-not w, h.0)) in
    ground (arith, ih, split, scan, is_full-first_free (i * 64) w)

-- What the plain search finds, `k` bits on: a clear bit of the pool with none before it.
first_free-some :
    (p o : ℕ) (bs : Word)
    → first_free p bs ≡ some o
    → (k : ℕ) × (o ≡ p + k) × (in_pool o ≡ true) × (get_bit bs k ≡ false)
unfolding first_free get_bit
first_free-some p o [] h = cc
first_free-some p o (b ∷ bs) h = elim (Bool-cases (not b && in_pool p)) [
  | inl hit ↦ (0, ground arith, ground arith, ground arith)
  | inr miss ↦
      let (k, e, q, g) = first_free-some (p + 1) o bs (rw miss at h) in (suc k, omega arith, q, g)
]

first_free_before :
    (p o : ℕ) (bs : Word) (j : ℕ)
    → first_free p bs ≡ some o
    → p + j < o
    → in_pool (p + j) ≡ true
    → get_bit bs j ≡ true
unfolding first_free get_bit
first_free_before p o [] j h l q = cc
first_free_before p o (b ∷ bs) zero h l q =
    let here : p + 0 ≡ p = omega arith in ground (arith, here)
first_free_before p o (b ∷ bs) (suc j) h l q =
    let next : p + suc j ≡ p + 1 + j = omega arith in
    ground (arith, first_free_before (p + 1) o bs j)

first_free-none :
    (p : ℕ) (bs : Word) (j : ℕ)
    → first_free p bs ≡ none
    → j < length bs
    → in_pool (p + j) ≡ true
    → get_bit bs j ≡ true
unfolding first_free get_bit
first_free-none p [] j h l q = absurd (omega arith)
first_free-none p (b ∷ bs) zero h l q = let here : p + 0 ≡ p = omega arith in ground (arith, here)
first_free-none p (b ∷ bs) (suc j) h l q =
    let next : p + suc j ≡ p + 1 + j = omega arith in ground (arith, first_free-none (p + 1) bs j)

get_bit-append :
    (xs ys : Word) (n : ℕ)
    → get_bit (xs ++ ys) n
      ≡ (if ltb n (length xs) then get_bit xs n else get_bit ys (n - length xs))
unfolding get_bit
get_bit-append [] ys n = ground arith
get_bit-append (x ∷ xs) ys zero = ground arith
get_bit-append (x ∷ xs) ys (suc n) = ground (arith, get_bit-append xs ys n)

get_word-cons :
    (w : Word) (ws : List Word) (q : ℕ)
    → get_word (w ∷ ws) q ≡ (if q == 0 then w else get_word ws (q - 1))
unfolding get_word
get_word-cons w ws zero = ground arith
get_word-cons w ws (suc q) = let e : suc q - 1 ≡ q = omega arith in rw e (ground arith)

get_bit-flat :
    (ws : List Word) (n : ℕ) → All (λ w. length w ≡ 64) ws → get_bit (flat ws) n ≡ is_used ws n
unfolding flat is_used
get_bit-flat [] n h = unfold get_bit get_word in refl
get_bit-flat (w ∷ ws) n h = elim (Bool-cases (ltb n 64)) [
  | inl low ↦
      let q : n / 64 ≡ 0 = ground arith in
      let r : n % 64 ≡ n = ground arith in
      rw (q, r) (ground (arith, get_bit-append w (flat ws) n, get_word-cons w ws 0, h.0))
  | inr high ↦
      let q : (n - 64) / 64 ≡ n / 64 - 1 = ground arith in
      let r : (n - 64) % 64 ≡ n % 64 = ground arith in
      let ih : get_bit (flat ws) (n - 64) ≡ get_bit (get_word ws (n / 64 - 1)) (n % 64) =
        rw (q, r) at (get_bit-flat ws (n - 64) h.1) in
      ground (arith, ih, get_bit-append w (flat ws) n, get_word-cons w ws (n / 64), h.0)
]

length-flat : (ws : List Word) → All (λ w. length w ≡ 64) ws → length (flat ws) ≡ length ws * 64
unfolding flat
length-flat [] h = omega arith
length-flat (w ∷ ws) h = omega (arith, length-append w (flat ws), length-flat ws h.1, h.0)

-- An address that the room hands out lies in the pool of octets 2 to 254, is free, and is the
-- lowest such address.
pub next_available-some :
    (bm : List Word) (o : ℕ)
    → IsShaped bm
    → next_available bm ≡ some o
    → (2 ≤ o) × (o < 255) × (is_used bm o ≡ false) × ((j : ℕ) → 2 ≤ j → j < o → is_used bm j ≡ true)
unfolding next_available
next_available-some bm o s h =
    let flat_search = rw (scan_words-first_free 0 bm s.wide) at h in
    let (k, e, q, g) = first_free-some 0 o (flat bm) flat_search in
    let same : o ≡ k = omega (arith, e) in
    (
      ground (arith, q),
      ground (arith, q),
      rw (same, ← get_bit-flat bm k s.wide) g,
      λ j l u.
          rw (← get_bit-flat bm j s.wide)
            (first_free_before 0 o (flat bm) j flat_search (omega arith) (ground (arith, q))),
    )

-- If the room has no address to hand out, every octet from 2 to 254 is in use.
pub next_available-none :
    (bm : List Word) (o : ℕ)
    → IsShaped bm
    → next_available bm ≡ none
    → 2 ≤ o
    → o < 255
    → is_used bm o ≡ true
unfolding next_available
next_available-none bm o s h l u = rw (← get_bit-flat bm o s.wide) (
    first_free-none 0 (flat bm) o (rw (scan_words-first_free 0 bm s.wide) at h)
      (omega (arith, length-flat bm s.wide, s.four)) (ground arith))
