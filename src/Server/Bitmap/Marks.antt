-- ===== src/Server/Bitmap/Marks.antt =====
-- Marking an address changes its bit and no other.
use gametunnel.Base.{
  ℕ, zero, suc, ◌/◌, ◌%◌, ◌<◌, ◌≡◌, refl, ap, Bool, true, false, List, [], ◌∷◌, ◌==◌, if◌then◌else◌,
  length, arith, All, Bool-cases, inl, inr,
}
use gametunnel.Words.{get_bit-set_bit, length-set_bit}
use gametunnel.Server.Bitmap.{
  Word, set_bit, get_word, set_word, is_used, mark_ip_used, mark_ip_free, IsShaped,
}

get_word-set_word :
    (ws : List Word) (v : Word) (i j : ℕ)
    → i < length ws
    → get_word (set_word ws i v) j ≡ (if i == j then v else get_word ws j)
unfolding get_word set_word
get_word-set_word [] v i j h = absurd (omega arith)
get_word-set_word (w ∷ ws) v zero zero h = ground arith
get_word-set_word (w ∷ ws) v zero (suc j) h = ground arith
get_word-set_word (w ∷ ws) v (suc i) zero h = ground arith
get_word-set_word (w ∷ ws) v (suc i) (suc j) h = ground (arith, get_word-set_word ws v i j)

length-get_word :
    (ws : List Word) (i : ℕ)
    → All (λ w. length w ≡ 64) ws
    → i < length ws
    → length (get_word ws i) ≡ 64
unfolding get_word
length-get_word [] i h l = absurd (omega arith)
length-get_word (w ∷ ws) zero h l = h.0
length-get_word (w ∷ ws) (suc i) h l = length-get_word ws i h.1 (omega arith)

set_word-shape :
    (ws : List Word) (i : ℕ) (v : Word)
    → length v ≡ 64
    → All (λ w. length w ≡ 64) ws
    → (length (set_word ws i v) ≡ length ws) × All (λ w. length w ≡ 64) (set_word ws i v)
unfolding set_word
set_word-shape [] i v h a = (refl, tt)
set_word-shape (w ∷ ws) zero v h a = (refl, (h, a.1))
set_word-shape (w ∷ ws) (suc i) v h a =
    let (l, r) = set_word-shape ws i v h a.1 in (ap suc l, (a.0, r))

-- `mark` with either value, in one.
abbrev mark : Bool → ℕ → List Word → List Word
mark v o bm = set_word bm (o / 64) (set_bit v (get_word bm (o / 64)) (o % 64))

mark-IsShaped : (v : Bool) (o : ℕ) (bm : List Word) → o < 256 → IsShaped bm → IsShaped (mark v o bm)
mark-IsShaped v o bm h s =
    let w = length-get_word bm (o / 64) s.wide (omega (arith, s.four)) in
    let (l, a) =
      set_word-shape bm (o / 64) (set_bit v (get_word bm (o / 64)) (o % 64))
        (omega (arith, length-set_bit v (get_word bm (o / 64)) (o % 64), w)) s.wide in
    record { four = omega (arith, l, s.four); wide = a }

is_used-mark :
    (v : Bool) (o k : ℕ) (bm : List Word)
    → o < 256
    → IsShaped bm
    → is_used (mark v o bm) k ≡ (if o == k then v else is_used bm k)
unfolding is_used
is_used-mark v o k bm h s =
    let width = length-get_word bm (o / 64) s.wide (omega (arith, s.four)) in
    let word =
      get_word-set_word bm (set_bit v (get_word bm (o / 64)) (o % 64)) (o / 64) (k / 64)
        (omega (arith, s.four)) in
    let bit = get_bit-set_bit v (get_word bm (o / 64)) (o % 64) (k % 64) (omega (arith, width)) in
    rw word (elim (Bool-cases (o / 64 == k / 64)) [
      | inl same ↦ let e : k / 64 ≡ o / 64 = ground arith in rw (same, e) (ground (arith, bit))
      | inr other ↦ rw other (ground arith)
    ])

-- Marking an octet below 256 in a bitmap of four words makes this octet used, and leaves every other
-- as it was.
pub is_used-mark_ip_used :
    (o k : ℕ) (bm : List Word)
    → o < 256
    → IsShaped bm
    → is_used (mark_ip_used o bm) k ≡ (if o == k then true else is_used bm k)
unfolding mark_ip_used
is_used-mark_ip_used o k bm h s = is_used-mark true o k bm h s

-- Freeing an octet below 256 in a bitmap of four words makes this octet free, and leaves every other
-- as it was.
pub is_used-mark_ip_free :
    (o k : ℕ) (bm : List Word)
    → o < 256
    → IsShaped bm
    → is_used (mark_ip_free o bm) k ≡ (if o == k then false else is_used bm k)
unfolding mark_ip_free
is_used-mark_ip_free o k bm h s = is_used-mark false o k bm h s

pub mark_ip_used-IsShaped :
    (o : ℕ) (bm : List Word) → o < 256 → IsShaped bm → IsShaped (mark_ip_used o bm)
unfolding mark_ip_used
mark_ip_used-IsShaped o bm h s = mark-IsShaped true o bm h s

pub mark_ip_free-IsShaped :
    (o : ℕ) (bm : List Word) → o < 256 → IsShaped bm → IsShaped (mark_ip_free o bm)
unfolding mark_ip_free
mark_ip_free-IsShaped o bm h s = mark-IsShaped false o bm h s
