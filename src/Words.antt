-- ===== src/Words.antt =====
-- Machine words as the lists of their bits, the lowest first, and the 64-bit little-endian words of
-- encoding/binary.
use native.Mathlib.Nat.{pow-suc}
use gametunnel.Base.{
  ℕ, zero, suc, ◌+◌, ◌-◌, ◌*◌, ◌/◌, ◌%◌, ◌^◌, ◌<◌, ◌≡◌, refl, ap, Bool, false, List, [], ◌∷◌, ◌==◌,
  if◌then◌else◌, length, replicate, ltb, arith,
}

abbrev pub Word : Type 0
Word = List Bool

-- Bit `k`, and the word with bit `k` set to `b`.
unfoldable pub get_bit : Word → ℕ → Bool
get_bit [] k = false
get_bit (b ∷ bs) zero = b
get_bit (b ∷ bs) (suc k) = get_bit bs k

unfoldable pub set_bit : Bool → Word → ℕ → Word
set_bit v [] k = []
set_bit v (b ∷ bs) zero = v ∷ bs
set_bit v (b ∷ bs) (suc k) = b ∷ set_bit v bs k

-- `w << 1` and `w << k`, which keep the width.
abbrev pub drop_last : Bool → Word → Word
drop_last v [] = []
drop_last v (b ∷ bs) = v ∷ drop_last b bs

unfoldable pub shift_left : ℕ → Word → Word
shift_left zero w = w
shift_left (suc k) w = drop_last false (shift_left k w)

pub get_bit-set_bit :
    (v : Bool) (bs : Word) (j k : ℕ)
    → j < length bs
    → get_bit (set_bit v bs j) k ≡ (if j == k then v else get_bit bs k)
unfolding get_bit set_bit
get_bit-set_bit v [] j k h = absurd (omega arith)
get_bit-set_bit v (b ∷ bs) zero zero h = ground arith
get_bit-set_bit v (b ∷ bs) zero (suc k) h = ground arith
get_bit-set_bit v (b ∷ bs) (suc j) zero h = ground arith
get_bit-set_bit v (b ∷ bs) (suc j) (suc k) h = ground (arith, get_bit-set_bit v bs j k)

pub length-set_bit : (v : Bool) (bs : Word) (k : ℕ) → length (set_bit v bs k) ≡ length bs
unfolding set_bit
length-set_bit v [] k = refl
length-set_bit v (b ∷ bs) zero = refl
length-set_bit v (b ∷ bs) (suc k) = ap suc (length-set_bit v bs k)

pub length-drop_last : (v : Bool) (w : Word) → length (drop_last v w) ≡ length w
length-drop_last v [] = refl
length-drop_last v (b ∷ bs) = ap suc (length-drop_last b bs)

pub length-shift_left : (k : ℕ) (w : Word) → length (shift_left k w) ≡ length w
unfolding shift_left
length-shift_left zero w = refl
length-shift_left (suc k) w =
    omega (arith, length-drop_last false (shift_left k w), length-shift_left k w)

get_bit-drop_last_zero : (v : Bool) (w : Word) → 0 < length w → get_bit (drop_last v w) 0 ≡ v
unfolding get_bit
get_bit-drop_last_zero v [] h = absurd (omega arith)
get_bit-drop_last_zero v (b ∷ bs) h = refl

get_bit-drop_last-suc :
    (v : Bool) (w : Word) (d : ℕ) → suc d < length w → get_bit (drop_last v w) (suc d) ≡ get_bit w d
unfolding get_bit
get_bit-drop_last-suc v [] d h = absurd (omega arith)
get_bit-drop_last-suc v (b ∷ bs) zero h = get_bit-drop_last_zero b bs (omega arith)
get_bit-drop_last-suc v (b ∷ bs) (suc d) h = get_bit-drop_last-suc b bs d (omega arith)

-- A shift moves bit `d - k` to bit `d`, and shifts in zeroes.
pub get_bit-shift_left :
    (k : ℕ) (w : Word) (d : ℕ)
    → d < length w
    → get_bit (shift_left k w) d ≡ (if ltb d k then false else get_bit w (d - k))
unfolding shift_left
get_bit-shift_left zero w d h = ground arith
get_bit-shift_left (suc k) w zero h =
    ground
      (arith, get_bit-drop_last_zero false (shift_left k w) (omega (arith, length-shift_left k w)))
get_bit-shift_left (suc k) w (suc d) h = ground (
  arith,
  get_bit-drop_last-suc false (shift_left k w) d (omega (arith, length-shift_left k w)),
  get_bit-shift_left k w d (omega arith),
)

-- The 64-bit zero.
unfoldable pub zero_word : Word
zero_word = replicate 64 false

get_bit-replicate : (n d : ℕ) → get_bit (replicate n false) d ≡ false
unfolding get_bit
get_bit-replicate zero d = refl
get_bit-replicate (suc n) zero = refl
get_bit-replicate (suc n) (suc d) = get_bit-replicate n d

pub get_bit-zero_word : (d : ℕ) → get_bit zero_word d ≡ false
unfolding zero_word
get_bit-zero_word d = get_bit-replicate 64 d

pub length-zero_word : length zero_word ≡ 64
unfolding zero_word
length-zero_word = refl

-- `binary.LittleEndian.PutUint64` writes the eight bytes `put_le 8 v`, and `Uint64` reads bytes so.
unfoldable pub put_le : ℕ → ℕ → List ℕ
put_le zero v = []
put_le (suc n) v = (v % 256) ∷ put_le n (v / 256)

unfoldable pub le_of : List ℕ → ℕ
le_of [] = 0
le_of (b ∷ bs) = b + 256 * le_of bs

pub length-put_le : (n v : ℕ) → length (put_le n v) ≡ n
unfolding put_le
length-put_le zero v = refl
length-put_le (suc n) v = ap suc (length-put_le n (v / 256))

pub le_of-put_le : (n v : ℕ) → v < 256 ^ n → le_of (put_le n v) ≡ v
unfolding le_of put_le
le_of-put_le zero v h = omega arith
le_of-put_le (suc n) v h = omega (arith, le_of-put_le n (v / 256) (omega (arith, pow-suc 256 n)))
