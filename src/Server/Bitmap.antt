-- ===== src/Server/Bitmap.antt =====
-- The address bitmap of internal/server/room.go: four uint64 words. A word is the list of its bits,
-- the lowest first, so `^w`, `1 << k`, `|=`, `&^=`, bits.TrailingZeros64 and `free &= free - 1` are
-- what they do to single bits.
pub mod Scan
pub mod Marks
unfoldable pub use gametunnel.Words.{Word, get_bit, set_bit}
use gametunnel.Base.{
  ℕ, zero, suc, ◌+◌, ◌*◌, ◌/◌, ◌%◌, Bool, true, false, not, ◌&&◌, Option, none, some, List, [], ◌∷◌,
  map, leb, ltb, if◌then◌else◌, replicate, length, All, ◌≡◌,
}

-- `ipBitmap[i]`
unfoldable pub get_word : List Word → ℕ → Word
get_word [] i = []
get_word (w ∷ ws) zero = w
get_word (w ∷ ws) (suc i) = get_word ws i

unfoldable pub set_word : List Word → ℕ → Word → List Word
set_word [] i v = []
set_word (w ∷ ws) zero v = v ∷ ws
set_word (w ∷ ws) (suc i) v = w ∷ set_word ws i v

-- `make([]uint64, 4)`
unfoldable pub empty_bitmap : List Word
empty_bitmap = replicate 4 (replicate 64 false)

-- markIPUsed and markIPFree, on the last octet of the address.
unfoldable pub mark_ip_used : ℕ → List Word → List Word
unfolding get_word set_word set_bit
mark_ip_used octet bm =
    set_word bm (octet / 64) (set_bit true (get_word bm (octet / 64)) (octet % 64))

unfoldable pub mark_ip_free : ℕ → List Word → List Word
unfolding get_word set_word set_bit
mark_ip_free octet bm =
    set_word bm (octet / 64) (set_bit false (get_word bm (octet / 64)) (octet % 64))

-- `ipBitmap[octet/64] & (1 << (octet%64)) != 0`
unfoldable pub is_used : List Word → ℕ → Bool
is_used bm octet = get_bit (get_word bm (octet / 64)) (octet % 64)

pub trailing_zeros : Word → ℕ
trailing_zeros [] = 0
trailing_zeros (true ∷ bs) = 0
trailing_zeros (false ∷ bs) = suc (trailing_zeros bs)

-- `free &= free - 1`
pub clear_lowest : Word → Word
clear_lowest [] = []
clear_lowest (true ∷ bs) = false ∷ bs
clear_lowest (false ∷ bs) = false ∷ clear_lowest bs

pub is_zero : Word → Bool
is_zero [] = true
is_zero (true ∷ bs) = false
is_zero (false ∷ bs) = is_zero bs

-- `word == ^uint64(0)`
pub is_full : Word → Bool
is_full [] = true
is_full (true ∷ bs) = is_full bs
is_full (false ∷ bs) = false

abbrev pub in_pool : ℕ → Bool
in_pool octet = leb 2 octet && ltb octet 255

-- `for free != 0 { ... }`: each round clears a bit, so 64 rounds are enough.
pub scan_free : ℕ → ℕ → Word → Option ℕ
scan_free zero base free = none
scan_free (suc fuel) base free =
    let rest = scan_free fuel base (clear_lowest free) in
    if is_zero free
    then none
    else (let octet = base + trailing_zeros free in if in_pool octet then some octet else rest)

pub scan_words : ℕ → List Word → Option ℕ
scan_words i [] = none
scan_words i (word ∷ words) =
    let rest = scan_words (i + 1) words in
    if is_full word
    then rest
    else elim (scan_free 64 (i * 64) (map not word)) [ none ↦ rest | some octet ↦ some octet ]

-- The octet of nextAvailableIP.
unfoldable pub next_available : List Word → Option ℕ
unfolding trailing_zeros clear_lowest is_zero is_full scan_free scan_words
next_available bm = scan_words 0 bm

-- Four words of 64 bits.
pub record IsShaped (bm : List Word) : Type 0 where
  pub four : length bm ≡ 4
  pub wide : All (λ w. length w ≡ 64) bm
