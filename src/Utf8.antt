-- ===== src/Utf8.antt =====
-- unicode/utf8.RuneCountInString: a byte that begins no valid sequence counts as one rune.
use gametunnel.Base.{
  ℕ, zero, suc, ◌≤◌, ◌≡◌, refl, Bool, false, ◌&&◌, List, [], ◌∷◌, arith, leb, ◌==◌, if◌then◌else◌,
  length, drop,
}

-- Is there a next byte in this range?
next_in : List ℕ → ℕ → ℕ → Bool
next_in [] lo hi = false
next_in (b ∷ bs) lo hi = leb lo b && leb b hi

-- The ranges of the second byte, by the first.
second_ok : ℕ → List ℕ → Bool
unfolding next_in
second_ok b rest =
    if b == 0xe0
    then next_in rest 0xa0 0xbf
    else if b == 0xed
    then next_in rest 0x80 0x9f
    else if b == 0xf0
    then next_in rest 0x90 0xbf
    else if b == 0xf4
    then next_in rest 0x80 0x8f
    else next_in rest 0x80 0xbf

-- The bytes of the first rune behind its first byte.
unfoldable pub more_bytes : ℕ → List ℕ → ℕ
unfolding second_ok
more_bytes b rest =
    if leb 0xc2 b && leb b 0xdf && second_ok b rest
    then 1
    else if leb 0xe0 b && leb b 0xef && second_ok b rest && next_in (drop 1 rest) 0x80 0xbf
    then 2
    else if leb 0xf0 b
        && leb b 0xf4
        && second_ok b rest
        && next_in (drop 1 rest) 0x80 0xbf
        && next_in (drop 2 rest) 0x80 0xbf
    then 3
    else 0

-- `skip` bytes still belong to the rune that was counted last.
rune_loop : ℕ → List ℕ → ℕ
rune_loop skip [] = 0
rune_loop zero (b ∷ bs) = suc (rune_loop (more_bytes b bs) bs)
rune_loop (suc skip) (b ∷ bs) = rune_loop skip bs

unfoldable pub rune_count : List ℕ → ℕ
unfolding rune_loop more_bytes
rune_count bs = rune_loop 0 bs

rune_loop-le : (skip : ℕ) (bs : List ℕ) → rune_loop skip bs ≤ length bs
unfolding rune_loop
rune_loop-le skip [] = omega arith
rune_loop-le zero (b ∷ bs) = omega (arith, rune_loop-le (more_bytes b bs) bs)
rune_loop-le (suc skip) (b ∷ bs) = omega (arith, rune_loop-le skip bs)

-- Two runes of three bytes each, then an invalid byte.
rune_count_test : rune_count (0xe5 ∷ 0xaf ∷ 0x86 ∷ 0xe7 ∷ 0xa0 ∷ 0x81 ∷ 0xff ∷ []) ≡ 3
unfolding rune_count
rune_count_test = refl
