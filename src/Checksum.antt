-- ===== src/Checksum.antt =====
-- hash/crc32 with the IEEE polynomial, and four-byte little-endian words.
use Prim.Native.Nat.{bit_xor}
use gametunnel.Base.{
  ℕ, zero, suc, ◌+◌, ◌*◌, ◌/◌, ◌%◌, ◌^◌, ◌<◌, ◌≡◌, refl, List, [], ◌∷◌, arith, ◌==◌, if◌then◌else◌,
  length, All,
}
use gametunnel.Bytes.{IsByte}

crc_bits : ℕ → ℕ → ℕ
crc_bits zero c = c
crc_bits (suc n) c = crc_bits n (if c % 2 == 1 then bit_xor (c / 2) 0xedb88320 else c / 2)

crc_bytes : ℕ → List ℕ → ℕ
unfolding crc_bits
crc_bytes c [] = c
crc_bytes c (b ∷ bs) = crc_bytes (crc_bits 8 (bit_xor c b)) bs

-- A uint32.
unfoldable pub crc32 : List ℕ → ℕ
unfolding crc_bytes
crc32 bs = bit_xor (crc_bytes 0xffffffff bs) 0xffffffff % 2 ^ 32

pub crc32-lt : (bs : List ℕ) → crc32 bs < 2 ^ 32
unfolding crc32
crc32-lt bs = omega arith

-- `binary.LittleEndian.AppendUint32`, and the reading of four bytes.
abbrev pub put_u32 : ℕ → List ℕ
put_u32 v = (v % 256) ∷ (v / 256 % 256) ∷ (v / 65536 % 256) ∷ (v / 16777216 % 256) ∷ []

unfoldable pub u32_of : List ℕ → ℕ
u32_of [] = 0
u32_of (b ∷ bs) = b + 256 * u32_of bs

pub u32_of-put_u32 : (v : ℕ) → v < 2 ^ 32 → u32_of (put_u32 v) ≡ v
unfolding u32_of
u32_of-put_u32 v h = omega arith

pub put_u32-u32_of : (bs : List ℕ) → length bs ≡ 4 → All IsByte bs → put_u32 (u32_of bs) ≡ bs
unfolding u32_of
put_u32-u32_of [] h a = absurd (omega arith)
put_u32-u32_of (b ∷ []) h a = absurd (omega arith)
put_u32-u32_of (b ∷ c ∷ []) h a = absurd (omega arith)
put_u32-u32_of (b ∷ c ∷ d ∷ []) h a = absurd (omega arith)
put_u32-u32_of (b ∷ c ∷ d ∷ e ∷ []) h a = ground arith
put_u32-u32_of (b ∷ c ∷ d ∷ e ∷ f ∷ bs) h a = absurd (omega arith)

-- The check value that the definition of the checksum gives for the digits 1 to 9.
crc32_check : crc32 (49 ∷ 50 ∷ 51 ∷ 52 ∷ 53 ∷ 54 ∷ 55 ∷ 56 ∷ 57 ∷ []) ≡ 0xcbf43926
unfolding crc32
crc32_check = refl
