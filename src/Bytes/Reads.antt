-- ===== src/Bytes/Reads.antt =====
-- Byte slices as lists of numbers below 256, the results of decoders, and the little-endian reads and
-- writes of encoding/binary. A read outside the slice is Go's run-time panic.
use gametunnel.Base.{
  ℕ, ◌+◌, ◌-◌, ◌*◌, ◌/◌, ◌%◌, ◌≤◌, ◌<◌, ◌≡◌, refl, Bool, true, false, ◌&&◌, List, [], ◌∷◌, ◌++◌,
  arith, ltb, leb, if◌then◌else◌, length, take, drop, length-drop, length-append, drop-drop,
  take-append, take_all, length-take, take-append-drop, drop-append, sym, ap, ◌∙◌,
}

-- The sentinel errors of internal/protocol/protocol.go.
pub data Error : Type 0 where
  packet_too_short unsupported_version checksum_mismatch too_many_peers : Error

-- What a decoder comes to: Go's panic, the error that it returns beside nil, or the decoded value.
pub data Result {ℓ} (A : Type ℓ) : Type ℓ where
  panic : Result A
  err : Error → Result A
  ok : A → Result A

infixl 5 ◌>>=◌ ◌>>◌
-- The next read takes place only if this one succeeded.
abbrev pub ◌>>=◌ {ℓ κ} : {V : Type ℓ} {W : Type κ} → Result V → (V → Result W) → Result W
panic >>= next = panic
ok value >>= next = next value
err reason >>= next = err reason

-- A check before the rest of the decoder.
abbrev pub ◌>>◌ {ℓ} : {W : Type ℓ} → Result (Unit {0}) → Result W → Result W
check >> rest = check >>= λ done. rest

-- `if b { return nil, e }`
abbrev pub fail_if : Bool → Error → Result (Unit {0})
fail_if true e = err e
fail_if false e = ok tt

-- `if len(buf) < n { return nil, ErrPacketTooShort }`
unfoldable pub need : List ℕ → ℕ → Result (Unit {0})
need buf n = fail_if (ltb (length buf) n) packet_too_short

pub need_met : (buf : List ℕ) (n : ℕ) → n ≤ length buf → need buf n ≡ ok tt
unfolding need
need_met buf n h = ground arith

pub need_short : (buf : List ℕ) (n : ℕ) → length buf < n → need buf n ≡ err packet_too_short
unfolding need
need_short buf n h = ground arith

abbrev pub IsByte : ℕ → Type 0
IsByte b = b < 256

-- `uint16(n)` of an int.
abbrev pub u16 : ℕ → ℕ
u16 n = n % 65536

unfoldable pub first_byte : List ℕ → Result ℕ
first_byte [] = panic
first_byte (b ∷ bs) = ok b

unfoldable pub first_u16 : List ℕ → Result ℕ
first_u16 [] = panic
first_u16 (b ∷ []) = panic
first_u16 (b ∷ c ∷ bs) = ok (b + 256 * c)

-- `data[off]`
unfoldable pub byte_at : List ℕ → ℕ → Result ℕ
unfolding first_byte
byte_at buf off = first_byte (drop off buf)

-- `binary.LittleEndian.Uint16(data[off:])`
unfoldable pub u16_at : List ℕ → ℕ → Result ℕ
unfolding first_u16
u16_at buf off = first_u16 (drop off buf)

-- `data[lo:hi]`
unfoldable pub slice : List ℕ → ℕ → ℕ → Result (List ℕ)
slice buf lo hi =
    if leb lo hi && leb hi (length buf) then ok (take (hi - lo) (drop lo buf)) else panic

-- `binary.LittleEndian.PutUint16(buf[off:], v)` writes these bytes.
abbrev pub put_u16 : ℕ → List ℕ
put_u16 v = (v % 256) ∷ (v / 256 % 256) ∷ []

-- What the reads return where `drop off` of the input is known.
pub byte_at-drop :
    (buf : List ℕ) (off b : ℕ) (rest : List ℕ) → drop off buf ≡ b ∷ rest → byte_at buf off ≡ ok b
unfolding byte_at
byte_at-drop buf off b rest e = rw e

pub u16_at-drop :
    (buf : List ℕ) (off v : ℕ) (rest : List ℕ)
    → v < 65536
    → drop off buf ≡ put_u16 v ++ rest
    → u16_at buf off ≡ ok v
unfolding u16_at
u16_at-drop buf off v rest h e = rw (e, first_u16) (ap ok (omega arith))

taken :
    (buf : List ℕ) (off : ℕ) (ys rest : List ℕ)
    → drop off buf ≡ ys ++ rest
    → take (off + length ys - off) (drop off buf) ≡ ys
taken buf off ys rest e = rw (n, e) (take-append ys rest)
  where
    n : off + length ys - off ≡ length ys
    n = omega arith

pub slice-drop :
    (buf : List ℕ) (off : ℕ) (ys rest : List ℕ)
    → off ≤ length buf
    → drop off buf ≡ ys ++ rest
    → slice buf off (off + length ys) ≡ ok ys
unfolding slice
slice-drop buf off ys rest h e =
    ground (arith, length-drop off buf, ap length e, length-append ys rest, taken buf off ys rest e)

-- The same with the end given by an equation.
pub slice_at :
    (buf : List ℕ) (off end : ℕ) (ys rest : List ℕ)
    → off ≤ length buf
    → end ≡ off + length ys
    → drop off buf ≡ ys ++ rest
    → slice buf off end ≡ ok ys
slice_at buf off end ys rest h n e = rw n (slice-drop buf off ys rest h e)

-- The position after what has been read.
pub drop_next :
    (buf : List ℕ) (off : ℕ) (ys rest : List ℕ)
    → drop off buf ≡ ys ++ rest
    → drop (off + length ys) buf ≡ rest
drop_next buf off ys rest e =
    sym (drop-drop off (length ys) buf) ∙ (ap (drop (length ys)) e ∙ drop-append ys rest)

pub drop_at :
    (buf : List ℕ) (off end : ℕ) (ys rest : List ℕ)
    → end ≡ off + length ys
    → drop off buf ≡ ys ++ rest
    → drop end buf ≡ rest
drop_at buf off end ys rest n e = rw n (drop_next buf off ys rest e)

pub slice_within :
    (buf : List ℕ) (lo hi : ℕ)
    → lo ≤ hi
    → hi ≤ length buf
    → slice buf lo hi ≡ ok (take (hi - lo) (drop lo buf))
unfolding slice
slice_within buf lo hi p q = ground arith

-- `if len(buf) >= off+2 { v = binary.LittleEndian.Uint16(buf[off:]) }`, with `v` zero before; and
-- the same of one byte. Fields that a later protocol version appended are read so.
unfoldable pub opt_u16_at : List ℕ → ℕ → Result ℕ
opt_u16_at buf off = if leb (off + 2) (length buf) then u16_at buf off else ok 0

unfoldable pub opt_byte_at : List ℕ → ℕ → Result ℕ
opt_byte_at buf off = if leb (off + 1) (length buf) then byte_at buf off else ok 0

pub opt_u16_at-drop :
    (buf : List ℕ) (off v : ℕ) (rest : List ℕ)
    → v < 65536
    → off ≤ length buf
    → drop off buf ≡ put_u16 v ++ rest
    → opt_u16_at buf off ≡ ok v
unfolding opt_u16_at
opt_u16_at-drop buf off v rest hv ho e =
    ground (arith, u16_at-drop buf off v rest hv e, length-drop off buf, ap length e)

pub opt_u16_at_none : (buf : List ℕ) (off : ℕ) → length buf < off + 2 → opt_u16_at buf off ≡ ok 0
unfolding opt_u16_at
opt_u16_at_none buf off h = ground arith

pub opt_byte_at-drop :
    (buf : List ℕ) (off v : ℕ) (rest : List ℕ)
    → off ≤ length buf
    → drop off buf ≡ v ∷ rest
    → opt_byte_at buf off ≡ ok v
unfolding opt_byte_at
opt_byte_at-drop buf off v rest ho e =
    ground (arith, byte_at-drop buf off v rest e, length-drop off buf, ap length e)

pub opt_byte_at_none : (buf : List ℕ) (off : ℕ) → length buf ≤ off → opt_byte_at buf off ≡ ok 0
unfolding opt_byte_at
opt_byte_at_none buf off h = ground arith

-- A decoder that succeeded has read a value, and its rest succeeded from there.
pub read-ok {ℓ κ} :
    {V : Type ℓ} {W : Type κ} (first : Result V) (next : V → Result W) {w : W}
    → first >>= next ≡ ok w
    → (v : V) × (first ≡ ok v) × (next v ≡ ok w)
read-ok panic next e = cc
read-ok (err reason) next e = cc
read-ok (ok v) next e = (v, refl, e)

pub need-eq-ok : (buf : List ℕ) (n : ℕ) {a : Unit {0}} → need buf n ≡ ok a → n ≤ length buf
unfolding need
need-eq-ok buf n h = ground arith

-- Two slices that meet make up the whole.
pub slice-append :
    (buf : List ℕ) (n : ℕ) (front tail : List ℕ)
    → n ≤ length buf
    → slice buf 0 n ≡ ok front
    → slice buf n (length buf) ≡ ok tail
    → front ++ tail ≡ buf
slice-append buf n front tail h e f = ground (
  arith,
  slice_within buf 0 n (omega arith) h,
  slice_within buf n (length buf) h (omega arith),
  rest,
  take-append-drop n buf,
)
  where
    rest : take (length buf - n) (drop n buf) ≡ drop n buf
    rest = rw (← length-drop n buf) (take_all (drop n buf))

pub length-slice :
    (buf : List ℕ) (lo hi : ℕ) (v : List ℕ)
    → lo ≤ hi
    → hi ≤ length buf
    → slice buf lo hi ≡ ok v
    → length v ≡ hi - lo
length-slice buf lo hi v p q e =
    let within : take (hi - lo) (drop lo buf) ≡ v = ground (arith, slice_within buf lo hi p q) in
    omega (arith, ap length within, length-take (hi - lo) (drop lo buf), length-drop lo buf)
