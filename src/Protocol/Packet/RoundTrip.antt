-- ===== src/Protocol/Packet/RoundTrip.antt =====
-- Encoding and decoding of packets against each other.
use gametunnel.Base.{
  ℕ, ◌+◌, ◌-◌, ◌≤◌, ◌≡◌, refl, sym, Bool, true, false, List, [], ◌∷◌, ◌++◌, arith, ◌==◌,
  if◌then◌else◌, length, take, length-append, append_assoc, take_all, All-append_right, drop-append,
  All, append-nil,
}
use gametunnel.Bytes.{
  Result, Error, ok, err, checksum_mismatch, need, need_met, slice, byte_at, slice_at, drop_at,
  byte_at-drop, IsSafe, IsSafe-need, IsSafe-slice, IsSafe-ok, IsSafe->>=, IsSafe-byte_at, IsByte,
  read-ok, need-eq-ok, slice-append, length-slice,
}
use gametunnel.Checksum.{crc32, crc32-lt, put_u32, u32_of, u32_of-put_u32, put_u32-u32_of}
use gametunnel.Protocol.Packet.{
  Message, protocol_version, encode, append_checksum, verify_checksum, decode, decode_checked,
  encode_checked, append_encode_checked,
}

pub decode-encode :
    (typ : ℕ) (payload : List ℕ)
    → decode (encode typ payload) ≡ ok (record { typ = typ; payload = payload })
unfolding decode encode
decode-encode typ payload =
    let buf = 1 ∷ typ ∷ payload in
    ground (
      arith,
      need_met buf 2 (omega arith),
      byte_at-drop buf 0 1 _ refl,
      byte_at-drop buf 1 typ _ refl,
      slice_at buf 2 (length buf) payload [] (omega arith) (omega arith) (sym (append-nil payload)),
    )

verify_checksum-append_checksum :
    (body : List ℕ) → 2 ≤ length body → verify_checksum (append_checksum body) ≡ ok body
unfolding verify_checksum append_checksum
verify_checksum-append_checksum body h =
    let sum = put_u32 (crc32 body) in
    let buf = body ++ sum in
    let n : length buf ≡ length body + 4 = length-append body sum in
    ground (
      arith,
      n,
      need_met buf 6 (omega (arith, n)),
      slice_at buf 0 (length buf - 4) body sum (omega arith) (omega (arith, n)) refl,
      slice_at buf (length buf - 4) (length buf) sum [] (omega arith) (omega (arith, n))
          (drop_at buf 0 (length buf - 4) body sum (omega (arith, n)) refl),
      u32_of-put_u32 (crc32 body) (crc32-lt body),
    )

encode_checked-append_checksum :
    (typ : ℕ) (payload : List ℕ) → encode_checked typ payload ≡ append_checksum (encode typ payload)
unfolding encode_checked append_checksum encode
encode_checked-append_checksum typ payload = refl

length-encode : (typ : ℕ) (payload : List ℕ) → 2 ≤ length (encode typ payload)
unfolding encode
length-encode typ payload = omega arith

pub verify_checksum-encode_checked :
    (typ : ℕ) (payload : List ℕ)
    → verify_checksum (encode_checked typ payload) ≡ ok (encode typ payload)
verify_checksum-encode_checked typ payload =
    rw (encode_checked-append_checksum typ payload)
      (verify_checksum-append_checksum (encode typ payload) (length-encode typ payload))

-- A packet with its checksum is decoded to the message it was made of.
pub decode_checked-encode_checked :
    (typ : ℕ) (payload : List ℕ)
    → decode_checked (encode_checked typ payload) ≡ ok (record { typ = typ; payload = payload })
unfolding decode_checked
decode_checked-encode_checked typ payload =
    rw
      (
        encode_checked-append_checksum typ payload,
        verify_checksum-append_checksum (encode typ payload) (length-encode typ payload),
      )
      (decode-encode typ payload)

-- The version that saves an allocation appends the same packet, whatever the buffer held before.
pub append_encode_checked-encode_checked :
    (dst : List ℕ) (typ : ℕ) (payload : List ℕ)
    → append_encode_checked dst typ payload ≡ dst ++ encode_checked typ payload
unfolding append_encode_checked encode_checked
append_encode_checked-encode_checked dst typ payload =
    rw (append_assoc dst (protocol_version ∷ typ ∷ []) payload, drop-append) (append_assoc dst _ _)

encode-decode : (buf : List ℕ) (m : Message) → decode buf ≡ ok m → encode m.typ m.payload ≡ buf
unfolding decode encode byte_at slice need
encode-decode [] m h = ground arith
encode-decode (b ∷ []) m h = ground arith
encode-decode (b ∷ c ∷ rest) m h = ground (arith, whole)
  where
    whole : take (length (b ∷ c ∷ rest) - 2) rest ≡ rest
    whole = let n : length (b ∷ c ∷ rest) - 2 ≡ length rest = omega arith in rw n (take_all rest)

checked :
    (buf front tail body : List ℕ)
    → All IsByte buf
    → 6 ≤ length buf
    → slice buf 0 (length buf - 4) ≡ ok front
    → slice buf (length buf - 4) (length buf) ≡ ok tail
    → (if crc32 front == u32_of tail then ok front else err checksum_mismatch) ≡ ok body
    → append_checksum body ≡ buf
unfolding append_checksum
checked buf front tail body a n e1 e2 h =
    let parts = slice-append buf (length buf - 4) front tail (omega arith) e1 e2 in
    let four = length-slice buf (length buf - 4) (length buf) tail (omega arith) (omega arith) e2 in
    let bytes : All IsByte tail = All-append_right IsByte front tail (rw (← parts) at a) in
    ground (arith, parts, put_u32-u32_of tail (omega (arith, four)) bytes)

append_checksum-verify_checksum :
    (buf body : List ℕ)
    → All IsByte buf
    → verify_checksum buf ≡ ok body
    → append_checksum body ≡ buf
unfolding verify_checksum append_checksum
append_checksum-verify_checksum buf body a h =
    let (u, e0, h0) = read-ok (need buf 6) _ h in
    let (front, e1, h1) = read-ok (slice buf 0 (length buf - 4)) _ h0 in
    let (tail, e2, h2) = read-ok (slice buf (length buf - 4) (length buf)) _ h1 in
    let n = need-eq-ok buf 6 e0 in checked buf front tail body a n e1 e2 h2

-- No other packet is accepted: bytes that are decoded are the packet of the message they give.
pub encode_checked-decode_checked :
    (buf : List ℕ) (m : Message)
    → All IsByte buf
    → decode_checked buf ≡ ok m
    → encode_checked m.typ m.payload ≡ buf
unfolding decode_checked
encode_checked-decode_checked buf m a h =
    let (body, e, h0) = read-ok (verify_checksum buf) _ h in
    rw (encode_checked-append_checksum m.typ m.payload, encode-decode body m h0)
      (append_checksum-verify_checksum buf body a e)

if_err-IsSafe {ℓ} :
    {A : Type ℓ} (b : Bool) (r : Result A) (e : Error) → IsSafe r → IsSafe (if b then r else err e)
if_err-IsSafe true r e h = h
if_err-IsSafe false r e h = λ p. cc

-- On no input does the decoder read out of range.
pub decode-IsSafe : (buf : List ℕ) → IsSafe (decode buf)
unfolding decode
decode-IsSafe buf = IsSafe-need buf _ _ λ long. IsSafe-byte_at buf _ _ (omega arith) λ version.
    if_err-IsSafe _ _ _ (
      IsSafe-byte_at buf _ _ (omega arith)
        λ typ. IsSafe-slice buf _ _ _ (omega arith) (omega arith) λ payload. IsSafe-ok _)

verify_checksum-IsSafe : (buf : List ℕ) → IsSafe (verify_checksum buf)
unfolding verify_checksum
verify_checksum-IsSafe buf = IsSafe-need buf _ _ λ long.
    IsSafe-slice buf _ _ _ (omega arith) (omega arith) λ body.
      IsSafe-slice buf _ _ _ (omega arith) (omega arith)
        λ tail. if_err-IsSafe _ (ok body) _ (IsSafe-ok body)

-- Nor does the one that checks the checksum first.
pub decode_checked-IsSafe : (buf : List ℕ) → IsSafe (decode_checked buf)
unfolding decode_checked
decode_checked-IsSafe buf = IsSafe->>= (verify_checksum-IsSafe buf) decode-IsSafe
