-- ===== src/Protocol/Data/Pooled.antt =====
-- Pooled objects, buffers of the caller, and what the server's check of tokens reads.
use gametunnel.Base.{ℕ, ◌≤◌, ◌≡◌, refl, true, List, arith, length, ◌⊎◌}
use gametunnel.Bytes.{
  ok, need, slice, IsSafe, IsSafe-need, IsSafe-slice, IsSafe-ok, IsSafe->>=, IsSafe->>=_ok, read-ok,
  need-eq-ok, slice_within, byte_at_within,
}
use gametunnel.Protocol.Data.{
  has_token, data_offset, parse_data_header, DataPayload, put_data_payload, data_header, data_token,
  unmarshal_data, unmarshal_data_pooled, data_format_version, zero_token,
}

-- An object that was put back to the pool carries nothing of its last packet into the next: the
-- pooled decoder gives the result of the one that allocates, on every input.
pub unmarshal_data_pooled-put_data_payload :
    (dp : DataPayload) (buf : List ℕ)
    → unmarshal_data_pooled (put_data_payload dp) buf ≡ unmarshal_data buf
unfolding unmarshal_data_pooled put_data_payload unmarshal_data
unmarshal_data_pooled-put_data_payload dp buf = refl

-- What a successful decode has read.
record Reads (buf : List ℕ) (d : DataPayload) : Type 0 where
  off : ℕ
  long : 8 ≤ length buf
  src_read : slice buf 0 4 ≡ ok d.src_ip
  dst_read : slice buf 4 8 ≡ ok d.dst_ip
  off_read : data_offset buf ≡ ok off
  within : off ≤ length buf
  header_read : data_header buf off ≡ ok (d.flags, d.format_ver)
  token_read : data_token buf d.flags zero_token ≡ ok d.token
  bytes_read : slice buf off (length buf) ≡ ok d.bytes

unmarshal_data-Reads : (buf : List ℕ) (d : DataPayload) → unmarshal_data buf ≡ ok d → Reads buf d
unfolding unmarshal_data
unmarshal_data-Reads buf d h =
    let (u0, e0, h0) = read-ok (need buf 8) _ h in
    let (src, e1, h1) = read-ok (slice buf 0 4) _ h0 in
    let (dst, e2, h2) = read-ok (slice buf 4 8) _ h1 in
    let (off, e3, h3) = read-ok (data_offset buf) _ h2 in
    let (u4, e4, h4) = read-ok (need buf off) _ h3 in
    let (head, e5, h5) = read-ok (data_header buf off) _ h4 in
    let (token, e6, h6) = read-ok (data_token buf head.0 zero_token) _ h5 in
    let (bytes, e7, h7) = read-ok (slice buf off (length buf)) _ h6 in
    record {
      off = off;
      long = need-eq-ok buf 8 e0;
      src_read = ground arith;
      dst_read = ground arith;
      off_read = e3;
      within = need-eq-ok buf off e4;
      header_read = ground arith;
      token_read = ground arith;
      bytes_read = ground arith;
    }

-- The server's check of tokens and the decoder agree on packets of the current format: the header
-- parser finds the flags that are decoded, and the token at offset 10 that is decoded.
pub parse_data_header-unmarshal_data :
    (buf : List ℕ) (d : DataPayload)
    → unmarshal_data buf ≡ ok d
    → d.format_ver ≡ data_format_version
    → (parse_data_header buf ≡ ok (d.flags, 10, true))
      × (has_token d.flags ≡ true → slice buf 10 26 ≡ ok d.token)
unfolding parse_data_header data_offset data_header data_token
parse_data_header-unmarshal_data buf d h e =
    let r = unmarshal_data-Reads buf d h in ground (arith, r)

-- The offset is that of the old format, or past the two bytes of the new one's header.
data_offset_cases : (buf : List ℕ) (off : ℕ) → data_offset buf ≡ ok off → (off ≡ 8) ⊎ (10 ≤ off)
unfolding data_offset
data_offset_cases buf off h = ground arith

data_offset-IsSafe : (buf : List ℕ) → IsSafe (data_offset buf)
unfolding data_offset
data_offset-IsSafe buf = λ p. ground (arith, byte_at_within buf 8, byte_at_within buf 9)

data_header-IsSafe :
    (buf : List ℕ) (off : ℕ)
    → off ≤ length buf
    → data_offset buf ≡ ok off
    → IsSafe (data_header buf off)
unfolding data_header
data_header-IsSafe buf off h e =
    λ p. ground (arith, data_offset_cases buf off e, byte_at_within buf 8, byte_at_within buf 9)

data_token-IsSafe : (buf : List ℕ) (flags : ℕ) (t : List ℕ) → IsSafe (data_token buf flags t)
unfolding data_token
data_token-IsSafe buf flags t = λ p. ground (arith, slice_within buf 10 26)

-- On no input does the decoder read out of range.
pub unmarshal_data-IsSafe : (buf : List ℕ) → IsSafe (unmarshal_data buf)
unfolding unmarshal_data
unmarshal_data-IsSafe buf = IsSafe-need buf _ _ λ long.
    IsSafe-slice buf _ _ _ (omega arith) (omega arith) λ src.
      IsSafe-slice buf _ _ _ (omega arith) (omega arith) λ dst.
        IsSafe->>=_ok (data_offset-IsSafe buf) λ off e. IsSafe-need buf _ _ λ within.
          IsSafe->>= (data_header-IsSafe buf off within e) λ head.
            IsSafe->>= (data_token-IsSafe buf _ _)
              λ token. IsSafe-slice buf _ _ _ within (omega arith) λ bytes. IsSafe-ok _

-- Nor does the one that decodes into an object of the pool, whatever that object holds.
pub unmarshal_data_pooled-IsSafe :
    (dp : DataPayload) (buf : List ℕ) → IsSafe (unmarshal_data_pooled dp buf)
unfolding unmarshal_data_pooled
unmarshal_data_pooled-IsSafe dp buf = IsSafe-need buf _ _ λ long.
    IsSafe-slice buf _ _ _ (omega arith) (omega arith) λ src.
      IsSafe-slice buf _ _ _ (omega arith) (omega arith) λ dst.
        IsSafe->>=_ok (data_offset-IsSafe buf) λ off e. IsSafe-need buf _ _ λ within.
          IsSafe->>= (data_header-IsSafe buf off within e) λ head.
            IsSafe->>= (data_token-IsSafe buf _ _)
              λ token. IsSafe-slice buf _ _ _ within (omega arith) λ bytes. IsSafe-ok _
