-- ===== src/Protocol/Data/Buffer.antt =====
-- The writer into a buffer of the caller.
use gametunnel.Base.{
  ℕ, ◌+◌, ◌≤◌, ◌≡◌, refl, sym, ap, ◌∙◌, true, false, some, inl, inr, List, [], ◌∷◌, ◌++◌, arith,
  length, drop, length-append, length-drop, append_assoc, Bool-cases, drop-drop,
}
use gametunnel.Bytes.{ok}
use gametunnel.Net.{to4, length-to4}
use gametunnel.Protocol.Data.RoundTrip.{length-packet, length-token_part}
use gametunnel.Protocol.Data.{
  has_token, DataPayload, token_part, marshal_data, copy, copy_at, copy_bytes, marshal_to,
  data_format_version,
}

-- What is written into a buffer of the caller.
copy-fits :
    (dst src : List ℕ) → length src ≤ length dst → copy dst src ≡ src ++ drop (length src) dst
unfolding copy
copy-fits dst [] h = refl
copy-fits [] (y ∷ ys) h = absurd (omega arith)
copy-fits (x ∷ dst) (y ∷ ys) h = ap (◌∷◌ y) (copy-fits dst ys (omega arith))

copy_at-append :
    (pre dst src : List ℕ)
    → length src ≤ length dst
    → copy_at (length pre) (pre ++ dst) src ≡ pre ++ (src ++ drop (length src) dst)
unfolding copy_at
copy_at-append [] dst src h = copy-fits dst src h
copy_at-append (x ∷ pre) dst src h = ap (◌∷◌ x) (copy_at-append pre dst src h)

-- The buffer holds `pre` and, behind it, what it held before; the next copy appends to `pre`.
fill :
    (off : ℕ) (pre dst src : List ℕ)
    → off ≡ length pre
    → length pre + length src ≤ length dst
    → copy_at off (pre ++ drop off dst) src ≡ (pre ++ src) ++ drop (off + length src) dst
fill off pre dst src n h = rw n (
    copy_at-append pre (drop (length pre) dst) src (omega (arith, length-drop (length pre) dst))
    ∙ rw (drop-drop (length pre) (length src) dst) (sym (append_assoc pre src _)))

-- The buffer after the header and, where there is one, the token.
module _ (v w : List ℕ) (dst : List ℕ) (flags : ℕ) (hv : length v ≡ 4) (hw : length w ≡ 4)
    (hd : 10 ≤ length dst) where
  abbrev written : List ℕ
  written = (v ++ w) ++ (data_format_version ∷ flags ∷ [])

  length-written : length written ≡ 10
  length-written =
      omega (arith, length-append (v ++ w) (data_format_version ∷ flags ∷ []), length-append v w)

  header_written :
      copy_at 8 (copy_at 4 (copy_at 0 dst v) w) (data_format_version ∷ flags ∷ [])
      ≡ written ++ drop 10 dst
  header_written =
      rw (fill 0 [] dst v refl (omega arith), hv)
        (rw (fill 4 v dst w (omega arith) (omega arith), hw)
          (fill 8 (v ++ w) dst (data_format_version ∷ flags ∷ []) (omega (arith, length-append v w))
            (omega (arith, length-append v w))))

copied :
    (off : ℕ) (pre dst bytes : List ℕ)
    → off ≡ length pre
    → off + length bytes ≤ length dst
    → copy_bytes off (pre ++ drop off dst) bytes
      ≡ ok ((pre ++ bytes) ++ drop (off + length bytes) dst, off + length bytes)
unfolding copy_bytes
copied off pre dst bytes n h = ground (
  arith,
  fill off pre dst bytes n (omega arith),
  length-append pre (drop off dst),
  length-drop off dst,
)

addresses_of :
    (d : DataPayload) (buf : List ℕ)
    → marshal_data d ≡ some buf
    → (v : List ℕ) × (w : List ℕ) × (to4 d.src_ip ≡ some v)
      × (to4 d.dst_ip ≡ some w)
      × (buf ≡ v ++ (w ++ (data_format_version ∷ d.flags ∷ (token_part d ++ d.bytes))))
unfolding marshal_data
addresses_of d buf e = ground arith

-- With a token, and without one.
module _ (d : DataPayload) (v w dst : List ℕ) (ev : to4 d.src_ip ≡ some v)
    (ew : to4 d.dst_ip ≡ some w) where
  hv : length v ≡ 4
  hv = length-to4 _ v ev

  hw : length w ≡ 4
  hw = length-to4 _ w ew

  to_with_token :
      has_token d.flags ≡ true
      → length d.token ≡ 16
      → (long : 26 + length d.bytes ≤ length dst)
      → marshal_to d dst
        ≡ ok (
          ((written v w dst d.flags hv hw (omega arith) ++ d.token) ++ d.bytes)
              ++ drop (26 + length d.bytes) dst,
          26 + length d.bytes,
        )
  unfolding marshal_to
  to_with_token t ht long = ground (
    arith,
    header_written v w dst d.flags hv hw (omega arith),
    fill 10 head dst d.token (omega (arith, length-head)) (omega (arith, length-head)),
    copied 26 (head ++ d.token) dst d.bytes (omega (arith, length-head, length-append head d.token))
        long,
  )
    where
      head : List ℕ
      head = written v w dst d.flags hv hw (omega arith)

      length-head : length head ≡ 10
      length-head = length-written v w dst d.flags hv hw (omega arith)

  to_without_token :
      has_token d.flags ≡ false
      → (long : 10 + length d.bytes ≤ length dst)
      → marshal_to d dst
        ≡ ok (
          (written v w dst d.flags hv hw (omega arith) ++ d.bytes)
              ++ drop (10 + length d.bytes) dst,
          10 + length d.bytes,
        )
  unfolding marshal_to
  to_without_token t long = ground (
    arith,
    header_written v w dst d.flags hv hw (omega arith),
    copied 10 (written v w dst d.flags hv hw (omega arith)) dst d.bytes
        (omega (arith, length-written v w dst d.flags hv hw (omega arith))) long,
  )

regroup :
    (v w : List ℕ) (flags : ℕ) (token bytes : List ℕ)
    → v ++ (w ++ (data_format_version ∷ flags ∷ (token ++ bytes)))
      ≡ (((v ++ w) ++ (data_format_version ∷ flags ∷ [])) ++ token) ++ bytes
regroup v w flags token bytes = simp append_assoc

regroup_bare :
    (v w : List ℕ) (flags : ℕ) (bytes : List ℕ)
    → v ++ (w ++ (data_format_version ∷ flags ∷ bytes))
      ≡ ((v ++ w) ++ (data_format_version ∷ flags ∷ [])) ++ bytes
regroup_bare v w flags bytes = simp append_assoc

-- A buffer that holds the packet and more: `marshal_to` writes at its front what `marshal_data`
-- returns, keeps the bytes behind that, and returns the size of the packet.
pub marshal_to-marshal_data :
    (d : DataPayload) (dst buf : List ℕ)
    → length d.token ≡ 16
    → marshal_data d ≡ some buf
    → length buf ≤ length dst
    → marshal_to d dst ≡ ok (buf ++ drop (length buf) dst, length buf)
marshal_to-marshal_data d dst buf ht e h =
    let (v, w, ev, ew, eb) = addresses_of d buf e in
    let hv = length-to4 _ v ev in
    let hw = length-to4 _ w ew in
    let size =
      ap length eb
      ∙ length-packet v w (token_part d) d.bytes d.flags hv hw (length-token_part d ht) in
    elim (Bool-cases (has_token d.flags)) [
      | inl t ↦
          let n : length buf ≡ 26 + length d.bytes = ground (arith, size) in
          rw (n, eb, t, regroup v w d.flags d.token d.bytes)
            (to_with_token d v w dst ev ew t ht (omega arith))
      | inr t ↦
          let n : length buf ≡ 10 + length d.bytes = ground (arith, size) in
          rw (n, eb, t, regroup_bare v w d.flags d.bytes)
            (to_without_token d v w dst ev ew t (omega arith))
    ]
