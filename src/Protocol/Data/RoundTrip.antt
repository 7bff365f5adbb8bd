-- ===== src/Protocol/Data/RoundTrip.antt =====
-- The two writers and the reader of relayed packets against each other.
use gametunnel.Base.{
  ℕ, ◌+◌, ◌≡◌, refl, sym, ◌∙◌, some, inl, inr, List, [], ◌∷◌, ◌++◌, arith, if◌then◌else◌, length,
  drop, length-append, Bool-cases, append-nil,
}
use gametunnel.Bytes.{ok, need_met, slice_at, drop_at, byte_at-drop, drop_next}
use gametunnel.Net.{to4, length-to4}
use gametunnel.Protocol.Data.{
  has_token, data_offset, DataPayload, zero_token, token_part, marshal_data, marshal_size,
  data_header, data_token, unmarshal_data, data_format_version,
}

-- The packet behind two addresses of four bytes, in the current format.
module _ (v w token bytes : List ℕ) (flags : ℕ) (hv : length v ≡ 4) (hw : length w ≡ 4)
    (ht : length token ≡ (if has_token flags then 16 else 0)) where
  abbrev pub packet : List ℕ
  packet = v ++ (w ++ (data_format_version ∷ flags ∷ (token ++ bytes)))

  pub length-packet : length packet ≡ 10 + length token + length bytes
  length-packet = omega (
    arith,
    length-append v (w ++ (data_format_version ∷ flags ∷ (token ++ bytes))),
    length-append w (data_format_version ∷ flags ∷ (token ++ bytes)),
    length-append token bytes,
  )

  at_dst : drop 4 packet ≡ w ++ (data_format_version ∷ flags ∷ (token ++ bytes))
  at_dst = drop_at packet 0 4 v _ (omega arith) refl

  pub at_format : drop 8 packet ≡ data_format_version ∷ flags ∷ (token ++ bytes)
  at_format = drop_at packet 4 8 w _ (omega arith) at_dst

  pub at_flags : drop 9 packet ≡ flags ∷ (token ++ bytes)
  at_flags = drop_at packet 8 9 (data_format_version ∷ []) _ (omega arith) at_format

  pub at_token : drop 10 packet ≡ token ++ bytes
  at_token = drop_at packet 9 10 (flags ∷ []) _ (omega arith) at_flags

  at_bytes : drop (10 + length token) packet ≡ bytes
  at_bytes = drop_next packet 10 token bytes at_token

  offset_packet : data_offset packet ≡ ok (10 + length token)
  unfolding data_offset
  offset_packet = ground (
    arith,
    length-packet,
    ht,
    byte_at-drop packet 8 data_format_version _ at_format,
    byte_at-drop packet 9 flags _ at_flags,
  )

  header_packet : data_header packet (10 + length token) ≡ ok (flags, data_format_version)
  unfolding data_header
  header_packet = ground (
    arith,
    byte_at-drop packet 8 data_format_version _ at_format,
    byte_at-drop packet 9 flags _ at_flags,
  )

  token_packet :
      (before : List ℕ)
      → data_token packet flags before ≡ ok (if has_token flags then token else before)
  unfolding data_token
  token_packet before = elim (Bool-cases (has_token flags)) [
    | inl e ↦
        let t : length token ≡ 16 = (rw e at ht) in
        rw e (
          ground (
            arith,
            length-packet,
            slice_at packet 10 26 token bytes (omega (arith, length-packet)) (omega arith) at_token,
          ))
    | inr e ↦ rw e
  ]

  pub read_packet :
      unmarshal_data packet
      ≡ ok (record {
        src_ip = v;
        dst_ip = w;
        format_ver = data_format_version;
        flags = flags;
        token = if has_token flags then token else zero_token;
        bytes = bytes;
      })
  unfolding unmarshal_data
  read_packet = ground (
    arith,
    length-packet,
    need_met packet 8 (omega (arith, length-packet)),
    slice_at packet 0 4 v _ (omega arith) (omega arith) refl,
    slice_at packet 4 8 w _ (omega (arith, length-packet)) (omega arith) at_dst,
    offset_packet,
    need_met packet (10 + length token) (omega (arith, length-packet)),
    header_packet,
    token_packet zero_token,
    slice_at packet (10 + length token) (length packet) bytes [] (omega (arith, length-packet))
        (omega (arith, length-packet)) (at_bytes ∙ sym (append-nil bytes)),
  )

-- A token array has sixteen bytes, so what is written of it has 16 or none.
pub length-token_part :
    (d : DataPayload)
    → length d.token ≡ 16
    → length (token_part d) ≡ (if has_token d.flags then 16 else 0)
length-token_part d h = ground arith

-- A packet between IPv4 addresses is written and read back: the addresses in their 4-byte form,
-- the current format version, the flags and data as they were, and the token where the flags
-- announce one, else zeroes.
pub unmarshal_data-marshal_data :
    (d : DataPayload) (v w : List ℕ)
    → to4 d.src_ip ≡ some v
    → to4 d.dst_ip ≡ some w
    → length d.token ≡ 16
    → (buf : List ℕ) × (marshal_data d ≡ some buf)
      × (length buf ≡ marshal_size d)
      × (unmarshal_data buf
          ≡ ok (record {
            src_ip = v;
            dst_ip = w;
            format_ver = data_format_version;
            flags = d.flags;
            token = if has_token d.flags then d.token else zero_token;
            bytes = d.bytes;
          }))
unfolding marshal_data marshal_size
unmarshal_data-marshal_data d v w ev ew ht = (
  packet v w (token_part d) d.bytes d.flags hv hw hp,
  rw (ev, ew, marshal_data),
  ground (arith, length-packet v w (token_part d) d.bytes d.flags hv hw hp, hp),
  ground (arith, read_packet v w (token_part d) d.bytes d.flags hv hw hp),
)
  where
    hv : length v ≡ 4
    hv = length-to4 _ v ev

    hw : length w ≡ 4
    hw = length-to4 _ w ew

    hp : length (token_part d) ≡ (if has_token d.flags then 16 else 0)
    hp = length-token_part d ht
