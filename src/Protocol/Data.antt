-- ===== src/Protocol/Data.antt =====
-- internal/protocol/messages_data.go: the relayed packet. `bytes` is the field Data.
pub mod RoundTrip
pub mod Buffer
pub mod Pooled
use Prim.Native.Nat.{bit_and}
use gametunnel.Base.{
  ℕ, zero, suc, ◌+◌, ◌-◌, ◌≡◌, Bool, true, false, not, Option, none, some, List, [], ◌∷◌, ◌++◌, ltb,
  ◌==◌, if◌then◌else◌, length, replicate, leb, ◌&&◌, take, drop, Bool,
}
use gametunnel.Bytes.{Result, ok, err, panic, packet_too_short, ◌>>=◌, ◌>>◌, need, slice, byte_at}
use gametunnel.Net.{Ip, to4}

abbrev pub data_header_len : ℕ
data_header_len = 10

abbrev pub data_token_len : ℕ
data_token_len = 16

abbrev pub data_format_version : ℕ
data_format_version = 1

-- `flags & DataFlagHasToken != 0`
unfoldable pub has_token : ℕ → Bool
has_token flags = not (bit_and flags 2 == 0)

-- Flags, the offset of the token, and whether the format has a version byte.
unfoldable pub parse_data_header : List ℕ → Result (ℕ × ℕ × Bool)
parse_data_header buf =
    if leb (length buf) 8
    then ok (0, 0, false)
    else (byte_at buf 8 >>= λ ver.
        if ver == data_format_version
        then (if ltb 9 (length buf)
            then (byte_at buf 9 >>= λ flags. ok (flags, data_header_len, true))
            else ok (0, data_header_len, true))
        else ok (ver, 9, false))

unfoldable pub data_offset : List ℕ → Result ℕ
data_offset buf =
    if ltb 8 (length buf)
    then (byte_at buf 8 >>= λ ver.
        if ver == data_format_version
        then (if ltb 9 (length buf)
            then (byte_at buf 9 >>= λ flags.
                ok (if has_token flags then data_header_len + data_token_len else data_header_len))
            else ok data_header_len)
        else ok 8)
    else ok 8

pub record DataPayload : Type 0 where
  pub src_ip : Ip
  pub dst_ip : Ip
  pub format_ver : ℕ
  pub flags : ℕ
  pub token : List ℕ  -- [16]byte
  pub bytes : List ℕ

abbrev pub zero_token : List ℕ
zero_token = replicate 16 0

-- The object as it goes back to the pool.
unfoldable pub put_data_payload : DataPayload → DataPayload
put_data_payload dp = record {
  src_ip = [];
  dst_ip = [];
  format_ver = 0;
  flags = 0;
  token = zero_token;
  bytes = [];
}

abbrev token_part : DataPayload → List ℕ
token_part d = if has_token d.flags then d.token else []

unfoldable pub marshal_data : DataPayload → Option (List ℕ)
marshal_data d = elim (to4 d.src_ip) [
  | none ↦ none
  | some src ↦ elim (to4 d.dst_ip) [
    | none ↦ none
    | some dst ↦ some (src ++ (dst ++ (data_format_version ∷ d.flags ∷ (token_part d ++ d.bytes))))
  ]
]

unfoldable pub marshal_size : DataPayload → ℕ
marshal_size d =
    let size = data_header_len + length d.bytes in
    if has_token d.flags then size + data_token_len else size

-- `copy(dst, src)` stops at the shorter of the two.
pub copy : List ℕ → List ℕ → List ℕ
copy xs [] = xs
copy [] (y ∷ ys) = []
copy (x ∷ xs) (y ∷ ys) = y ∷ copy xs ys

-- `copy(dst[off:], src)`, for an offset within `dst`.
pub copy_at : ℕ → List ℕ → List ℕ → List ℕ
copy_at zero dst src = copy dst src
copy_at (suc n) [] src = []
copy_at (suc n) (x ∷ dst) src = x ∷ copy_at n dst src

-- The last copy: `dst[off:]` is out of range if `dst` is shorter than `off`.
unfoldable pub copy_bytes : ℕ → List ℕ → List ℕ → Result (List ℕ × ℕ)
unfolding copy_at
copy_bytes off dst src =
    if ltb (length dst) off
    then panic
    else ok (
      copy_at off dst src,
      off + (if ltb (length dst - off) (length src) then length dst - off else length src),
    )

-- The written slice and the number of bytes.
unfoldable pub marshal_to : DataPayload → List ℕ → Result (List ℕ × ℕ)
unfolding copy_bytes
marshal_to d dst = elim (to4 d.src_ip) [
  | none ↦ ok (dst, 0)
  | some src ↦ elim (to4 d.dst_ip) [
    | none ↦ ok (dst, 0)
    | some dst_ip ↦
        if ltb (length dst) data_header_len
        then ok (dst, 0)
        else (let head =
              copy_at 8 (copy_at 4 (copy_at 0 dst src) dst_ip)
                (data_format_version ∷ d.flags ∷ []) in
            if has_token d.flags
            then copy_bytes (data_header_len + data_token_len)
                (copy_at data_header_len head d.token) d.bytes
            else copy_bytes data_header_len head d.bytes)
  ]
]

-- `dp.Flags, dp.FormatVer`, set only where the data does not start right behind the addresses.
unfoldable pub data_header : List ℕ → ℕ → Result (ℕ × ℕ)
data_header buf off =
    if off == 8
    then ok (0, 0)
    else (byte_at buf 9 >>= λ flags. byte_at buf 8 >>= λ ver. ok (flags, ver))

-- The token, or what the object held before.
unfoldable pub data_token : List ℕ → ℕ → List ℕ → Result (List ℕ)
data_token buf flags before =
    if has_token flags && leb (data_header_len + data_token_len) (length buf)
    then slice buf data_header_len (data_header_len + data_token_len)
    else ok before

unfoldable pub unmarshal_data : List ℕ → Result DataPayload
unmarshal_data buf = do
  need buf 8
  src ← slice buf 0 4
  dst ← slice buf 4 8
  off ← data_offset buf
  need buf off
  (flags, ver) ← data_header buf off
  token ← data_token buf flags zero_token
  bytes ← slice buf off (length buf)
  ok (record {
    src_ip = src;
    dst_ip = dst;
    format_ver = ver;
    flags = flags;
    token = token;
    bytes = bytes;
  })

-- The decoder that fills an object `dp` of the pool. Its address and data fields are resized and
-- overwritten whole, its flags and version are set on both branches, and its token is overwritten
-- only where the packet has one.
unfoldable pub unmarshal_data_pooled : DataPayload → List ℕ → Result DataPayload
unmarshal_data_pooled dp buf = do
  need buf 8
  src ← slice buf 0 4
  dst ← slice buf 4 8
  off ← data_offset buf
  need buf off
  (flags, ver) ← data_header buf off
  token ← data_token buf flags dp.token
  bytes ← slice buf off (length buf)
  ok (record {
    src_ip = src;
    dst_ip = dst;
    format_ver = ver;
    flags = flags;
    token = token;
    bytes = bytes;
  })
