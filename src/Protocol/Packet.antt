-- ===== src/Protocol/Packet.antt =====
-- internal/protocol/protocol.go: the frame of every packet and the versions of the program.
pub mod RoundTrip
use gametunnel.Base.{
  ℕ, ◌+◌, ◌-◌, ◌*◌, ◌/◌, ◌%◌, ◌≤◌, ◌<◌, ◌≡◌, refl, sym, ap, ◌∙◌, Bool, true, false, not, ◌&&◌, ◌||◌,
  List, [], ◌∷◌, ◌++◌, arith, ltb, leb, ◌==◌, if◌then◌else◌, length, drop, take, length-append,
  length-drop, length-take, drop-append, take-append, All, Bool-cases, inl, inr, ◌≢◌, append-nil,
}
use gametunnel.Bytes.{
  Result, ok, err, unsupported_version, checksum_mismatch, ◌>>=◌, ◌>>◌, need, need_met, slice,
  byte_at, slice_at, drop_at, byte_at-drop, IsSafe, IsSafe-need, IsSafe-slice, IsSafe-ok,
  IsSafe->>=, IsSafe-byte_at, if-IsSafe, IsByte, read-ok, need-eq-ok, slice_within,
}
use gametunnel.Checksum.{crc32, crc32-lt, put_u32, u32_of, u32_of-put_u32, put_u32-u32_of}

abbrev pub protocol_version : ℕ
protocol_version = 1

abbrev pub app_version : ℕ
app_version = 0x0110

abbrev pub min_token_version : ℕ
min_token_version = 0x0107

abbrev pub header_len : ℕ
header_len = 2

abbrev pub checksum_len : ℕ
checksum_len = 4

pub record Message : Type 0 where
  pub typ : ℕ
  pub payload : List ℕ

unfoldable pub encode : ℕ → List ℕ → List ℕ
encode typ payload = protocol_version ∷ typ ∷ payload

pub append_checksum : List ℕ → List ℕ
append_checksum packet = packet ++ put_u32 (crc32 packet)

pub verify_checksum : List ℕ → Result (List ℕ)
verify_checksum buf = do
  need buf (header_len + checksum_len)
  body ← slice buf 0 (length buf - checksum_len)
  tail ← slice buf (length buf - checksum_len) (length buf)
  if crc32 body == u32_of tail then ok body else err checksum_mismatch

unfoldable pub message_of : List ℕ → Result Message
message_of buf = do
  typ ← byte_at buf 1
  payload ← slice buf header_len (length buf)
  ok (record { typ = typ; payload = payload })

unfoldable pub decode : List ℕ → Result Message
unfolding message_of
decode buf = do
  need buf header_len
  version ← byte_at buf 0
  if version == protocol_version then message_of buf else err unsupported_version

pub decode_checked : List ℕ → Result Message
decode_checked buf = do body ← verify_checksum buf; decode body

unfoldable pub encode_checked : ℕ → List ℕ → List ℕ
encode_checked typ payload =
    let buf = protocol_version ∷ typ ∷ payload in buf ++ put_u32 (crc32 buf)

-- The checksum is taken of what stands behind the old content of `dst`.
pub append_encode_checked : List ℕ → ℕ → List ℕ → List ℕ
append_encode_checked dst typ payload =
    let buf = (dst ++ (protocol_version ∷ typ ∷ [])) ++ payload in
    buf ++ put_u32 (crc32 (drop (length dst) buf))

unfoldable pub version_major : ℕ → ℕ
version_major v = v / 256

unfoldable pub version_minor : ℕ → ℕ
version_minor v = v % 256

unfoldable pub is_compatible : ℕ → ℕ → Bool
unfolding version_major version_minor
is_compatible client_ver server_ver =
    if client_ver == 0 || server_ver == 0
    then true
    else if not (version_major client_ver == version_major server_ver)
    then false
    else leb (version_minor client_ver) (version_minor server_ver)

-- A client that a server accepts is accepted by every later server of the same major version.
pub is_compatible_later :
    (client old new : ℕ)
    → is_compatible client old ≡ true
    → old ≢ 0
    → version_major old ≡ version_major new
    → old ≤ new
    → is_compatible client new ≡ true
unfolding is_compatible
is_compatible_later client old new h o e l = ground arith
