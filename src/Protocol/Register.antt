-- ===== src/Protocol/Register.antt =====
-- internal/protocol/messages.go, RegisterPayload. The buffer that Go allocates and fills by writes
-- at rising offsets is the concatenation of what is written; Go strings are their bytes.
use gametunnel.Base.{ℕ, ◌+◌, ◌<◌, ◌≡◌, List, [], ◌++◌, arith, length, append_assoc, append-nil}
use gametunnel.Bytes.{
  Result, ok, ◌>>=◌, ◌>>◌, need, need_met, u16_at, opt_u16_at, opt_u16_at-drop, opt_u16_at_none,
  opt_u16_at-IsSafe, slice, put_u16, IsSafe, IsSafe-need, IsSafe->>=, IsSafe-u16_at, IsSafe-slice,
  IsSafe-ok,
}
use gametunnel.Bytes.Fields.{
  fields, second_off, length-fields, at_tail, first_len, first_read, second_len, second_read,
}

pub record RegisterPayload : Type 0 where
  pub room_id : List ℕ
  pub username : List ℕ
  pub version : ℕ  -- uint16

unfoldable pub marshal_register : RegisterPayload → List ℕ
marshal_register r =
    put_u16 (length r.room_id)
    ++ (r.room_id ++ (put_u16 (length r.username) ++ (r.username ++ put_u16 r.version)))

unfoldable pub unmarshal_register : List ℕ → Result RegisterPayload
unmarshal_register buf = do
  need buf 4
  room_len ← u16_at buf 0
  need buf (2 + room_len + 2)
  room_id ← slice buf 2 (2 + room_len)
  user_len ← u16_at buf (2 + room_len)
  need buf (2 + room_len + 2 + user_len)
  username ← slice buf (2 + room_len + 2) (2 + room_len + 2 + user_len)
  version ← opt_u16_at buf (2 + room_len + 2 + user_len)
  ok (record { room_id = room_id; username = username; version = version })

-- Lengths and the version fit their uint16 fields.
pub record IsEncodable (r : RegisterPayload) : Type 0 where
  pub room_fits : length r.room_id < 65536
  pub user_fits : length r.username < 65536
  pub version_fits : r.version < 65536

module _ (room user tail : List ℕ) (hr : length room < 65536) (hu : length user < 65536) where
  read_fields :
      (version : ℕ)
      → opt_u16_at (fields room user tail hr hu) (second_off room user tail hr hu + length user)
        ≡ ok version
      → unmarshal_register (fields room user tail hr hu)
        ≡ ok (record { room_id = room; username = user; version = version })
  unfolding unmarshal_register
  read_fields version hv =
      let buf = fields room user tail hr hu in
      let size = length-fields room user tail hr hu in
      ground (
        arith,
        size,
        need_met buf 4 (omega (arith, size)),
        need_met buf (2 + length room + 2) (omega (arith, size)),
        need_met buf (2 + length room + 2 + length user) (omega (arith, size)),
        first_len room user tail hr hu,
        first_read room user tail hr hu,
        second_len room user tail hr hu,
        second_read room user tail hr hu,
        hv,
      )

-- A register message is read back as it was sent, whatever bytes follow it.
pub unmarshal_register-marshal_register :
    (r : RegisterPayload) (rest : List ℕ)
    → IsEncodable r
    → unmarshal_register (marshal_register r ++ rest) ≡ ok r
unfolding marshal_register
unmarshal_register-marshal_register r rest h = rw regroup (
    read_fields r.room_id r.username tail h.room_fits h.user_fits r.version (
      opt_u16_at-drop _ _ r.version rest h.version_fits
        (omega (arith, length-fields r.room_id r.username tail h.room_fits h.user_fits))
        (at_tail r.room_id r.username tail h.room_fits h.user_fits)))
  where
    tail : List ℕ
    tail = put_u16 r.version ++ rest

    regroup : marshal_register r ++ rest ≡ fields r.room_id r.username tail h.room_fits h.user_fits
    regroup = simp append_assoc

-- A message without the version, as old clients send it, is read with version 0.
pub unmarshal_register-old_client :
    (room user : List ℕ)
    → length room < 65536
    → length user < 65536
    → unmarshal_register (put_u16 (length room) ++ (room ++ (put_u16 (length user) ++ user)))
      ≡ ok (record { room_id = room; username = user; version = 0 })
unmarshal_register-old_client room user hr hu =
    let e : user ++ [] ≡ user = append-nil user in
    rw e at (
      read_fields room user [] hr hu 0
        (opt_u16_at_none _ _ (omega (arith, length-fields room user [] hr hu))))

-- On no input at all does the decoder read out of range.
pub unmarshal_register-IsSafe : (buf : List ℕ) → IsSafe (unmarshal_register buf)
unfolding unmarshal_register
unmarshal_register-IsSafe buf = IsSafe-need buf _ _ λ long.
    IsSafe-u16_at buf 0 _ (omega arith) λ room_len. IsSafe-need buf _ _ λ room.
      IsSafe-slice buf 2 _ _ (omega arith) (omega arith) λ room_id.
        IsSafe-u16_at buf _ _ (omega arith) λ user_len. IsSafe-need buf _ _ λ user.
          IsSafe-slice buf _ _ _ (omega arith) (omega arith)
            λ username. IsSafe->>= (opt_u16_at-IsSafe buf _) λ version. IsSafe-ok _
