-- ===== src/Bytes/Fields.antt =====
-- Two fields behind their uint16 lengths at the front of a buffer, as several messages begin:
-- what the reads of a decoder return there.
use gametunnel.Base.{ℕ, ◌+◌, ◌<◌, ◌≡◌, refl, List, ◌++◌, arith, length, drop, length-append}
use gametunnel.Bytes.Reads.{ok, u16_at, slice, put_u16, u16_at-drop, slice-drop, drop_next}

module _ (a b tail : List ℕ) (ha : length a < 65536) (hb : length b < 65536) where
  abbrev pub fields : List ℕ
  fields = put_u16 (length a) ++ (a ++ (put_u16 (length b) ++ (b ++ tail)))

  abbrev pub second_off : ℕ
  second_off = 2 + length a + 2

  pub length-fields : length fields ≡ second_off + length b + length tail
  length-fields =
      omega (arith, length-append a (put_u16 (length b) ++ (b ++ tail)), length-append b tail)

  at_second_len : drop (2 + length a) fields ≡ put_u16 (length b) ++ (b ++ tail)
  at_second_len = drop_next fields 2 a _ refl

  at_second : drop second_off fields ≡ b ++ tail
  at_second = drop_next fields (2 + length a) (put_u16 (length b)) _ at_second_len

  pub at_tail : drop (second_off + length b) fields ≡ tail
  at_tail = drop_next fields second_off b tail at_second

  pub first_len : u16_at fields 0 ≡ ok (length a)
  first_len = u16_at-drop fields 0 (length a) _ ha refl

  pub first_read : slice fields 2 (2 + length a) ≡ ok a
  first_read = slice-drop fields 2 a _ (omega arith) refl

  pub second_len : u16_at fields (2 + length a) ≡ ok (length b)
  second_len = u16_at-drop fields (2 + length a) (length b) _ hb at_second_len

  pub second_read : slice fields second_off (second_off + length b) ≡ ok b
  second_read = slice-drop fields second_off b tail (omega (arith, length-fields)) at_second
