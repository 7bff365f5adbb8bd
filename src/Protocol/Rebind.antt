-- ===== src/Protocol/Rebind.antt =====
-- internal/protocol/messages_rebind.go.
use gametunnel.Base.{
  ℕ, ◌+◌, ◌<◌, ◌≡◌, refl, Bool, true, false, none, some, List, [], ◌∷◌, ◌++◌, arith, length, drop,
  length-append, append_assoc, ◌==◌, if◌then◌else◌,
}
use gametunnel.Bytes.{
  Result, ok, ◌>>=◌, ◌>>◌, need, need_met, u16_at, byte_at, slice, put_u16, u16, u16_at-drop,
  byte_at-drop, slice_at, drop_at, IsSafe, IsSafe-need, IsSafe-byte_at, IsSafe-u16_at, IsSafe-slice,
  IsSafe-ok,
}
use gametunnel.Net.{Ip, to4, length-to4}

pub record RebindPayload : Type 0 where
  pub virtual_ip : Ip
  pub hmac : List ℕ

pub marshal_rebind : RebindPayload → List ℕ
marshal_rebind r = elim (to4 r.virtual_ip) [
  | none ↦ []
  | some vip ↦ vip ++ (put_u16 (u16 (length r.hmac)) ++ r.hmac)
]

pub unmarshal_rebind : List ℕ → Result RebindPayload
unmarshal_rebind buf = do
  need buf 6
  vip ← slice buf 0 4
  hmac_len ← u16_at buf 4
  need buf (6 + hmac_len)
  hmac ← if hmac_len == 0 then ok [] else slice buf 6 (6 + hmac_len)
  ok (record { virtual_ip = vip; hmac = hmac })

pub marshal_rebind_ack : Bool → List ℕ
marshal_rebind_ack success = if success then 1 ∷ [] else 0 ∷ []

pub unmarshal_rebind_ack : List ℕ → Result Bool
unmarshal_rebind_ack buf = do need buf 1; b ← byte_at buf 0; ok (b == 1)

module _ (vip hmac rest : List ℕ) (four : length vip ≡ 4) (h : length hmac < 65536) where
  abbrev wire : List ℕ
  wire = vip ++ (put_u16 (length hmac) ++ (hmac ++ rest))

  length-wire : length wire ≡ 6 + length hmac + length rest
  length-wire = omega (
    arith,
    four,
    length-append vip (put_u16 (length hmac) ++ (hmac ++ rest)),
    length-append hmac rest,
  )

  at_len : drop 4 wire ≡ put_u16 (length hmac) ++ (hmac ++ rest)
  at_len = drop_at wire 0 4 vip _ (omega (arith, four)) refl

  at_hmac : drop 6 wire ≡ hmac ++ rest
  at_hmac = drop_at wire 4 6 (put_u16 (length hmac)) _ refl at_len

  read_hmac : (if length hmac == 0 then ok [] else slice wire 6 (6 + length hmac)) ≡ ok hmac
  read_hmac =
      hmac_or (length hmac) hmac refl
        (slice_at wire 6 (6 + length hmac) hmac rest (omega (arith, length-wire)) refl at_hmac)
    where
      hmac_or :
          (n : ℕ) (m : List ℕ)
          → n ≡ length m
          → slice wire 6 (6 + n) ≡ ok m
          → (if n == 0 then ok [] else slice wire 6 (6 + n)) ≡ ok m
      hmac_or n [] e s = ground arith
      hmac_or n (x ∷ m) e s = ground arith

  read_wire : unmarshal_rebind wire ≡ ok (record { virtual_ip = vip; hmac = hmac })
  unfolding unmarshal_rebind
  read_wire = ground (
    arith,
    need_met wire 6 (omega (arith, length-wire)),
    slice_at wire 0 4 vip _ (omega arith) (omega (arith, four)) refl,
    u16_at-drop wire 4 (length hmac) _ h at_len,
    need_met wire (6 + length hmac) (omega (arith, length-wire)),
    read_hmac,
  )

-- A rebind request for an IPv4 address, with an HMAC of fewer than 65536 bytes, is read back with
-- the four bytes of the address and the same HMAC, whatever bytes follow it.
pub unmarshal_rebind-marshal_rebind :
    (r : RebindPayload) (vip rest : List ℕ)
    → to4 r.virtual_ip ≡ some vip
    → length r.hmac < 65536
    → unmarshal_rebind (marshal_rebind r ++ rest) ≡ ok (record { virtual_ip = vip; hmac = r.hmac })
unfolding marshal_rebind
unmarshal_rebind-marshal_rebind r vip rest v h =
    rw regroup (read_wire vip r.hmac rest (length-to4 r.virtual_ip vip v) h)
  where
    regroup : marshal_rebind r ++ rest ≡ vip ++ (put_u16 (length r.hmac) ++ (r.hmac ++ rest))
    regroup = rw (v, marshal_rebind, same_length) (append_assoc vip _ rest)
      where
        same_length : u16 (length r.hmac) ≡ length r.hmac
        same_length = omega arith

-- The answer to a rebind request is read back as it was sent.
pub unmarshal_rebind_ack-marshal_rebind_ack :
    (success : Bool) (rest : List ℕ)
    → unmarshal_rebind_ack (marshal_rebind_ack success ++ rest) ≡ ok success
unfolding unmarshal_rebind_ack marshal_rebind_ack
unmarshal_rebind_ack-marshal_rebind_ack true rest =
    ground (arith, need_met (1 ∷ rest) 1 (omega arith), byte_at-drop (1 ∷ rest) 0 1 rest refl)
unmarshal_rebind_ack-marshal_rebind_ack false rest =
    ground (arith, need_met (0 ∷ rest) 1 (omega arith), byte_at-drop (0 ∷ rest) 0 0 rest refl)

if_IsSafe :
    (b : Bool) (s : Result (List ℕ)) (k : List ℕ → Result RebindPayload)
    → IsSafe (s >>= k)
    → IsSafe (k [])
    → IsSafe ((if b then ok [] else s) >>= k)
if_IsSafe true s k h e = e
if_IsSafe false s k h e = h

-- On no input does the decoder of rebind requests read out of range.
pub unmarshal_rebind-IsSafe : (buf : List ℕ) → IsSafe (unmarshal_rebind buf)
unfolding unmarshal_rebind
unmarshal_rebind-IsSafe buf = IsSafe-need buf _ _ λ long.
    IsSafe-slice buf 0 4 _ (omega arith) (omega arith) λ vip.
      IsSafe-u16_at buf 4 _ (omega arith) λ hmac_len. IsSafe-need buf _ _ λ fits.
        if_IsSafe (hmac_len == 0) _ _
          (IsSafe-slice buf 6 _ _ (omega arith) (omega arith) λ hmac. IsSafe-ok _) (IsSafe-ok _)

-- On no input does the decoder of rebind answers read out of range.
pub unmarshal_rebind_ack-IsSafe : (buf : List ℕ) → IsSafe (unmarshal_rebind_ack buf)
unfolding unmarshal_rebind_ack
unmarshal_rebind_ack-IsSafe buf =
    IsSafe-need buf _ _ λ long. IsSafe-byte_at buf _ _ (omega arith) λ b. IsSafe-ok _
