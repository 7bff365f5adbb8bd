-- ===== src/Protocol/Kick.antt =====
-- internal/protocol/messages.go, KickPayload.
use gametunnel.Base.{
  ℕ, ◌+◌, ◌<◌, ◌≡◌, refl, List, [], ◌∷◌, ◌++◌, arith, length, drop, length-append, append_assoc,
  append-nil,
}
use gametunnel.Bytes.{
  Result, ok, ◌>>=◌, ◌>>◌, need, need_met, u16_at, slice, put_u16, u16_at-drop, slice-drop,
  drop_next, opt_byte_at, opt_byte_at-drop, opt_byte_at_none, opt_byte_at-IsSafe, IsSafe,
  IsSafe-need, IsSafe-u16_at, IsSafe-slice, IsSafe-ok, IsSafe->>=,
}

-- KickCode is a byte: the four codes, as the constants give them.
abbrev pub kick_code_none : ℕ
kick_code_none = 0

abbrev pub kick_code_wrong_password : ℕ
kick_code_wrong_password = 1

abbrev pub kick_code_version_mismatch : ℕ
kick_code_version_mismatch = 2

abbrev pub kick_code_shutdown : ℕ
kick_code_shutdown = 3

pub record KickPayload : Type 0 where
  pub reason : List ℕ
  pub code : ℕ

pub marshal_kick : KickPayload → List ℕ
marshal_kick k = put_u16 (length k.reason) ++ (k.reason ++ (k.code ∷ []))

pub unmarshal_kick : List ℕ → Result KickPayload
unmarshal_kick buf = do
  need buf 2
  reason_len ← u16_at buf 0
  need buf (2 + reason_len)
  reason ← slice buf 2 (2 + reason_len)
  code ← opt_byte_at buf (2 + reason_len)
  ok (record { reason = reason; code = code })

module _ (reason tail : List ℕ) (h : length reason < 65536) where
  abbrev message : List ℕ
  message = put_u16 (length reason) ++ (reason ++ tail)

  length-message : length message ≡ 2 + length reason + length tail
  length-message = omega (arith, length-append reason tail)

  at_code : drop (2 + length reason) message ≡ tail
  at_code = drop_next message 2 reason tail refl

  read_reason :
      (code : ℕ)
      → opt_byte_at message (2 + length reason) ≡ ok code
      → unmarshal_kick message ≡ ok (record { reason = reason; code = code })
  unfolding unmarshal_kick
  read_reason code hc = ground (
    arith,
    need_met message 2 (omega (arith, length-message)),
    need_met message (2 + length reason) (omega (arith, length-message)),
    u16_at-drop message 0 (length reason) _ h refl,
    slice-drop message 2 reason tail (omega arith) refl,
    hc,
  )

-- A kick is read back as it was sent, whatever bytes follow it.
pub unmarshal_kick-marshal_kick :
    (k : KickPayload) (rest : List ℕ)
    → length k.reason < 65536
    → unmarshal_kick (marshal_kick k ++ rest) ≡ ok k
unfolding marshal_kick
unmarshal_kick-marshal_kick k rest h = rw regroup (
    read_reason k.reason (k.code ∷ rest) h k.code (
      opt_byte_at-drop _ _ k.code rest (omega (arith, length-message k.reason (k.code ∷ rest) h))
        (at_code k.reason (k.code ∷ rest) h)))
  where
    regroup : marshal_kick k ++ rest ≡ put_u16 (length k.reason) ++ (k.reason ++ (k.code ∷ rest))
    regroup = simp append_assoc

-- A kick of an old server, which sends no code, is read with the code 0.
pub unmarshal_kick-old_server :
    (reason : List ℕ)
    → length reason < 65536
    → unmarshal_kick (put_u16 (length reason) ++ reason)
      ≡ ok (record { reason = reason; code = kick_code_none })
unmarshal_kick-old_server reason h =
    let e : reason ++ [] ≡ reason = append-nil reason in
    rw e at
      (read_reason reason [] h 0 (opt_byte_at_none _ _ (omega (arith, length-message reason [] h))))

-- On no input does the decoder read out of range.
pub unmarshal_kick-IsSafe : (buf : List ℕ) → IsSafe (unmarshal_kick buf)
unfolding unmarshal_kick
unmarshal_kick-IsSafe buf = IsSafe-need buf _ _ λ long.
    IsSafe-u16_at buf 0 _ (omega arith) λ reason_len. IsSafe-need buf _ _ λ fits.
      IsSafe-slice buf 2 _ _ (omega arith) (omega arith)
        λ reason. IsSafe->>= (opt_byte_at-IsSafe buf _) λ code. IsSafe-ok _
