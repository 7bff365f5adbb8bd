-- ===== src/Protocol/Auth.antt =====
-- internal/protocol/messages_auth.go: the challenge and the response to it.
use gametunnel.Base.{
  ℕ, ◌+◌, ◌<◌, ◌≤◌, ◌≡◌, List, ◌++◌, arith, ltb, length, drop, length-append, append_assoc, Bool,
  true, false,
}
use gametunnel.Bytes.{
  Result, ok, packet_too_short, ◌>>=◌, ◌>>◌, fail_if, need, need_met, u16_at, slice, put_u16,
  u16_at-drop, slice-drop, drop_next, IsSafe, IsSafe-need, IsSafe-u16_at, IsSafe-slice, IsSafe-ok,
}
use gametunnel.Bytes.Fields.{
  fields, length-fields, at_tail, first_len, first_read, second_len, second_read,
}

pub record AuthChallengePayload : Type 0 where
  pub challenge : List ℕ
  pub client_addr : List ℕ

pub marshal_auth_challenge : AuthChallengePayload → List ℕ
marshal_auth_challenge a =
    put_u16 (length a.challenge)
    ++ (a.challenge ++ (put_u16 (length a.client_addr) ++ a.client_addr))

pub unmarshal_auth_challenge : List ℕ → Result AuthChallengePayload
unmarshal_auth_challenge buf = do
  need buf 2
  clen ← u16_at buf 0
  need buf (2 + clen + 2)
  challenge ← slice buf 2 (2 + clen)
  addr_len ← u16_at buf (2 + clen)
  need buf (2 + clen + 2 + addr_len)
  client_addr ← slice buf (2 + clen + 2) (2 + clen + 2 + addr_len)
  ok (record { challenge = challenge; client_addr = client_addr })

pub record AuthResponsePayload : Type 0 where
  pub room_id : List ℕ
  pub username : List ℕ
  pub hmac : List ℕ

pub marshal_auth_response : AuthResponsePayload → List ℕ
marshal_auth_response a =
    put_u16 (length a.room_id)
    ++ (a.room_id
        ++ (put_u16 (length a.username) ++ (a.username ++ (put_u16 (length a.hmac) ++ a.hmac))))

pub unmarshal_auth_response : List ℕ → Result AuthResponsePayload
unmarshal_auth_response buf = do
  need buf 4
  room_len ← u16_at buf 0
  need buf (2 + room_len + 2)
  room_id ← slice buf 2 (2 + room_len)
  user_len ← u16_at buf (2 + room_len)
  need buf (2 + room_len + 2 + user_len + 2)
  username ← slice buf (2 + room_len + 2) (2 + room_len + 2 + user_len)
  hmac_len ← u16_at buf (2 + room_len + 2 + user_len)
  need buf (2 + room_len + 2 + user_len + 2 + hmac_len)
  fail_if (ltb hmac_len 32) packet_too_short
  hmac ← slice buf (2 + room_len + 2 + user_len + 2) (2 + room_len + 2 + user_len + 2 + hmac_len)
  ok (record { room_id = room_id; username = username; hmac = hmac })

-- A challenge is read back as it was sent, whatever bytes follow it.
pub unmarshal_auth_challenge-marshal_auth_challenge :
    (a : AuthChallengePayload) (rest : List ℕ)
    → length a.challenge < 65536
    → length a.client_addr < 65536
    → unmarshal_auth_challenge (marshal_auth_challenge a ++ rest) ≡ ok a
unfolding marshal_auth_challenge unmarshal_auth_challenge
unmarshal_auth_challenge-marshal_auth_challenge a rest hc ha =
    let c = a.challenge in
    let d = a.client_addr in
    let buf = fields c d rest hc ha in
    let size = length-fields c d rest hc ha in
    simp append_assoc (
      ground (
        arith,
        size,
        need_met buf 2 (omega (arith, size)),
        need_met buf (2 + length c + 2) (omega (arith, size)),
        need_met buf (2 + length c + 2 + length d) (omega (arith, size)),
        first_len c d rest hc ha,
        first_read c d rest hc ha,
        second_len c d rest hc ha,
        second_read c d rest hc ha,
      ))

module _ (room user hmac rest : List ℕ) (hr : length room < 65536) (hu : length user < 65536)
    (hm : length hmac < 65536) (long : 32 ≤ length hmac) where
  abbrev tail : List ℕ
  tail = put_u16 (length hmac) ++ (hmac ++ rest)

  abbrev response : List ℕ
  response = fields room user tail hr hu

  abbrev hmac_off : ℕ
  hmac_off = 2 + length room + 2 + length user + 2

  at_hmac : drop hmac_off response ≡ hmac ++ rest
  at_hmac = drop_next response _ (put_u16 (length hmac)) _ (at_tail room user tail hr hu)

  length-response : length response ≡ hmac_off + length hmac + length rest
  length-response = omega (arith, length-fields room user tail hr hu, length-append hmac rest)

  read_response :
      unmarshal_auth_response response
      ≡ ok (record { room_id = room; username = user; hmac = hmac })
  unfolding unmarshal_auth_response
  read_response = ground (
    arith,
    need_met response 4 (omega (arith, length-response)),
    need_met response (2 + length room + 2) (omega (arith, length-response)),
    need_met response hmac_off (omega (arith, length-response)),
    need_met response (hmac_off + length hmac) (omega (arith, length-response)),
    first_len room user tail hr hu,
    first_read room user tail hr hu,
    second_len room user tail hr hu,
    second_read room user tail hr hu,
    u16_at-drop response _ (length hmac) _ hm (at_tail room user tail hr hu),
    slice-drop response hmac_off hmac rest (omega (arith, length-response)) at_hmac,
  )

-- A response with an HMAC of 32 bytes or more is read back as it was sent, whatever bytes follow.
pub unmarshal_auth_response-marshal_auth_response :
    (a : AuthResponsePayload) (rest : List ℕ)
    → length a.room_id < 65536
    → length a.username < 65536
    → length a.hmac < 65536
    → 32 ≤ length a.hmac
    → unmarshal_auth_response (marshal_auth_response a ++ rest) ≡ ok a
unfolding marshal_auth_response
unmarshal_auth_response-marshal_auth_response a rest hr hu hm long =
    simp append_assoc (read_response a.room_id a.username a.hmac rest hr hu hm long)

-- On no input does the decoder of challenges read out of range.
pub unmarshal_auth_challenge-IsSafe : (buf : List ℕ) → IsSafe (unmarshal_auth_challenge buf)
unfolding unmarshal_auth_challenge
unmarshal_auth_challenge-IsSafe buf = IsSafe-need buf _ _ λ long.
    IsSafe-u16_at buf 0 _ (omega arith) λ clen. IsSafe-need buf _ _ λ fits.
      IsSafe-slice buf 2 _ _ (omega arith) (omega arith) λ challenge.
        IsSafe-u16_at buf _ _ (omega arith) λ addr_len.
          IsSafe-need buf _ _ λ addr_fits.
            IsSafe-slice buf _ _ _ (omega arith) (omega arith) λ client_addr. IsSafe-ok _

fail_if-IsSafe {ℓ} :
    {A : Type ℓ} (b : Bool) (k : Result A) → IsSafe k → IsSafe (fail_if b packet_too_short >> k)
fail_if-IsSafe true k h = λ p. cc
fail_if-IsSafe false k h = h

-- On no input does the decoder of responses read out of range.
pub unmarshal_auth_response-IsSafe : (buf : List ℕ) → IsSafe (unmarshal_auth_response buf)
unfolding unmarshal_auth_response
unmarshal_auth_response-IsSafe buf = IsSafe-need buf _ _ λ long.
    IsSafe-u16_at buf 0 _ (omega arith) λ room_len. IsSafe-need buf _ _ λ room_fits.
      IsSafe-slice buf 2 _ _ (omega arith) (omega arith) λ room_id.
        IsSafe-u16_at buf _ _ (omega arith) λ user_len. IsSafe-need buf _ _ λ user_fits.
          IsSafe-slice buf _ _ _ (omega arith) (omega arith) λ username.
            IsSafe-u16_at buf _ _ (omega arith) λ hmac_len. IsSafe-need buf _ _ λ hmac_fits.
              fail_if-IsSafe (ltb hmac_len 32) _
                (IsSafe-slice buf _ _ _ (omega arith) (omega arith) λ hmac. IsSafe-ok _)
