-- ===== src/Server/Room/Password.antt =====
-- What a client has to show before handleAuthResponse of internal/server/room_auth.go admits it.
use gametunnel.Base.{
  ℕ, ◌-◌, ◌≡◌, refl, true, false, some, List, ltb, length, ◌==◌, Bool-cases, Option-cases,
  if◌then◌else◌, ◌⊎◌, inl, inr, [],
}
use gametunnel.Bytes.{Result, ok, err, panic}
use gametunnel.Net.{UdpAddr, addr_to_rate_key}
use gametunnel.Protocol.Auth.{AuthResponsePayload, unmarshal_auth_response}
use gametunnel.Server.Room.{Room, Env, Crypto, Output}
use gametunnel.Server.Room.Helpers.{cleanup_pending_auth, send_kick, send_kick_code}
use gametunnel.Server.Room.Auth.{
  Found, Located, pending, mismatch, missing, locate, get_auth_key, check_response,
  challenge_lifetime, respond_located, handle_auth_response,
}

module _ (crypto : Crypto) (env : Env) (from : UdpAddr) (r : Room) where
  -- The challenge of the entry is not older than 15 seconds, and the HMAC of the response is right
  -- for it, under the key of the room and for the address that the challenge was sent to.
  abbrev pub IsVerified : AuthResponsePayload → Found → Type 0
  IsVerified resp f =
      let c = r.heap f.ref in
      (ltb challenge_lifetime (env.now - c.challenge_at) ≡ false)
      × ((key : List ℕ) × (get_auth_key crypto r c.auth_room_id ≡ some key)
          × (crypto.verify_hmac key resp.hmac c.challenge resp.room_id resp.username c.public_addr
              ≡ true))

  check_response-IsVerified :
      (resp : AuthResponsePayload) (f : Found)
      → ((check_response crypto env resp from f r).0.clients ≡ r.clients) ⊎ IsVerified resp f
  unfolding check_response cleanup_pending_auth send_kick send_kick_code
  check_response-IsVerified resp f =
      let c = r.heap f.ref in
      elim (Bool-cases (ltb challenge_lifetime (env.now - c.challenge_at))) [
        | inl late ↦ rw late (inl refl)
        | inr fresh ↦ elim (Option-cases (get_auth_key crypto r c.auth_room_id)) [
          | inl e ↦ rw (fresh, e) (inl refl)
          | inr (key, e) ↦
              elim (Bool-cases (
                crypto.verify_hmac key resp.hmac c.challenge resp.room_id resp.username
                  c.public_addr)) [
                    | inl right ↦ inr (fresh, (key, e, right))
                    | inr wrong ↦ rw (fresh, e, wrong) (inl refl)
                  ]
        ]
      ]

  -- The pending entry that the response is for, and what it shows for it.
  abbrev pub IsAnswered : List ℕ → Type 0
  IsAnswered payload =
      (resp : AuthResponsePayload) × (f : Found) × (unmarshal_auth_response payload ≡ ok resp)
      × (locate (addr_to_rate_key from) resp r ≡ pending f)
      × IsVerified resp f

  located :
      (payload : List ℕ) (resp : AuthResponsePayload) (l : Located)
      → unmarshal_auth_response payload ≡ ok resp
      → locate (addr_to_rate_key from) resp r ≡ l
      → ((respond_located crypto env resp from r l).0.clients ≡ r.clients) ⊎ IsAnswered payload
  unfolding respond_located cleanup_pending_auth send_kick send_kick_code
  located payload resp missing e h = inl refl
  located payload resp (mismatch p) e h = inl refl
  located payload resp (pending f) e h = elim (check_response-IsVerified resp f) [
    | inl same ↦ inl same
    | inr verified ↦ inr (resp, f, e, h, verified)
  ]

-- An authentication response changes the table of clients only if it decodes, a pending entry is
-- found for it, the challenge of this entry is not older than 15 seconds, and its HMAC is right for
-- that challenge under the key of the room; on every other input the table stays as it was.
pub handle_auth_response-IsAnswered :
    (crypto : Crypto) (env : Env) (payload : List ℕ) (from : UdpAddr) (r : Room)
    → ((handle_auth_response crypto env payload from r).0.clients ≡ r.clients)
      ⊎ IsAnswered crypto env from r payload
unfolding handle_auth_response
handle_auth_response-IsAnswered crypto env payload from r =
    go (unmarshal_auth_response payload) refl
  where
    go :
        (res : Result AuthResponsePayload)
        → unmarshal_auth_response payload ≡ res
        → ((elim res as (λ _. Room × List Output) [
          | ok resp ↦
              if length resp.hmac == 32
              then respond_located crypto env resp from r (locate (addr_to_rate_key from) resp r)
              else (r, [])
          | err e ↦ (r, [])
          | panic ↦ (r, [])
        ]).0.clients
            ≡ r.clients)
          ⊎ IsAnswered crypto env from r payload
    go (ok resp) e = elim (Bool-cases (length resp.hmac == 32)) [
      | inl t ↦ rw t (located crypto env from r payload resp _ e refl)
      | inr f ↦ rw f (inl refl)
    ]
    go (err x) e = inl refl
    go panic e = inl refl
