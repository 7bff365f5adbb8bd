-- ===== src/Crypto/Session.antt =====
-- Packets from one cipher to another, and packets that are forged.
use gametunnel.Base.{
  Bool-cases, inl, inr, ◌==◌, ltb, ℕ, ◌+◌, ◌%◌, ◌^◌, ◌≤◌, ◌<◌, ◌≡◌, refl, ap, ◌∙◌, true, false,
  none, some, List, [], ◌∷◌, ◌++◌, map, length, take, drop, arith, length-append, take-append,
  drop-append,
}
use gametunnel.Words.{put_le, le_of, length-put_le, le_of-put_le}
use gametunnel.Crypto.{
  overhead, Cipher, Aead, make_nonce, nonce_of, check_replay_window, encrypt, open_packet,
  decrypt_into, Decrypted, plain, failed, decrypt_failed, enc_version,
}

take_append_at : {A : Type 0} (n : ℕ) (xs ys : List A) → length xs ≡ n → take n (xs ++ ys) ≡ xs
take_append_at n xs ys e = rw (← e) (take-append xs ys)

-- A counter above the highest is accepted and becomes the highest.
check_above_lem :
    (ctr : ℕ) (c : Cipher)
    → c.replay_counter < ctr
    → ((check_replay_window ctr c).1 ≡ true) × ((check_replay_window ctr c).0.replay_counter ≡ ctr)
unfolding check_replay_window
check_above_lem ctr c h = ground arith

pub check_old_lem :
    (ctr : ℕ) (c : Cipher) → ctr + 64 ≤ c.replay_counter → (check_replay_window ctr c).1 ≡ false
unfolding check_replay_window
check_old_lem ctr c h = ground arith

pub length-nonce :
    (ctr : ℕ) (dir_tag : List ℕ) → length dir_tag ≡ 4 → length (nonce_of ctr dir_tag) ≡ 12
unfolding nonce_of
length-nonce ctr dir_tag h = omega (arith, h)

pub le_of-nonce :
    (ctr : ℕ) (dir_tag : List ℕ) → ctr < 2 ^ 64 → le_of (take 8 (nonce_of ctr dir_tag)) ≡ ctr
unfolding nonce_of
le_of-nonce ctr dir_tag h =
    rw (take_append_at 8 (put_le 8 ctr) dir_tag (length-put_le 8 ctr)) (le_of-put_le 8 ctr h)

pub encrypt_step :
    (aead : Aead) (c : Cipher) (p : List ℕ)
    → c.counter + 1 < 2 ^ 64
    → encrypt aead c p ≡ (
      record c { counter = c.counter + 1 },
      enc_version
          ∷ (nonce_of (c.counter + 1) c.dir_tag
              ++ aead.seal (nonce_of (c.counter + 1) c.dir_tag) p),
    )
unfolding encrypt make_nonce
encrypt_step aead c p h = rw same refl
  where
    same : (c.counter + 1) % 2 ^ 64 ≡ c.counter + 1
    same = omega arith

drop_append_at : {A : Type 0} (n : ℕ) (xs ys : List A) → length xs ≡ n → drop n (xs ++ ys) ≡ ys
drop_append_at n xs ys e = rw (← e) (drop-append xs ys)

module _ (aead : Aead) where
  unfoldable pub encrypt_all : Cipher → List (List ℕ) → List (List ℕ)
  encrypt_all c [] = []
  encrypt_all c (p ∷ ps) = (encrypt aead c p).1 ∷ encrypt_all (encrypt aead c p).0 ps

  unfoldable pub decrypt_all : Cipher → List (List ℕ) → List Decrypted
  decrypt_all c [] = []
  decrypt_all c (p ∷ ps) =
      (decrypt_into aead [] p c).1 ∷ decrypt_all (decrypt_into aead [] p c).0 ps

  -- The packet with this nonce is opened, where its counter is above the highest.
  pub decrypt_into_above :
      (nonce sealed : List ℕ) (c : Cipher)
      → length nonce ≡ 12
      → 16 ≤ length sealed
      → decrypt_into aead [] (enc_version ∷ (nonce ++ sealed)) c
        ≡ open_packet aead [] nonce sealed c
  unfolding decrypt_into
  decrypt_into_above nonce sealed c n l = ground (
    arith,
    length-append nonce sealed,
    take_append_at 12 nonce sealed n,
    drop_append_at 12 nonce sealed n,
  )

  open_packet_above :
      (nonce sealed : List ℕ) (c : Cipher)
      → c.replay_counter < le_of (take 8 nonce)
      → ((open_packet aead [] nonce sealed c).0.replay_counter ≡ le_of (take 8 nonce))
        × ((open_packet aead [] nonce sealed c).1
            ≡ (elim (aead.open_ nonce sealed) as (λ _. Decrypted) [
              | none ↦ failed decrypt_failed
              | some p ↦ plain p
            ]))
  unfolding open_packet
  open_packet_above nonce sealed c h =
      let (fresh, top) = check_above_lem (le_of (take 8 nonce)) c h in rw fresh (top, refl)

  module _ (opens : (nonce p : List ℕ) → aead.open_ nonce (aead.seal nonce p) ≡ some p)
      (tagged : (nonce p : List ℕ) → length (aead.seal nonce p) ≡ length p + 16) where
    pub decrypt_sealed :
        (ctr : ℕ) (dir_tag p : List ℕ) (d : Cipher)
        → length dir_tag ≡ 4
        → ctr < 2 ^ 64
        → d.replay_counter < ctr
        → let received =
            decrypt_into aead []
              (enc_version ∷ (nonce_of ctr dir_tag ++ aead.seal (nonce_of ctr dir_tag) p))
              d in
          (received.1 ≡ plain p) × (received.0.replay_counter ≡ ctr)
    decrypt_sealed ctr dir_tag p d tag small behind =
        let nonce = nonce_of ctr dir_tag in
        let (top, result) =
          open_packet_above nonce (aead.seal nonce p) d
            (omega (arith, le_of-nonce ctr dir_tag small)) in
        rw
          (decrypt_into_above nonce (aead.seal nonce p) d (length-nonce ctr dir_tag tag)
            (omega (arith, tagged nonce p)))
          (result ∙ (rw (opens nonce p) refl), top ∙ le_of-nonce ctr dir_tag small)

    decrypt_all_from :
        (ps : List (List ℕ)) (c d : Cipher)
        → length c.dir_tag ≡ 4
        → c.counter + length ps < 2 ^ 64
        → d.replay_counter ≤ c.counter
        → decrypt_all d (encrypt_all c ps) ≡ map plain ps
    unfolding decrypt_all encrypt_all
    decrypt_all_from [] c d tag small behind = refl
    decrypt_all_from (p ∷ ps) c d tag small behind =
        let (result, top) =
          decrypt_sealed (c.counter + 1) c.dir_tag p d tag (omega arith) (omega arith) in
        rw (encrypt_step aead c p (omega arith), result)
          (ap (◌∷◌ (plain p)) (
            decrypt_all_from ps (record c { counter = c.counter + 1 }) _ tag (omega arith)
              (omega (arith, top))))

-- A session: what one cipher encrypts, packet by packet, another that is not ahead of it decrypts in
-- the same order, as long as the sender's counter does not wrap. The AEAD is assumed to open what it
-- sealed, and to add a tag of 16 bytes.
pub decrypt_all-encrypt_all :
    (aead : Aead)
    → ((nonce p : List ℕ) → aead.open_ nonce (aead.seal nonce p) ≡ some p)
    → ((nonce p : List ℕ) → length (aead.seal nonce p) ≡ length p + 16)
    → (ps : List (List ℕ)) (c d : Cipher) → length c.dir_tag ≡ 4
    → c.counter + length ps < 2 ^ 64
    → d.replay_counter ≤ c.counter
    → decrypt_all aead d (encrypt_all aead c ps) ≡ map plain ps
decrypt_all-encrypt_all aead opens tagged ps c d = decrypt_all_from aead opens tagged ps c d

check_replay_window-le :
    (ctr : ℕ) (c : Cipher) → c.replay_counter ≤ (check_replay_window ctr c).0.replay_counter
unfolding check_replay_window
check_replay_window-le ctr c = ground arith

open_packet-le :
    (aead : Aead) (nonce sealed : List ℕ) (c : Cipher)
    → c.replay_counter ≤ (open_packet aead [] nonce sealed c).0.replay_counter
unfolding open_packet
open_packet-le aead nonce sealed c =
    let up = check_replay_window-le (le_of (take 8 nonce)) c in
    elim (Bool-cases (check_replay_window (le_of (take 8 nonce)) c).1) [
      | inl t ↦ rw (open_packet, t) up
      | inr t ↦ rw (open_packet, t) up
    ]

-- The highest counter of a cipher never goes down.
decrypt_into-le :
    (aead : Aead) (buf : List ℕ) (c : Cipher)
    → c.replay_counter ≤ (decrypt_into aead [] buf c).0.replay_counter
unfolding decrypt_into
decrypt_into-le aead [] c = elim (Bool-cases (ltb 0 overhead)) [
  | inl t ↦ omega arith
  | inr t ↦ omega arith
]
decrypt_into-le aead (version ∷ rest) c =
    elim (Bool-cases (ltb (length (version ∷ rest)) overhead)) [
      | inl t ↦ rw (decrypt_into, t) (omega arith)
      | inr t ↦ elim (Bool-cases (version == enc_version)) [
        | inl e ↦ rw (decrypt_into, t, e) (open_packet-le aead (take 12 rest) (drop 12 rest) c)
        | inr e ↦ rw (decrypt_into, t, e) (omega arith)
      ]
    ]

-- The cipher after some more packets.
unfoldable pub receive_all : Aead → List (List ℕ) → Cipher → Cipher
receive_all aead [] c = c
receive_all aead (buf ∷ bufs) c = receive_all aead bufs (decrypt_into aead [] buf c).0

receive_all-le :
    (aead : Aead) (bufs : List (List ℕ)) (c : Cipher)
    → c.replay_counter ≤ (receive_all aead bufs c).replay_counter
unfolding receive_all
receive_all-le aead [] c = omega arith
receive_all-le aead (buf ∷ bufs) c =
    omega
      (arith, decrypt_into-le aead buf c, receive_all-le aead bufs (decrypt_into aead [] buf c).0)

-- A forged packet moves the window: where its counter is above the highest and the AEAD refuses it, it
-- is answered with an error, but its counter becomes the highest, and after any further packets every
-- counter that is 64 or more below it is refused.
pub decrypt_into-forged :
    (aead : Aead) (nonce sealed : List ℕ) (c : Cipher) (ctr : ℕ) (later : List (List ℕ))
    → length nonce ≡ 12
    → 16 ≤ length sealed
    → aead.open_ nonce sealed ≡ none
    → c.replay_counter < le_of (take 8 nonce)
    → ctr + 64 ≤ le_of (take 8 nonce)
    → let (after, answer) = decrypt_into aead [] (enc_version ∷ (nonce ++ sealed)) c in
      (answer ≡ failed decrypt_failed)
      × (after.replay_counter ≡ le_of (take 8 nonce))
      × ((check_replay_window ctr (receive_all aead later after)).1 ≡ false)
decrypt_into-forged aead nonce sealed c ctr later n l bad above old =
    let (top, result) = open_packet_above aead nonce sealed c above in
    rw (decrypt_into_above aead nonce sealed c n l) (
      result ∙ (rw bad refl),
      top,
      check_old_lem ctr _ (
          omega
            (arith, top, old, receive_all-le aead later (open_packet aead [] nonce sealed c).0)),
    )
