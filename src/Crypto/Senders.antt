-- ===== src/Crypto/Senders.antt =====
-- internal/crypto/crypto.go: one cipher that receives from several senders.
use gametunnel.Base.{ℕ, ◌+◌, ◌≤◌, ◌<◌, ◌^◌, ◌≡◌, refl, some, List, [], length, take, arith}
use gametunnel.Words.{le_of}
use gametunnel.Crypto.{
  Cipher, Aead, plain, failed, replay_detected, nonce_of, encrypt, open_packet, decrypt_into,
}
use gametunnel.Crypto.Session.{
  check_old_lem, length-nonce, le_of-nonce, encrypt_step, decrypt_into_above, decrypt_sealed,
}

open_packet_old :
    (aead : Aead) (nonce sealed : List ℕ) (c : Cipher)
    → le_of (take 8 nonce) + 64 ≤ c.replay_counter
    → (open_packet aead [] nonce sealed c).1 ≡ failed replay_detected
unfolding open_packet
open_packet_old aead nonce sealed c old =
    rw (open_packet, check_old_lem (le_of (take 8 nonce)) c old) refl

refused_behind :
    (aead : Aead)
    → ((nonce p : List ℕ) → length (aead.seal nonce p) ≡ length p + 16)
    → (b d : Cipher) (q : List ℕ) → length b.dir_tag ≡ 4
    → b.counter + 1 < 2 ^ 64
    → b.counter + 65 ≤ d.replay_counter
    → (decrypt_into aead [] (encrypt aead b q).1 d).1 ≡ failed replay_detected
refused_behind aead tagged b d q tag top behind =
    let nonce = nonce_of (b.counter + 1) b.dir_tag in
    rw
      (
        encrypt_step aead b q top,
        decrypt_into_above aead nonce (aead.seal nonce q) d
            (length-nonce (b.counter + 1) b.dir_tag tag) (omega (arith, tagged nonce q)),
      )
      (open_packet_old aead nonce (aead.seal nonce q) d
        (omega (arith, le_of-nonce (b.counter + 1) b.dir_tag top, behind)))

-- Two senders that share a key and a receiver: once a packet of the one is decrypted, a packet of the
-- other whose counter is 64 or more below is refused as a replay, though the receiver has never seen
-- it. The AEAD is assumed to open what it sealed, and to add a tag of 16 bytes.
pub decrypt_into-two_senders :
    (aead : Aead)
    → ((nonce p : List ℕ) → aead.open_ nonce (aead.seal nonce p) ≡ some p)
    → ((nonce p : List ℕ) → length (aead.seal nonce p) ≡ length p + 16)
    → (a b d : Cipher) (p q : List ℕ) → length a.dir_tag ≡ 4
    → length b.dir_tag ≡ 4
    → a.counter + 1 < 2 ^ 64
    → d.replay_counter ≤ a.counter
    → b.counter + 64 ≤ a.counter
    → let (after, first) = decrypt_into aead [] (encrypt aead a p).1 d in
      (first ≡ plain p)
      × ((decrypt_into aead [] (encrypt aead b q).1 after).1 ≡ failed replay_detected)
decrypt_into-two_senders aead opens tagged a b d p q ta tb top behind apart =
    let (result, at) =
      decrypt_sealed aead opens tagged (a.counter + 1) a.dir_tag p d ta top
        (omega (arith, behind)) in
    rw (encrypt_step aead a p top) (
      result,
      refused_behind aead tagged b _ q tb (omega (arith, apart)) (omega (arith, at, apart)),
    )
