-- ===== src/Crypto.antt =====
-- internal/crypto/crypto.go: encrypted packets and their protection against replays. The AEAD under
-- the key of the cipher is a parameter, since it is that of golang.org/x/crypto.
pub mod Window
pub mod Session
pub mod Senders
use gametunnel.Base.{
  ℕ, zero, suc, ◌+◌, ◌-◌, ◌%◌, ◌^◌, ◌≡◌, refl, Bool, true, false, not, Option, none, some, List, [],
  ◌∷◌, ◌++◌, ltb, leb, ◌==◌, if◌then◌else◌, length, replicate, take, drop,
}
use gametunnel.Words.{Word, get_bit, set_bit, shift_left, put_le, le_of, zero_word}

abbrev pub enc_version : ℕ
enc_version = 1

abbrev pub nonce_size : ℕ
nonce_size = 12

abbrev pub overhead : ℕ
overhead = 29

abbrev pub replay_window_size : ℕ
replay_window_size = 64

-- The state of a Cipher: the counter of the next nonce, the tag of its direction, and the window.
pub record Cipher : Type 0 where
  pub counter : ℕ  -- uint64
  pub dir_tag : List ℕ  -- [4]byte
  pub replay_counter : ℕ  -- uint64
  pub replay_bitmap : Word  -- uint64

-- Encryption and decryption of chacha20poly1305, by nonce, without additional data.
pub record Aead : Type 0 where
  pub seal : List ℕ → List ℕ → List ℕ
  pub open_ : List ℕ → List ℕ → Option (List ℕ)

-- NewCipher with the eight random bytes of initCounter, of which 48 bits are used.
unfoldable pub new_cipher : List ℕ → List ℕ → Cipher
unfolding le_of
new_cipher random dir_tag = record {
  counter = le_of random % 2 ^ 48;
  dir_tag = dir_tag;
  replay_counter = 0;
  replay_bitmap = zero_word;
}

unfoldable pub nonce_of : ℕ → List ℕ → List ℕ
unfolding put_le
nonce_of ctr dir_tag = put_le 8 ctr ++ dir_tag

-- `c.counter.Add(1)` and the nonce.
unfoldable pub make_nonce : Cipher → Cipher × List ℕ
unfolding nonce_of
make_nonce c =
    let ctr = (c.counter + 1) % 2 ^ 64 in (record c { counter = ctr }, nonce_of ctr c.dir_tag)

-- `(bitmap << shift) | 1`, or 1 where nothing of the window stays.
unfoldable pub moved_bitmap : ℕ → Word → Word
unfolding set_bit shift_left
moved_bitmap shift bitmap =
    if ltb shift replay_window_size
    then set_bit true (shift_left shift bitmap) 0
    else set_bit true zero_word 0

-- checkReplayWindow: the new state, and whether the counter is accepted.
unfoldable pub check_replay_window : ℕ → Cipher → Cipher × Bool
unfolding get_bit set_bit moved_bitmap
check_replay_window ctr c =
    if ltb c.replay_counter ctr
    then (
      record c {
        replay_counter = ctr;
        replay_bitmap = moved_bitmap (ctr - c.replay_counter) c.replay_bitmap;
      },
      true,
    )
    else (let diff = c.replay_counter - ctr in
        if leb replay_window_size diff
        then (c, false)
        else if get_bit c.replay_bitmap diff
        then (c, false)
        else (record c { replay_bitmap = set_bit true c.replay_bitmap diff }, true))

pub data CryptoError : Type 0 where
  data_too_short unsupported_enc_version replay_detected decrypt_failed : CryptoError
  dst_insufficient : CryptoError

pub data Decrypted : Type 0 where
  plain : List ℕ → Decrypted
  failed : CryptoError → Decrypted

module _ (aead : Aead) where
  -- Encrypt, for a plaintext that is not nil.
  unfoldable pub encrypt : Cipher → List ℕ → Cipher × List ℕ
  unfolding make_nonce
  encrypt c plaintext =
      let (c', nonce) = make_nonce c in (c', enc_version ∷ (nonce ++ aead.seal nonce plaintext))

  -- EncryptTo, with the capacity of `dst`; no nonce is used up where it does not suffice.
  unfoldable pub encrypt_to : ℕ → List ℕ → Cipher → List ℕ → Cipher × Option (List ℕ)
  unfolding make_nonce
  encrypt_to capacity dst c plaintext =
      if ltb (capacity - length dst) (overhead + length plaintext)
      then (c, none)
      else (let (c', nonce) = make_nonce c in
          (c', some (((dst ++ (enc_version ∷ [])) ++ nonce) ++ aead.seal nonce plaintext)))

  -- The counter is taken before the ciphertext is authenticated.
  unfoldable pub open_packet : List ℕ → List ℕ → List ℕ → Cipher → Cipher × Decrypted
  unfolding check_replay_window le_of
  open_packet dst nonce ciphertext c =
      let (c', fresh) = check_replay_window (le_of (take 8 nonce)) c in
      if fresh
      then (
        c',
        elim (aead.open_ nonce ciphertext) [
          | none ↦ failed decrypt_failed
          | some plaintext ↦ plain (dst ++ plaintext)
        ],
      )
      else (c', failed replay_detected)

  -- DecryptInto; Decrypt is DecryptInto with an empty `dst`.
  unfoldable pub decrypt_into : List ℕ → List ℕ → Cipher → Cipher × Decrypted
  unfolding open_packet
  decrypt_into dst buf c =
      if ltb (length buf) overhead then (c, failed data_too_short) else elim buf [
        | [] ↦ (c, failed data_too_short)
        | version ∷ rest ↦
            if version == enc_version
            then open_packet dst (take nonce_size rest) (drop nonce_size rest) c
            else (c, failed unsupported_enc_version)
      ]

-- IsEncrypted.
unfoldable pub is_encrypted : List ℕ → Bool
is_encrypted [] = false
is_encrypted (b ∷ bs) = b == enc_version
