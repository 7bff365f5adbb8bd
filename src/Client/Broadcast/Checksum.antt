-- ===== src/Client/Broadcast/Checksum.antt =====
-- The checksum of a rewritten packet.
use gametunnel.Base.{
  ℕ, zero, suc, ◌+◌, ◌-◌, ◌*◌, ◌/◌, ◌%◌, ◌≤◌, ◌<◌, ◌≡◌, refl, ap, sym, ◌∙◌, some, true, List, [],
  ◌∷◌, ◌++◌, length, take, drop, arith, All, take-append, length-append, length-take, length-drop,
}
use gametunnel.Bytes.{IsByte, drop_at, ok}
use gametunnel.Net.{IpNet, to4}
use gametunnel.Client.Route.{broadcast_of}
use gametunnel.Client.Broadcast.{
  word_sum, fold_sum, header_len_of, with_fields, header_checksum, redirect, is_limited_broadcast,
  rewrite_broadcast,
}

-- The ones' complement sum of the words of the header, as a receiver computes it.
unfoldable pub verified_sum : List ℕ → ℕ
unfolding word_sum fold_sum
verified_sum pkt = fold_sum 2 (word_sum (take (header_len_of pkt) pkt))

word_sum-append :
    (k : ℕ) (xs ys : List ℕ) → length xs ≡ 2 * k → word_sum (xs ++ ys) ≡ word_sum xs + word_sum ys
unfolding word_sum
word_sum-append zero [] ys h = omega arith
word_sum-append zero (x ∷ xs) ys h = absurd (omega arith)
word_sum-append (suc k) [] ys h = absurd (omega arith)
word_sum-append (suc k) (x ∷ []) ys h = absurd (omega arith)
word_sum-append (suc k) (x ∷ y ∷ xs) ys h = omega (arith, word_sum-append k xs ys (omega arith))

-- Thirty words of two bytes.
word_sum-le : (k : ℕ) (xs : List ℕ) → All IsByte xs → length xs ≤ 2 * k → word_sum xs ≤ 65535 * k
unfolding word_sum
word_sum-le k [] a h = omega arith
word_sum-le k (x ∷ []) a h = omega arith
word_sum-le zero (x ∷ y ∷ xs) a h = absurd (omega arith)
word_sum-le (suc k) (x ∷ y ∷ xs) a h = omega (arith, word_sum-le k xs a.1.1 (omega arith))

header_checksum_lem :
    (out stale : List ℕ)
    → header_checksum out stale
      ≡ 65535 - fold_sum 2 (word_sum (take (header_len_of out) (out ++ stale)))
unfolding header_checksum
header_checksum_lem out stale = refl

verified_sum_lem :
    (pkt : List ℕ) → verified_sum pkt ≡ fold_sum 2 (word_sum (take (header_len_of pkt) pkt))
unfolding verified_sum
verified_sum_lem pkt = refl

redirect_lem :
    (stale bcast pkt : List ℕ)
    → let c = header_checksum (with_fields (0 ∷ 0 ∷ []) bcast pkt) stale in
      redirect stale bcast pkt ≡ with_fields ((c / 256) ∷ (c % 256) ∷ []) bcast pkt
unfolding redirect
redirect_lem stale bcast pkt = refl

word_sum_two : (b c : ℕ) → word_sum (b ∷ c ∷ []) ≡ b * 256 + c
unfolding word_sum
word_sum_two b c = omega arith

-- A sum and its complement fold to 0xffff.
fold_sum-complement : (s : ℕ) → s ≤ 65535 * 30 → fold_sum 2 (s + (65535 - fold_sum 2 s)) ≡ 65535
unfolding fold_sum
fold_sum-complement s h = ground arith

take_append_left : (n : ℕ) (xs ys : List ℕ) → n ≤ length xs → take n (xs ++ ys) ≡ take n xs
take_append_left zero xs ys h = refl
take_append_left (suc n) [] ys h = absurd (omega arith)
take_append_left (suc n) (x ∷ xs) ys h = ap (◌∷◌ x) (take_append_left n xs ys (omega arith))

take_append_right : (n : ℕ) (xs ys : List ℕ) → take (length xs + n) (xs ++ ys) ≡ xs ++ take n ys
take_append_right n [] ys = rw zero_left refl
  where
    zero_left : 0 + n ≡ n
    zero_left = omega arith
take_append_right n (x ∷ xs) ys = rw step (ap (◌∷◌ x) (take_append_right n xs ys))
  where
    step : suc (length xs) + n ≡ suc (length xs + n)
    step = omega arith

All-take : (n : ℕ) (xs : List ℕ) → All IsByte xs → All IsByte (take n xs)
All-take zero xs h = tt
All-take (suc n) [] h = tt
All-take (suc n) (x ∷ xs) h = (h.0, All-take n xs h.1)

All-drop : (n : ℕ) (xs : List ℕ) → All IsByte xs → All IsByte (drop n xs)
All-drop zero xs h = h
All-drop (suc n) [] h = tt
All-drop (suc n) (x ∷ xs) h = All-drop n xs h.1

take_at : (n m : ℕ) (xs ys : List ℕ) → n ≡ length xs + m → take n (xs ++ ys) ≡ xs ++ take m ys
take_at n m xs ys e = rw e (take_append_right m xs ys)

header_len_of-le : (pkt : List ℕ) → header_len_of pkt ≤ 60
header_len_of-le [] = omega arith
header_len_of-le (b ∷ bs) = omega arith

first_byte :
    (pkt sum dst : List ℕ)
    → 0 < length pkt
    → header_len_of (with_fields sum dst pkt) ≡ header_len_of pkt
unfolding with_fields
first_byte [] sum dst h = absurd (omega arith)
first_byte (b ∷ bs) sum dst h = refl

-- A packet with a header of 20 to 60 bytes, all of them there.
module _ (pkt bcast stale : List ℕ) (bytes : All IsByte pkt) (dst_bytes : All IsByte bcast)
    (four : length bcast ≡ 4) (at_least : 20 ≤ header_len_of pkt)
    (whole : header_len_of pkt ≤ length pkt) where
  abbrev mid : List ℕ
  mid = take 4 (drop 12 pkt)

  abbrev options : List ℕ
  options = take (header_len_of pkt - 20) (drop 20 pkt)

  -- The sum of all words but the checksum.
  abbrev others : ℕ
  others = word_sum (take 10 pkt) + (word_sum mid + (word_sum bcast + word_sum options))

  length_front : length (take 10 pkt) ≡ 10
  length_front = omega (arith, length-take 10 pkt)

  length-mid : length mid ≡ 4
  length-mid = omega (arith, length-take 4 (drop 12 pkt), length-drop 12 pkt)

  length-options : length options ≤ 40
  length-options =
      omega (arith, length-take (header_len_of pkt - 20) (drop 20 pkt), header_len_of-le pkt)

  take-with_fields :
      (sum : List ℕ)
      → length sum ≡ 2
      → take (header_len_of pkt) (with_fields sum bcast pkt)
        ≡ take 10 pkt ++ (sum ++ (mid ++ (bcast ++ options)))
  unfolding with_fields
  take-with_fields sum two =
      take_at (header_len_of pkt) (header_len_of pkt - 10) (take 10 pkt) _
        (omega (arith, length_front))
      ∙ ap (λ t. take 10 pkt ++ t)
          (take_at (header_len_of pkt - 10) (header_len_of pkt - 12) sum _ (omega arith)
            ∙ ap (λ t. sum ++ t)
                (take_at (header_len_of pkt - 12) (header_len_of pkt - 16) mid _
                    (omega (arith, length-mid))
                  ∙ ap (λ t. mid ++ t)
                      (take_at (header_len_of pkt - 16) (header_len_of pkt - 20) bcast _
                        (omega arith))))

  sum-with_fields :
      (sum : List ℕ)
      → length sum ≡ 2
      → word_sum (take (header_len_of pkt) (with_fields sum bcast pkt)) ≡ word_sum sum + others
  sum-with_fields sum two = omega (
    arith,
    ap word_sum (take-with_fields sum two),
    word_sum-append 5 (take 10 pkt) (sum ++ (mid ++ (bcast ++ options))) length_front,
    word_sum-append 1 sum (mid ++ (bcast ++ options)) two,
    word_sum-append 2 mid (bcast ++ options) length-mid,
    word_sum-append 2 bcast options four,
  )

  others-le : others ≤ 65535 * 30
  others-le = omega (
    arith,
    word_sum-le 5 (take 10 pkt) (All-take 10 pkt bytes) (omega (arith, length_front)),
    word_sum-le 2 mid (All-take 4 _ (All-drop 12 pkt bytes)) (omega (arith, length-mid)),
    word_sum-le 2 bcast dst_bytes (omega arith),
    word_sum-le 20 options (All-take (header_len_of pkt - 20) _ (All-drop 20 pkt bytes))
        (omega (arith, length-options)),
  )

  header-with_fields :
      (sum : List ℕ) → header_len_of (with_fields sum bcast pkt) ≡ header_len_of pkt
  header-with_fields sum = first_byte pkt sum bcast (omega arith)

  length-with_fields :
      (sum : List ℕ) → length sum ≡ 2 → length (with_fields sum bcast pkt) ≡ length pkt
  unfolding with_fields
  length-with_fields sum two = omega (
    arith,
    length-append (take 10 pkt) (sum ++ (mid ++ (bcast ++ drop 20 pkt))),
    length-append sum (mid ++ (bcast ++ drop 20 pkt)),
    length-append mid (bcast ++ drop 20 pkt),
    length-append bcast (drop 20 pkt),
    length_front,
    length-mid,
    length-drop 20 pkt,
  )

  -- The sum that the new checksum is made of.
  header_checksum-others :
      header_checksum (with_fields (0 ∷ 0 ∷ []) bcast pkt) stale ≡ 65535 - fold_sum 2 others
  header_checksum-others =
      let zeroed = with_fields (0 ∷ 0 ∷ []) bcast pkt in
      header_checksum_lem zeroed stale
      ∙ ap (λ n. 65535 - fold_sum 2 n)
          (ap (λ n. word_sum (take n (zeroed ++ stale))) (header-with_fields (0 ∷ 0 ∷ []))
            ∙ ap word_sum (
                take_append_left (header_len_of pkt) zeroed stale
                  (omega (arith, length-with_fields (0 ∷ 0 ∷ []) refl)))
            ∙ sum-with_fields (0 ∷ 0 ∷ []) refl
            ∙ two_zeroes)
    where
      two_zeroes : word_sum (0 ∷ 0 ∷ []) + others ≡ others
      two_zeroes = omega (arith, word_sum_two 0 0)

  dst-with_fields :
      (sum : List ℕ) → length sum ≡ 2 → take 4 (drop 16 (with_fields sum bcast pkt)) ≡ bcast
  unfolding with_fields
  dst-with_fields sum two =
      let out = with_fields sum bcast pkt in
      let at_sum : drop 10 out ≡ sum ++ (mid ++ (bcast ++ drop 20 pkt)) =
        drop_at out 0 10 (take 10 pkt) _ (omega (arith, length_front)) refl in
      let at_mid : drop 12 out ≡ mid ++ (bcast ++ drop 20 pkt) =
        drop_at out 10 12 sum _ (omega arith) at_sum in
      let at_dst : drop 16 out ≡ bcast ++ drop 20 pkt =
        drop_at out 12 16 mid _ (omega (arith, length-mid)) at_mid in
      ap (take 4) at_dst ∙ ap (λ n. take n (bcast ++ drop 20 pkt)) (sym four) ∙ take-append bcast _

  redirect-verified :
      (verified_sum (redirect stale bcast pkt) ≡ 65535)
      × (length (redirect stale bcast pkt) ≡ length pkt)
      × (take 4 (drop 16 (redirect stale bcast pkt)) ≡ bcast)
  redirect-verified =
      let c = header_checksum (with_fields (0 ∷ 0 ∷ []) bcast pkt) stale in
      let sum : List ℕ = (c / 256) ∷ (c % 256) ∷ [] in
      (
        ap verified_sum (redirect_lem stale bcast pkt)
            ∙ verified_sum_lem (with_fields sum bcast pkt)
            ∙ ap (fold_sum 2) (
                ap (λ n. word_sum (take n (with_fields sum bcast pkt))) (header-with_fields sum)
                ∙ sum-with_fields sum refl
                ∙ omega (arith, word_sum_two (c / 256) (c % 256), header_checksum-others))
            ∙ fold_sum-complement others others-le,
        ap (length {A = ℕ}) (redirect_lem stale bcast pkt) ∙ length-with_fields sum refl,
        ap (λ t. take 4 (drop 16 t)) (redirect_lem stale bcast pkt) ∙ dst-with_fields sum refl,
      )

rewrite_broadcast_lem :
    (stale pkt : List ℕ) (subnet : IpNet) (sub bcast : List ℕ)
    → is_limited_broadcast pkt (some subnet) ≡ true
    → to4 subnet.ip ≡ some sub
    → broadcast_of sub subnet.mask ≡ ok bcast
    → rewrite_broadcast stale pkt (some subnet) ≡ ok (redirect stale bcast pkt)
unfolding rewrite_broadcast
rewrite_broadcast_lem stale pkt subnet sub bcast all v4 b = rw (rewrite_broadcast, all, v4, b) refl

-- A packet for 255.255.255.255, with a header of 20 to 60 bytes that is all there, goes to the
-- broadcast address of the subnet, with the length that it had; the words of its new header sum up to
-- 0xffff, whatever the checksum was before and whatever the buffer held.
pub rewrite_broadcast-verified :
    (stale pkt : List ℕ) (subnet : IpNet) (sub bcast : List ℕ)
    → All IsByte pkt
    → is_limited_broadcast pkt (some subnet) ≡ true
    → 20 ≤ header_len_of pkt
    → header_len_of pkt ≤ length pkt
    → to4 subnet.ip ≡ some sub
    → broadcast_of sub subnet.mask ≡ ok bcast
    → All IsByte bcast
    → length bcast ≡ 4
    → (out : List ℕ) × (rewrite_broadcast stale pkt (some subnet) ≡ ok out)
      × (verified_sum out ≡ 65535)
      × (length out ≡ length pkt)
      × (take 4 (drop 16 out) ≡ bcast)
rewrite_broadcast-verified stale pkt subnet sub bcast bytes all at_least whole v4 b dst_bytes four =
    let (sum, same, dst) = redirect-verified pkt bcast stale bytes dst_bytes four at_least whole in
    (
      redirect stale bcast pkt,
      rewrite_broadcast_lem stale pkt subnet sub bcast all v4 b,
      sum,
      same,
      dst,
    )
