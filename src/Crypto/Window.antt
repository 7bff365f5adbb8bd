-- ===== src/Crypto/Window.antt =====
-- The replay window against the list of the counters that were accepted before.
use gametunnel.Base.{
  ℕ, zero, suc, ◌+◌, ◌-◌, ◌≤◌, ◌<◌, ◌≡◌, ◌≢◌, refl, sym, ap, ◌∙◌, Bool, true, false, not, ◌&&◌,
  List, [], ◌∷◌, ltb, leb, ◌==◌, if◌then◌else◌, length, arith, Bool-cases, inl, inr,
}
use gametunnel.Words.{
  Word, get_bit, set_bit, shift_left, get_bit-set_bit, length-set_bit, get_bit-shift_left,
  length-shift_left, get_bit-zero_word, length-zero_word, zero_word,
}
use gametunnel.Crypto.{Cipher, check_replay_window, moved_bitmap, new_cipher}

-- Is the counter among those that were accepted?
unfoldable pub seen : ℕ → List ℕ → Bool
seen ctr [] = false
seen ctr (x ∷ history) = let earlier = seen ctr history in if x == ctr then true else earlier

unfoldable pub highest : List ℕ → ℕ
highest [] = 0
highest (x ∷ history) = let h = highest history in if ltb h x then x else h

-- What the window promises: a counter is accepted if it was not accepted before and is at most 63
-- below the highest that was.
unfoldable pub accepts : List ℕ → ℕ → Bool
unfolding seen highest
accepts history ctr = ltb (highest history) (ctr + 64) && not (seen ctr history)

-- The window stands for this history.
pub record Tracks (c : Cipher) (history : List ℕ) : Type 0 where
  pub wide : length c.replay_bitmap ≡ 64
  pub top : c.replay_counter ≡ highest history
  pub bits :
      (d : ℕ)
      → d < 64
      → d ≤ highest history
      → get_bit c.replay_bitmap d ≡ seen (highest history - d) history

seen-le : (ctr : ℕ) (history : List ℕ) → seen ctr history ≡ true → ctr ≤ highest history
unfolding seen highest
seen-le ctr [] h = cc
seen-le ctr (x ∷ history) h = elim (Bool-cases (x == ctr)) [
  | inl t ↦ ground arith
  | inr f ↦ ground (arith, seen-le ctr history (rw f at h))
]

unseen : (ctr : ℕ) (history : List ℕ) → highest history < ctr → seen ctr history ≡ false
unseen ctr history h = elim (Bool-cases (seen ctr history)) [
  | inl t ↦ absurd (omega (arith, seen-le ctr history t))
  | inr f ↦ f
]

seen_self : (ctr : ℕ) (history : List ℕ) → seen ctr (ctr ∷ history) ≡ true
unfolding seen
seen_self ctr history = ground arith

highest_within :
    (ctr : ℕ) (history : List ℕ) → ctr ≤ highest history → highest (ctr ∷ history) ≡ highest history
unfolding highest
highest_within ctr history h = ground arith

seen_other : (x ctr : ℕ) (history : List ℕ) → x ≢ ctr → seen ctr (x ∷ history) ≡ seen ctr history
unfolding seen
seen_other x ctr history h = ground arith

length-moved_bitmap : (shift : ℕ) (w : Word) → length w ≡ 64 → length (moved_bitmap shift w) ≡ 64
unfolding moved_bitmap
length-moved_bitmap shift w h = ground (
  arith,
  length-set_bit true (shift_left shift w) 0,
  length-shift_left shift w,
  length-set_bit true zero_word 0,
  length-zero_word,
)

get_bit-moved_bitmap :
    (shift : ℕ) (w : Word)
    → length w ≡ 64
    → (d : ℕ) → d < 64
    → get_bit (moved_bitmap shift w) d
      ≡ (if d == 0 then true else if ltb d shift then false else get_bit w (d - shift))
unfolding moved_bitmap
get_bit-moved_bitmap shift w h d small = ground (
  arith,
  get_bit-set_bit true (shift_left shift w) 0 d,
  get_bit-set_bit true zero_word 0 d,
  get_bit-shift_left shift w d,
  length-shift_left shift w,
  get_bit-zero_word d,
  length-zero_word,
)

module _ (c : Cipher) (history : List ℕ) (t : Tracks c history) (ctr : ℕ) where
  -- A counter above all others: the window moves up.
  moved-bits :
      (d : ℕ)
      → c.replay_counter < ctr
      → d < 64
      → d ≤ ctr
      → get_bit (moved_bitmap (ctr - c.replay_counter) c.replay_bitmap) d
        ≡ seen (ctr - d) (ctr ∷ history)
  unfolding seen
  moved-bits zero above small below =
      get_bit-moved_bitmap (ctr - c.replay_counter) c.replay_bitmap t.wide 0 small ∙ sym newest
    where
      newest : seen (ctr - 0) (ctr ∷ history) ≡ true
      newest = ground arith
  moved-bits (suc d) above small below = elim (Bool-cases (ltb (suc d) (ctr - c.replay_counter))) [
    | inl new ↦ ground (arith, moved, new, older, unseen (ctr - suc d) history, t.top)
    | inr kept ↦ ground (
      arith,
      moved,
      kept,
      older,
      t.bits (suc d - (ctr - c.replay_counter)) (omega arith) (ground (arith, t.top)),
      same_place,
    )
  ]
    where
      older : seen (ctr - suc d) (ctr ∷ history) ≡ seen (ctr - suc d) history
      older = seen_other ctr (ctr - suc d) history (omega arith)

      moved : get_bit (moved_bitmap (ctr - c.replay_counter) c.replay_bitmap) (suc d) ≡ (
          if suc d == 0
          then true
          else if ltb (suc d) (ctr - c.replay_counter)
          then false
          else get_bit c.replay_bitmap (suc d - (ctr - c.replay_counter)))
      moved = get_bit-moved_bitmap (ctr - c.replay_counter) c.replay_bitmap t.wide (suc d) small

      same_place :
          ctr - c.replay_counter ≤ suc d
          → highest history - (suc d - (ctr - c.replay_counter)) ≡ ctr - suc d
      same_place l = omega (arith, t.top)

  above-Tracks :
      ltb c.replay_counter ctr ≡ true → Tracks (check_replay_window ctr c).0 (ctr ∷ history)
  unfolding check_replay_window highest
  above-Tracks h = rw h (record {
    wide = length-moved_bitmap (ctr - c.replay_counter) c.replay_bitmap t.wide;
    top = ground (arith, t.top);
    bits = λ d small below. rw (new_top) (moved-bits d (ground arith) small (rw new_top at below));
  })
    where
      new_top : highest (ctr ∷ history) ≡ ctr
      new_top = ground (arith, t.top)

  within-Tracks :
      ltb c.replay_counter ctr ≡ false
      → leb 64 (c.replay_counter - ctr) ≡ false
      → Tracks
          (record c { replay_bitmap = set_bit true c.replay_bitmap (c.replay_counter - ctr) })
          (ctr ∷ history)
  within-Tracks h k = record {
    wide = length-set_bit true c.replay_bitmap (c.replay_counter - ctr) ∙ t.wide;
    top = t.top ∙ sym same_top;
    bits = λ d small below. rw same_top (at d small (rw same_top at below));
  }
    where
      same_top : highest (ctr ∷ history) ≡ highest history
      same_top = highest_within ctr history (ground (arith, t.top))

      at :
          (d : ℕ)
          → d < 64
          → d ≤ highest history
          → get_bit (set_bit true c.replay_bitmap (c.replay_counter - ctr)) d
            ≡ seen (highest history - d) (ctr ∷ history)
      at d small below =
          get_bit-set_bit true c.replay_bitmap (c.replay_counter - ctr) d (ground (arith, t.wide))
          ∙ (elim (Bool-cases ((c.replay_counter - ctr) == d)) [
            | inl e ↦ rw e (
                sym (
                  ap (λ x. seen x (ctr ∷ history)) (ground (arith, t.top)) ∙ seen_self ctr history))
            | inr e ↦ rw e (
                t.bits d small below
                ∙ sym (seen_other ctr (highest history - d) history (ground (arith, t.top))))
          ])

  check-accepts : (check_replay_window ctr c).1 ≡ accepts history ctr
  unfolding check_replay_window accepts
  check-accepts = elim (Bool-cases (ltb c.replay_counter ctr)) [
    | inl h ↦ rw h (ground (arith, t.top, unseen ctr history))
    | inr h ↦ rw h (ground (arith, t.top, t.bits (c.replay_counter - ctr)))
  ]

  check_above : ltb c.replay_counter ctr ≡ true → (check_replay_window ctr c).1 ≡ true
  unfolding check_replay_window
  check_above h = rw h refl

  check_old :
      ltb c.replay_counter ctr ≡ false
      → leb 64 (c.replay_counter - ctr) ≡ true
      → check_replay_window ctr c ≡ (c, false)
  unfolding check_replay_window
  check_old h old = rw (h, old) refl

  check_again :
      ltb c.replay_counter ctr ≡ false
      → leb 64 (c.replay_counter - ctr) ≡ false
      → get_bit c.replay_bitmap (c.replay_counter - ctr) ≡ true
      → check_replay_window ctr c ≡ (c, false)
  unfolding check_replay_window
  check_again h k again = rw (h, k, again) refl

  check_fresh :
      ltb c.replay_counter ctr ≡ false
      → leb 64 (c.replay_counter - ctr) ≡ false
      → get_bit c.replay_bitmap (c.replay_counter - ctr) ≡ false
      → check_replay_window ctr c
        ≡ (record c { replay_bitmap = set_bit true c.replay_bitmap (c.replay_counter - ctr) }, true)
  unfolding check_replay_window
  check_fresh h k fresh = rw (h, k, fresh) refl

  -- What is accepted joins the history, what is refused leaves the window as it was.
  check-Tracks :
      Tracks (check_replay_window ctr c).0 (if accepts history ctr then ctr ∷ history else history)
  check-Tracks = rw (← check-accepts) (elim (Bool-cases (ltb c.replay_counter ctr)) [
    | inl h ↦ rw (check_above h) (above-Tracks h)
    | inr h ↦ elim (Bool-cases (leb 64 (c.replay_counter - ctr))) [
      | inl old ↦ rw (check_old h old) t
      | inr k ↦ elim (Bool-cases (get_bit c.replay_bitmap (c.replay_counter - ctr))) [
        | inl again ↦ rw (check_again h k again) t
        | inr fresh ↦ rw (check_fresh h k fresh) (within-Tracks h k)
      ]
    ]
  ])

-- The answers to a sequence of counters, by the window and by the history.
unfoldable pub check_all : List ℕ → Cipher → List Bool
unfolding check_replay_window
check_all [] c = []
check_all (ctr ∷ ctrs) c =
    (check_replay_window ctr c).1 ∷ check_all ctrs (check_replay_window ctr c).0

unfoldable pub accept_all : List ℕ → List ℕ → List Bool
accept_all [] history = []
accept_all (ctr ∷ ctrs) history =
    accepts history ctr ∷ accept_all ctrs (if accepts history ctr then ctr ∷ history else history)

check_all-Tracks :
    (ctrs : List ℕ) (c : Cipher) (history : List ℕ)
    → Tracks c history
    → check_all ctrs c ≡ accept_all ctrs history
unfolding check_all accept_all
check_all-Tracks [] c history t = refl
check_all-Tracks (ctr ∷ ctrs) c history t =
    ap (λ b. b ∷ check_all ctrs (check_replay_window ctr c).0) (check-accepts c history t ctr)
    ∙ ap (◌∷◌ (accepts history ctr)) (check_all-Tracks ctrs _ _ (check-Tracks c history t ctr))

new-Tracks : (random dir_tag : List ℕ) → Tracks (new_cipher random dir_tag) []
unfolding new_cipher highest seen
new-Tracks random dir_tag = record {
  wide = length-zero_word;
  top = refl;
  bits = λ d small below. get_bit-zero_word d;
}

-- The window of 64 bits answers as if it kept every counter that it accepted: from a new cipher on, in
-- any sequence of counters, a counter is accepted exactly if it was not accepted before and is
-- less than 64 below the highest that was. So a counter above the highest is accepted however far
-- ahead it is.
pub check_all-accept_all :
    (random dir_tag ctrs : List ℕ) → check_all ctrs (new_cipher random dir_tag) ≡ accept_all ctrs []
check_all-accept_all random dir_tag ctrs =
    check_all-Tracks ctrs (new_cipher random dir_tag) [] (new-Tracks random dir_tag)
