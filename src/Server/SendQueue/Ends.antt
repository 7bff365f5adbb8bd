-- ===== src/Server/SendQueue/Ends.antt =====
-- The loop of the queue gets back to its select, and after Stop it leaves nothing behind.
use gametunnel.Base.{
  ℕ, zero, suc, ◌<◌, ◌≡◌, refl, ap, ◌∙◌, Bool, true, false, List, arith, length, ltb, Bool-cases,
  List-cases, inl, inr, ◌⊎◌,
}
use gametunnel.Server.SendQueue.{
  SendEntry, SendQueue, Phase, idle, finished, draining_broadcast, draining_low, draining_high,
  drain_broadcast_step, drain_high_step, drain_low_step, advance, stop, leave_loop, pending,
  is_high, batch_buf_size,
}
use gametunnel.Server.SendQueue.Conserve.{total, tally, total-advance, total-leave_loop}
use gametunnel.Server.SendQueue.Writing.{in_hand, sent_entries, drain_lem, leave_loop_stopped}

-- Rounds of the loop while nobody sends.
pub settle : ℕ → SendQueue → SendQueue
settle zero q = q
settle (suc n) q = settle n (advance q)

abbrev pub is_finished : Phase → Bool
is_finished ph = elim ph [ finished ↦ true | _ ↦ false ]

-- A round ends the batch or takes a packet out of a channel.
abbrev Shrinks : SendQueue → SendQueue → Type 0
Shrinks q q' = (q'.phase ≡ idle) ⊎ ((pending q' < pending q) × (is_finished q'.phase ≡ false))

drain_broadcast_step-Shrinks :
    (batch : List SendEntry) (q : SendQueue) → Shrinks q (drain_broadcast_step batch q)
unfolding drain_broadcast_step pending
drain_broadcast_step-Shrinks batch q = elim (Bool-cases (ltb (length batch) batch_buf_size)) [
  | inr f ↦ simp f (inl refl)
  | inl f ↦ simp f (elim (List-cases q.broadcast_ch) [
    | inl e ↦ simp e (inl refl)
    | inr (x, xs, e) ↦ simp e (inr (omega arith, refl))
  ])
]

drain_low_step-Shrinks :
    (batch : List SendEntry) (q : SendQueue) → Shrinks q (drain_low_step batch q)
unfolding drain_low_step pending
drain_low_step-Shrinks batch q = elim (Bool-cases (ltb (length batch) batch_buf_size)) [
  | inr f ↦ simp f (inl refl)
  | inl f ↦ simp f (elim (List-cases q.ch) [
    | inl e ↦ simp e (inl refl)
    | inr (x, xs, e) ↦ simp e (elim (Bool-cases (is_high x)) [
      | inl t ↦ simp t (inr (omega arith, refl))
      | inr t ↦ simp t (inr (omega arith, refl))
    ])
  ])
]

drain_high_step-Shrinks :
    (batch deferred : List SendEntry) (q : SendQueue) → Shrinks q (drain_high_step batch deferred q)
unfolding drain_high_step pending
drain_high_step-Shrinks batch deferred q = elim (Bool-cases (ltb (length batch) batch_buf_size)) [
  | inr f ↦ simp f (inl refl)
  | inl f ↦ simp f (elim (List-cases q.ch) [
    | inl e ↦ simp e (inl refl)
    | inr (x, xs, e) ↦ simp e (elim (Bool-cases (is_high x)) [
      | inl t ↦ simp t (inr (omega arith, refl))
      | inr t ↦ simp t (elim (Bool-cases (ltb (length deferred) batch_buf_size)) [
        | inl g ↦ simp g (inr (omega arith, refl))
        | inr g ↦ simp g (inr (omega arith, refl))
      ])
    ])
  ])
]

advance-Shrinks : (q : SendQueue) → is_finished q.phase ≡ false → Shrinks q (advance q)
unfolding advance
advance-Shrinks q running = go q.phase refl
  where
    go :
        (ph : Phase)
        → q.phase ≡ ph
        → Shrinks q (elim ph as (λ _. SendQueue) [
          | idle ↦ q
          | finished ↦ q
          | draining_broadcast batch ↦ drain_broadcast_step batch q
          | draining_low batch ↦ drain_low_step batch q
          | draining_high batch deferred ↦ drain_high_step batch deferred q
        ])
    go idle h = inl h
    go finished h = absurd (let e : is_finished q.phase ≡ true = ap is_finished h in cc)
    go (draining_broadcast batch) h = drain_broadcast_step-Shrinks batch q
    go (draining_low batch) h = drain_low_step-Shrinks batch q
    go (draining_high batch deferred) h = drain_high_step-Shrinks batch deferred q

advance_idle : (q : SendQueue) → q.phase ≡ idle → (advance q).phase ≡ idle
unfolding advance
advance_idle q h = rw (h, advance) h

settle_idle : (n : ℕ) (q : SendQueue) → q.phase ≡ idle → (settle n q).phase ≡ idle
unfolding settle
settle_idle zero q h = h
settle_idle (suc n) q h = settle_idle n (advance q) (advance_idle q h)

settle-idle :
    (n : ℕ) (q : SendQueue)
    → pending q < n
    → is_finished q.phase ≡ false
    → (settle n q).phase ≡ idle
unfolding settle
settle-idle zero q small running = absurd (omega (arith, small))
settle-idle (suc n) q small running = elim (advance-Shrinks q running) [
  | inl h ↦ settle_idle n (advance q) h
  | inr (fewer, r) ↦ settle-idle n (advance q) (omega (arith, small, fewer)) r
]

total-settle : (p : SendEntry → Bool) (n : ℕ) (q : SendQueue) → total p (settle n q) ≡ total p q
unfolding settle
total-settle p zero q = refl
total-settle p (suc n) q = total-settle p n (advance q) ∙ total-advance p q

-- Once nobody sends any more, the loop is back at its select after at most as many rounds as packets
-- are queued, and one; with Stop called it returns then, both channels are empty, and for any test as
-- many packets that pass it are written as were written, in the loop's hand or queued before.
pub stop-drained :
    (q : SendQueue)
    → is_finished q.phase ≡ false
    → let q' = leave_loop (stop (settle (suc (pending q)) q)) in
      (q'.phase ≡ finished)
      × (pending q' ≡ 0)
      × ((p : SendEntry → Bool) → tally p (sent_entries q'.written) ≡ total p q)
unfolding pending stop tally
stop-drained q running =
    let s = settle (suc (pending q)) q in
    let back : s.phase ≡ idle = settle-idle (suc (pending q)) q (omega arith) running in
    let l = stop s in
    let e =
      leave_loop_stopped l refl
      ∙ ap {A = SendQueue} (λ m. record m { phase = finished }) (drain_lem l) in
    (
      ap (λ m. m.phase) e,
      ap pending e,
      λ p.
          let a = total-leave_loop p l back in
          let b = total-settle p (suc (pending q)) q in
          let c = ap (λ m. tally p (in_hand m.phase)) e in
          let d = ap (λ m. tally p m.ch) e in
          let f = ap (λ m. tally p m.broadcast_ch) e in omega (arith, a, b, c, d, f),
    )
