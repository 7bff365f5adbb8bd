-- ===== src/Server/SendQueue/Order.antt =====
-- Control packets leave the queue in the order in which they were taken over.
use gametunnel.Base.{
  ◌≡◌, refl, ap, ◌∙◌, false, List, [], ◌∷◌, ◌++◌, length, ltb, if◌then◌else◌, append_assoc,
  append-nil, Bool-cases, List-cases, inl, inr,
}
use gametunnel.Server.SendQueue.{
  SendEntry, SendQueue, Phase, idle, finished, draining_broadcast, draining_low, draining_high,
  write_udp, write_all, take_broadcast, take_main, end_batch, drain_broadcast_step, drain_high_step,
  drain_low_step, is_high, batch_buf_size,
}
use gametunnel.Server.SendQueue.Writing.{
  in_hand, sent_entries, sent_entries-write_all, write_all_lem,
}

-- The control packets of a list, in order.
unfoldable pub highs : List SendEntry → List SendEntry
highs [] = []
highs (e ∷ es) = let rest = highs es in if is_high e then e ∷ rest else rest

pub highs-append : (xs ys : List SendEntry) → highs (xs ++ ys) ≡ highs xs ++ highs ys
unfolding highs
highs-append [] ys = refl
highs-append (e ∷ es) ys = elim (Bool-cases (is_high e)) [
  | inl t ↦ rw t (ap (◌∷◌ e) (highs-append es ys))
  | inr t ↦ rw t (highs-append es ys)
]

-- The control packets that are written, in the loop's hand, or in their channel.
abbrev pub in_order : SendQueue → List SendEntry
in_order q = highs (sent_entries q.written) ++ (highs (in_hand q.phase) ++ highs q.ch)

-- Only the main channel and the batch of control packets hold control packets.
abbrev pub IsSorted : Phase → Type 0
IsSorted idle = Unit {0}
IsSorted finished = Unit {0}
IsSorted (draining_broadcast batch) = highs batch ≡ []
IsSorted (draining_low batch) = highs batch ≡ []
IsSorted (draining_high batch deferred) = highs deferred ≡ []

abbrev pub Sorted : SendQueue → Type 0
Sorted q = IsSorted q.phase × (highs q.broadcast_ch ≡ [])

-- A packet more is written.
pub highs-write_udp :
    (x : SendEntry) (q : SendQueue)
    → highs (sent_entries (write_udp x q).written)
      ≡ highs (sent_entries q.written) ++ highs (x ∷ [])
unfolding write_all
highs-write_udp x q =
    ap highs (sent_entries-write_all (x ∷ []) q) ∙ highs-append (sent_entries q.written) (x ∷ [])

-- A batch that is written.
in_order-end_batch :
    (es : List SendEntry) (q : SendQueue)
    → in_hand q.phase ≡ es
    → in_order (end_batch es q) ≡ in_order q
unfolding end_batch highs
in_order-end_batch es q h =
    let w = ap highs (sent_entries-write_all es q) ∙ highs-append (sent_entries q.written) es in
    rw (write_all_lem es q, h)
      (ap (λ l. l ++ highs q.ch) (rw (write_all_lem es q) at w)
        ∙ append_assoc (highs (sent_entries q.written)) (highs es) (highs q.ch))

pub highs_nil : highs [] ≡ []
unfolding highs
highs_nil = refl

highs_cons : (x : SendEntry) (xs : List SendEntry) → highs (x ∷ xs) ≡ highs (x ∷ []) ++ highs xs
highs_cons x xs = highs-append (x ∷ []) xs

highs_low : (x : SendEntry) → is_high x ≡ false → highs (x ∷ []) ≡ []
unfolding highs
highs_low x t = rw t refl

end_batch-Sorted : (es : List SendEntry) (q : SendQueue) → Sorted q → Sorted (end_batch es q)
unfolding end_batch
end_batch-Sorted es q v = rw (write_all_lem es q) (tt, v.1)

end_batch-Ordered :
    (es : List SendEntry) (q : SendQueue)
    → in_hand q.phase ≡ es
    → Sorted q
    → (in_order (end_batch es q) ≡ in_order q) × Sorted (end_batch es q)
end_batch-Ordered es q h v = (in_order-end_batch es q h, end_batch-Sorted es q v)

-- A control packet at the front of its channel is written, when the loop has none in hand.
write_first :
    (x : SendEntry) (xs : List SendEntry) (q : SendQueue)
    → highs (sent_entries (write_udp x q).written) ++ highs xs
      ≡ highs (sent_entries q.written) ++ highs (x ∷ xs)
write_first x xs q =
    let w = highs-write_udp x q in
    let a = append_assoc (highs (sent_entries q.written)) (highs (x ∷ [])) (highs xs) in
    let s = highs_cons x xs in cc

pub take_main-Ordered :
    (q : SendQueue)
    → q.phase ≡ idle
    → Sorted q
    → (in_order (take_main q) ≡ in_order q) × Sorted (take_main q)
unfolding take_main
take_main-Ordered q h v = elim (List-cases q.ch) [
  | inl e ↦ rw (e, take_main, e) (refl, v)
  | inr (x, xs, e) ↦
      let w = write_first x xs q in
      let n = highs_nil in
      let s = highs_cons x xs in
      elim (Bool-cases (is_high x)) [
        | inl t ↦ rw (e, take_main, t, h) (rw n w, (n, v.1))
        | inr t ↦ rw (e, take_main, t, h) (rw (n, s) refl, (highs_low x t, v.1))
      ]
]

-- The head of the broadcast channel is no control packet.
highs_tail :
    (x : SendEntry) (xs : List SendEntry)
    → highs (x ∷ xs) ≡ []
    → (highs (x ∷ []) ≡ []) × (highs xs ≡ [])
unfolding highs
highs_tail x xs h = elim (Bool-cases (is_high x)) [
  | inl t ↦ absurd (let q : x ∷ highs xs ≡ [] = (rw t at h) in cc)
  | inr t ↦ (rw t refl, rw t at h)
]

pub take_broadcast-Ordered :
    (q : SendQueue)
    → q.phase ≡ idle
    → Sorted q
    → (in_order (take_broadcast q) ≡ in_order q) × Sorted (take_broadcast q)
unfolding take_broadcast
take_broadcast-Ordered q h v = elim (List-cases q.broadcast_ch) [
  | inl e ↦ rw (e, take_broadcast) (refl, v)
  | inr (x, xs, e) ↦
      let w = highs-write_udp x q in
      let (low, rest) = highs_tail x xs (rw e at v.1) in
      let a = append-nil (highs (sent_entries q.written)) in
      let n = highs_nil in
      rw (e, take_broadcast, h)
        (ap (λ l. l ++ (highs [] ++ highs q.ch)) (rw (low, a) at w), (n, rest))
]

pub drain_broadcast_step-Ordered :
    (batch : List SendEntry) (q : SendQueue)
    → q.phase ≡ draining_broadcast batch
    → Sorted q
    → (in_order (drain_broadcast_step batch q) ≡ in_order q) × Sorted (drain_broadcast_step batch q)
unfolding drain_broadcast_step
drain_broadcast_step-Ordered batch q h v =
    let ended = end_batch-Ordered batch q (ap in_hand h) v in
    let low : highs batch ≡ [] = (rw h at v.0) in
    elim (Bool-cases (ltb (length batch) batch_buf_size)) [
      | inr f ↦ rw (f, drain_broadcast_step) ended
      | inl f ↦ elim (List-cases q.broadcast_ch) [
        | inl e ↦ rw (f, drain_broadcast_step) (simp e ended)
        | inr (x, xs, e) ↦
            let (first, rest) = highs_tail x xs (rw e at v.1) in
            let more : highs (batch ++ (x ∷ [])) ≡ [] =
              highs-append batch (x ∷ []) ∙ rw (low, first) refl in
            rw (f, drain_broadcast_step, e, h) (rw (more, low) refl, (more, rest))
      ]
    ]

pub drain_low_step-Ordered :
    (batch : List SendEntry) (q : SendQueue)
    → q.phase ≡ draining_low batch
    → Sorted q
    → (in_order (drain_low_step batch q) ≡ in_order q) × Sorted (drain_low_step batch q)
unfolding drain_low_step
drain_low_step-Ordered batch q h v =
    let ended = end_batch-Ordered batch q (ap in_hand h) v in
    let low : highs batch ≡ [] = (rw h at v.0) in
    elim (Bool-cases (ltb (length batch) batch_buf_size)) [
      | inr f ↦ rw (f, drain_low_step) ended
      | inl f ↦ elim (List-cases q.ch) [
        | inl e ↦ rw (f, drain_low_step) (simp e (simp e at ended))
        | inr (x, xs, e) ↦
            let w = write_first x xs q in
            let s = highs_cons x xs in
            elim (Bool-cases (is_high x)) [
              | inl t ↦ rw (f, drain_low_step, e, t, h) (rw low w, (low, v.1))
              | inr t ↦
                  let first = highs_low x t in
                  let more : highs (batch ++ (x ∷ [])) ≡ [] =
                    highs-append batch (x ∷ []) ∙ rw (low, first) refl in
                  rw (f, drain_low_step, e, t, h) (rw (more, low, s, first) refl, (more, v.1))
            ]
      ]
    ]

pub drain_high_step-Ordered :
    (batch deferred : List SendEntry) (q : SendQueue)
    → q.phase ≡ draining_high batch deferred
    → Sorted q
    → (in_order (drain_high_step batch deferred q) ≡ in_order q)
      × Sorted (drain_high_step batch deferred q)
unfolding drain_high_step
drain_high_step-Ordered batch deferred q h v =
    let ended = end_batch-Ordered (batch ++ deferred) q (ap in_hand h) v in
    let low : highs deferred ≡ [] = (rw h at v.0) in
    -- The control packets in hand are those of the batch.
    let batch_only : (b d : List SendEntry) → highs d ≡ [] → highs (b ++ d) ≡ highs b =
      λ b d e. highs-append b d ∙ (ap (λ l. highs b ++ l) e ∙ append-nil (highs b)) in
    elim (Bool-cases (ltb (length batch) batch_buf_size)) [
      | inr f ↦ rw (f, drain_high_step) ended
      | inl f ↦ elim (List-cases q.ch) [
        | inl e ↦ rw (f, drain_high_step) (simp e (simp e at ended))
        | inr (x, xs, e) ↦
            let s = highs_cons x xs in
            elim (Bool-cases (is_high x)) [
              | inl t ↦
                  let a = batch_only (batch ++ (x ∷ [])) deferred low in
                  let b = batch_only batch deferred low in
                  let c = highs-append batch (x ∷ []) in
                  let d = append_assoc (highs batch) (highs (x ∷ [])) (highs xs) in
                  rw (f, drain_high_step, e, t, h) (rw (a, b, c, s, d) refl, (low, v.1))
              | inr t ↦
                  let first = highs_low x t in
                  elim (Bool-cases (ltb (length deferred) batch_buf_size)) [
                    | inl g ↦
                        let more : highs (deferred ++ (x ∷ [])) ≡ [] =
                          highs-append deferred (x ∷ []) ∙ rw (low, first) refl in
                        let a = batch_only batch (deferred ++ (x ∷ [])) more in
                        let b = batch_only batch deferred low in
                        rw (f, drain_high_step, e, t, g, h) (rw (a, b, s, first) refl, (more, v.1))
                    | inr g ↦
                        let w = highs-write_udp x q in
                        let a = append-nil (highs (sent_entries q.written)) in
                        rw (f, drain_high_step, e, t, g, h)
                          (
                            rw (s, first)
                                (ap (λ l. l ++ (highs (batch ++ deferred) ++ highs xs))
                                  (rw (first, a) at w)),
                            (low, v.1),
                          )
                  ]
            ]
      ]
    ]
