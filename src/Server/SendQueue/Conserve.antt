-- ===== src/Server/SendQueue/Conserve.antt =====
-- No packet of the queue is lost or doubled.
use gametunnel.Base.{
  ℕ, suc, ◌+◌, ◌≡◌, refl, ap, ◌∙◌, Bool, true, ◌&&◌, ◌||◌, Option, none, some, List, [], ◌∷◌, ◌++◌,
  map, arith, length, ltb, if◌then◌else◌, Bool-cases, List-cases, inl, inr,
}
use gametunnel.Net.{UdpAddr}
use gametunnel.Server.SendQueue.{
  SendEntry, SendQueue, Phase, idle, finished, draining_broadcast, draining_low, draining_high,
  QueueEvent, sends, broadcasts, receives_broadcast, receives_main, advances, stops, leaves,
  write_udp, write_all, routed, send, send_limited, send_broadcast, broadcast_entry, take_broadcast,
  take_main, end_batch, drain_broadcast_step, drain_high_step, drain_low_step, advance, leave_loop,
  at_select, queue_step, queue_run, accepted_by, accepted, is_high, batch_buf_size,
  broadcast_ch_size,
}
use gametunnel.Server.SendQueue.Writing.{
  in_hand, sent_entries, write_all_lem, sent_entries-append, sent_entries-routed,
  sent_entries-write_all, drain_lem, leave_loop_stopped, leave_loop_open,
}

-- How many packets pass a test.
unfoldable pub tally : (SendEntry → Bool) → List SendEntry → ℕ
tally p [] = 0
tally p (e ∷ es) = let n = tally p es in if p e then suc n else n

pub tally-append :
    (p : SendEntry → Bool) (xs ys : List SendEntry) → tally p (xs ++ ys) ≡ tally p xs + tally p ys
unfolding tally
tally-append p [] ys = omega arith
tally-append p (e ∷ es) ys = ground (arith, tally-append p es ys)

module _ (p : SendEntry → Bool) where
  -- The packets of the state: written, in hand, and in the two channels.
  abbrev pub total : SendQueue → ℕ
  total q =
      tally p (sent_entries q.written)
      + tally p (in_hand q.phase)
      + tally p q.ch
      + tally p q.broadcast_ch

  tally-write_all :
      (es : List SendEntry) (q : SendQueue)
      → tally p (sent_entries (write_all es q).written)
        ≡ tally p (sent_entries q.written) + tally p es
  tally-write_all es q =
      ap (tally p) (sent_entries-write_all es q) ∙ tally-append p (sent_entries q.written) es

  tally-write_udp :
      (e : SendEntry) (q : SendQueue)
      → tally p (sent_entries (write_udp e q).written)
        ≡ tally p (sent_entries q.written) + tally p (e ∷ [])
  unfolding write_all
  tally-write_udp e q = tally-write_all (e ∷ []) q

  -- A batch that is written leaves the hand.
  total-end_batch :
      (es : List SendEntry) (q : SendQueue)
      → in_hand q.phase ≡ es
      → total (end_batch es q) ≡ total q
  unfolding end_batch tally
  total-end_batch es q h =
      let w = tally-write_all es q in
      rw (write_all_lem es q, h) (omega (arith, rw (write_all_lem es q) at w))

  total-send :
      (timed_out : Bool) (e : SendEntry) (q : SendQueue)
      → total (send timed_out e q).0
        ≡ total q + tally p (if (send timed_out e q).1 then e ∷ [] else [])
  unfolding send tally
  total-send timed_out e q = elim (Bool-cases (is_high e && timed_out)) [
    | inl t ↦ rw (t, send) (omega arith)
    | inr t ↦ elim (Bool-cases (ltb (length q.ch) q.max_size)) [
      | inl f ↦ rw (t, send, f, tally-append p q.ch (e ∷ [])) (omega arith)
      | inr f ↦ rw (t, send, f) (omega arith)
    ]
  ]

  total-take_main : (q : SendQueue) → q.phase ≡ idle → total (take_main q) ≡ total q
  unfolding take_main tally
  total-take_main q h = elim (List-cases q.ch) [
    | inl e ↦ rw (e, take_main, e) refl
    | inr (x, xs, e) ↦
        let w = tally-write_udp x q in
        elim (Bool-cases (is_high x)) [
          | inl t ↦ rw (e, take_main, t, h) (ground (arith, w))
          | inr t ↦ rw (e, take_main, t, h) (ground arith)
        ]
  ]

  total-take_broadcast : (q : SendQueue) → q.phase ≡ idle → total (take_broadcast q) ≡ total q
  unfolding take_broadcast tally
  total-take_broadcast q h = elim (List-cases q.broadcast_ch) [
    | inl e ↦ rw (e, take_broadcast, e) refl
    | inr (x, xs, e) ↦ let w = tally-write_udp x q in rw (e, take_broadcast, h) (ground (arith, w))
  ]

  total-drain_broadcast_step :
      (batch : List SendEntry) (q : SendQueue)
      → q.phase ≡ draining_broadcast batch
      → total (drain_broadcast_step batch q) ≡ total q
  unfolding drain_broadcast_step tally
  total-drain_broadcast_step batch q h =
      let done = total-end_batch batch q (ap in_hand h) in
      elim (Bool-cases (ltb (length batch) batch_buf_size)) [
        | inr f ↦ rw (f, drain_broadcast_step) done
        | inl f ↦ elim (List-cases q.broadcast_ch) [
          | inl e ↦ rw (f, drain_broadcast_step) (simp e (simp e at done))
          | inr (x, xs, e) ↦
              let w = tally-append p batch (x ∷ []) in
              rw (f, drain_broadcast_step, e, h) (ground (arith, w))
        ]
      ]

  total-drain_low_step :
      (batch : List SendEntry) (q : SendQueue)
      → q.phase ≡ draining_low batch
      → total (drain_low_step batch q) ≡ total q
  unfolding drain_low_step tally
  total-drain_low_step batch q h =
      let done = total-end_batch batch q (ap in_hand h) in
      elim (Bool-cases (ltb (length batch) batch_buf_size)) [
        | inr f ↦ rw (f, drain_low_step) done
        | inl f ↦ elim (List-cases q.ch) [
          | inl e ↦ rw (f, drain_low_step) (simp e (simp e at done))
          | inr (x, xs, e) ↦
              let v = tally-write_udp x q in
              let w = tally-append p batch (x ∷ []) in
              elim (Bool-cases (is_high x)) [
                | inl t ↦ rw (f, drain_low_step, e, t, h) (ground (arith, v))
                | inr t ↦ rw (f, drain_low_step, e, t, h) (ground (arith, w))
              ]
        ]
      ]

  total-drain_high_step :
      (batch deferred : List SendEntry) (q : SendQueue)
      → q.phase ≡ draining_high batch deferred
      → total (drain_high_step batch deferred q) ≡ total q
  unfolding drain_high_step tally
  total-drain_high_step batch deferred q h =
      let done = total-end_batch (batch ++ deferred) q (ap in_hand h) in
      elim (Bool-cases (ltb (length batch) batch_buf_size)) [
        | inr f ↦ rw (f, drain_high_step) done
        | inl f ↦ elim (List-cases q.ch) [
          | inl e ↦ rw (f, drain_high_step) (simp e (simp e at done))
          | inr (x, xs, e) ↦ elim (Bool-cases (is_high x)) [
            | inl t ↦
                let a = tally-append p batch (x ∷ []) in
                let b = tally-append p (batch ++ (x ∷ [])) deferred in
                let c = tally-append p batch deferred in
                rw (f, drain_high_step, e, t, h) (ground (arith, a, b, c))
            | inr t ↦ elim (Bool-cases (ltb (length deferred) batch_buf_size)) [
              | inl g ↦
                  let a = tally-append p deferred (x ∷ []) in
                  let b = tally-append p batch (deferred ++ (x ∷ [])) in
                  let c = tally-append p batch deferred in
                  rw (f, drain_high_step, e, t, g, h) (ground (arith, a, b, c))
              | inr g ↦
                  let v = tally-write_udp x q in
                  rw (f, drain_high_step, e, t, g, h) (ground (arith, v))
            ]
          ]
        ]
      ]

  pub total-advance : (q : SendQueue) → total (advance q) ≡ total q
  unfolding advance
  total-advance q = go q.phase refl
    where
      go :
          (ph : Phase)
          → q.phase ≡ ph
          → total (elim ph as (λ _. SendQueue) [
            | idle ↦ q
            | finished ↦ q
            | draining_broadcast batch ↦ drain_broadcast_step batch q
            | draining_low batch ↦ drain_low_step batch q
            | draining_high batch deferred ↦ drain_high_step batch deferred q
          ])
            ≡ total q
      go idle h = refl
      go finished h = refl
      go (draining_broadcast batch) h = total-drain_broadcast_step batch q h
      go (draining_low batch) h = total-drain_low_step batch q h
      go (draining_high batch deferred) h = total-drain_high_step batch deferred q h

  pub total-leave_loop : (q : SendQueue) → q.phase ≡ idle → total (leave_loop q) ≡ total q
  unfolding tally
  total-leave_loop q h = elim (Bool-cases q.stopped) [
    | inr f ↦ rw (leave_loop_open q f) refl
    | inl t ↦
        let r = map (routed q.tcp_write) in
        let main = q.written ++ r q.ch in
        let a = ap (tally p) (sent_entries-append main (r q.broadcast_ch)) in
        let b = ap (tally p) (sent_entries-append q.written (r q.ch)) in
        let c = tally-append p (sent_entries main) (sent_entries (r q.broadcast_ch)) in
        let d = tally-append p (sent_entries q.written) (sent_entries (r q.ch)) in
        let e = ap (tally p) (sent_entries-routed q.tcp_write q.ch) in
        let f = ap (tally p) (sent_entries-routed q.tcp_write q.broadcast_ch) in
        rw (leave_loop_stopped q t, drain_lem q, h) (omega (arith, a, b, c, d, e, f))
  ]

  total-at_select :
      (f : SendQueue → SendQueue)
      → ((q : SendQueue) → q.phase ≡ idle → total (f q) ≡ total q)
      → (q : SendQueue) → total (at_select f q) ≡ total q
  total-at_select f same q = go q.phase refl
    where
      go :
          (ph : Phase)
          → q.phase ≡ ph
          → total (elim ph as (λ _. SendQueue) [ idle ↦ f q | _ ↦ q ]) ≡ total q
      go idle h = same q h
      go finished h = refl
      go (draining_broadcast batch) h = refl
      go (draining_low batch) h = refl
      go (draining_high batch deferred) h = refl

  total-send_limited :
      (limiter : Option (UdpAddr → ℕ → Bool)) (timed_out : Bool) (e : SendEntry) (q : SendQueue)
      → total (send_limited limiter timed_out e q).0
        ≡ total q + tally p (if (send_limited limiter timed_out e q).1 then e ∷ [] else [])
  unfolding send_limited tally
  total-send_limited limiter timed_out e q =
      let allowed : Bool = elim limiter [
        | none ↦ true
        | some allow ↦ allow e.addr (length e.data_bytes)
      ] in
      elim (Bool-cases (is_high e || allowed)) [
        | inl t ↦ rw (t, send_limited) (total-send timed_out e q)
        | inr t ↦ rw (t, send_limited) (omega arith)
      ]

  total-send_broadcast :
      (bytes : List ℕ) (addr : UdpAddr) (q : SendQueue)
      → total (send_broadcast bytes addr q).0 ≡ total q + tally p (broadcast_entry bytes addr ∷ [])
  unfolding send_broadcast tally
  total-send_broadcast bytes addr q =
      let e = broadcast_entry bytes addr in
      elim (Bool-cases (ltb (length q.broadcast_ch) broadcast_ch_size)) [
        | inl t ↦ rw (t, send_broadcast, tally-append p q.broadcast_ch (e ∷ [])) (omega arith)
        | inr t ↦ let w = tally-write_udp e q in rw (t, send_broadcast) (omega (arith, w))
      ]

  total-queue_step :
      (q : SendQueue) (x : QueueEvent)
      → total (queue_step q x) ≡ total q + tally p (accepted_by q x)
  unfolding queue_step accepted_by tally
  total-queue_step q (sends limiter timed_out e) = total-send_limited limiter timed_out e q
  total-queue_step q (broadcasts bytes addr) = total-send_broadcast bytes addr q
  total-queue_step q receives_broadcast =
      omega (arith, total-at_select take_broadcast total-take_broadcast q)
  total-queue_step q receives_main = omega (arith, total-at_select take_main total-take_main q)
  total-queue_step q advances = omega (arith, total-advance q)
  total-queue_step q stops = omega arith
  total-queue_step q leaves = omega (arith, total-at_select leave_loop total-leave_loop q)

  -- However senders and the loop interleave: of the packets that pass any given test, as many were
  -- accepted since a state as are now written, in the loop's hand or in a channel beyond those that
  -- were there before. So no accepted packet is lost or sent twice.
  pub accepted-conserved :
      (q : SendQueue) (xs : List QueueEvent)
      → total (queue_run q xs) ≡ total q + tally p (accepted q xs)
  unfolding queue_run accepted tally
  accepted-conserved q [] = omega arith
  accepted-conserved q (x ∷ xs) =
      let a = total-queue_step q x in
      let b = accepted-conserved (queue_step q x) xs in
      let c = tally-append p (accepted_by q x) (accepted (queue_step q x) xs) in
      omega (arith, a, b, c)
