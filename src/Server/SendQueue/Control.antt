-- ===== src/Server/SendQueue/Control.antt =====
-- The order of the control packets over any sequence of events.
use gametunnel.Base.{
  ℕ, ◌≡◌, refl, sym, ap, ◌∙◌, Bool, true, ◌&&◌, ◌||◌, Option, none, some, List, [], ◌∷◌, ◌++◌, map,
  length, ltb, if◌then◌else◌, append_assoc, append-nil, Bool-cases, inl, inr,
}
use gametunnel.Net.{UdpAddr}
use gametunnel.Server.SendQueue.{
  SendEntry, SendQueue, Phase, idle, finished, draining_broadcast, draining_low, new_send_queue,
  draining_high, QueueEvent, sends, broadcasts, receives_broadcast, receives_main, advances, stops,
  leaves, routed, send, send_limited, send_broadcast, broadcast_entry, take_broadcast, take_main,
  drain_broadcast_step, drain_high_step, drain_low_step, advance, stop, leave_loop, at_select,
  queue_step, queue_run, accepted_by, accepted, is_high, broadcast_ch_size,
}
use gametunnel.Server.SendQueue.Writing.{
  in_hand, sent_entries, sent_entries-append, sent_entries-routed, drain_lem, leave_loop_stopped,
  leave_loop_open,
}
use gametunnel.Server.SendQueue.Order.{
  highs, highs-append, highs_nil, in_order, Sorted, take_main-Ordered, take_broadcast-Ordered,
  drain_broadcast_step-Ordered, drain_low_step-Ordered, drain_high_step-Ordered, highs-write_udp,
}

-- An operation that takes these control packets over.
abbrev Takes : SendQueue → SendQueue → List SendEntry → Type 0
Takes q q' new = (in_order q' ≡ in_order q ++ new) × Sorted q'

abbrev Keeps : SendQueue → SendQueue → Type 0
Keeps q q' = (in_order q' ≡ in_order q) × Sorted q'

Keeps-Takes : (q q' : SendQueue) → Keeps q q' → Takes q q' []
Keeps-Takes q q' (e, v) = (e ∙ sym (append-nil (in_order q)), v)

advance-Keeps : (q : SendQueue) → Sorted q → Keeps q (advance q)
unfolding advance
advance-Keeps q v = go q.phase refl
  where
    go :
        (ph : Phase)
        → q.phase ≡ ph
        → Keeps q (elim ph as (λ _. SendQueue) [
          | idle ↦ q
          | finished ↦ q
          | draining_broadcast batch ↦ drain_broadcast_step batch q
          | draining_low batch ↦ drain_low_step batch q
          | draining_high batch deferred ↦ drain_high_step batch deferred q
        ])
    go idle h = (refl, v)
    go finished h = (refl, v)
    go (draining_broadcast batch) h = drain_broadcast_step-Ordered batch q h v
    go (draining_low batch) h = drain_low_step-Ordered batch q h v
    go (draining_high batch deferred) h = drain_high_step-Ordered batch deferred q h v

leave_loop-Keeps : (q : SendQueue) → q.phase ≡ idle → Sorted q → Keeps q (leave_loop q)
leave_loop-Keeps q h v = elim (Bool-cases q.stopped) [
  | inr f ↦ rw (leave_loop_open q f) (refl, v)
  | inl t ↦
      let r = map (routed q.tcp_write) in
      let main = q.written ++ r q.ch in
      let a = sent_entries-append main (r q.broadcast_ch) in
      let b = sent_entries-append q.written (r q.ch) in
      let c = sent_entries-routed q.tcp_write q.ch in
      let d = sent_entries-routed q.tcp_write q.broadcast_ch in
      let e = highs-append (sent_entries q.written ++ q.ch) q.broadcast_ch in
      let f = highs-append (sent_entries q.written) q.ch in
      let w = highs (sent_entries q.written) ++ highs q.ch in
      rw (leave_loop_stopped q t, drain_lem q, h, a, b, c, d, e, f, v.1, highs_nil)
        (append-nil (w ++ []) ∙ append-nil w, (tt, refl))
]

at_select-Keeps :
    (f : SendQueue → SendQueue)
    → ((q : SendQueue) → q.phase ≡ idle → Sorted q → Keeps q (f q))
    → (q : SendQueue) → Sorted q
    → Keeps q (at_select f q)
at_select-Keeps f same q v = go q.phase refl
  where
    go : (ph : Phase) → q.phase ≡ ph → Keeps q (elim ph as (λ _. SendQueue) [ idle ↦ f q | _ ↦ q ])
    go idle h = same q h v
    go finished h = (refl, v)
    go (draining_broadcast batch) h = (refl, v)
    go (draining_low batch) h = (refl, v)
    go (draining_high batch deferred) h = (refl, v)

-- A packet at the end of the main channel.
send-Takes :
    (timed_out : Bool) (e : SendEntry) (q : SendQueue)
    → Sorted q
    → Takes q (send timed_out e q).0 (highs (if (send timed_out e q).1 then e ∷ [] else []))
unfolding send
send-Takes timed_out e q v =
    let w = highs (sent_entries q.written) in
    let m = highs (in_hand q.phase) in
    let kept : Takes q q (highs []) = rw highs_nil (Keeps-Takes q q (refl, v)) in
    let a = append_assoc w (m ++ highs q.ch) (highs (e ∷ [])) in
    let b = append_assoc m (highs q.ch) (highs (e ∷ [])) in
    elim (Bool-cases (is_high e && timed_out)) [
      | inl t ↦ rw (t, send) kept
      | inr t ↦ elim (Bool-cases (ltb (length q.ch) q.max_size)) [
        | inl f ↦ rw (t, send, f, highs-append q.ch (e ∷ []), a, b) (refl, v)
        | inr f ↦ rw (t, send, f) kept
      ]
    ]

send_limited-Takes :
    (limiter : Option (UdpAddr → ℕ → Bool)) (timed_out : Bool) (e : SendEntry) (q : SendQueue)
    → Sorted q
    → Takes q
        (send_limited limiter timed_out e q).0
        (highs (if (send_limited limiter timed_out e q).1 then e ∷ [] else []))
unfolding send_limited
send_limited-Takes limiter timed_out e q v =
    let allowed : Bool = elim limiter [
      | none ↦ true
      | some allow ↦ allow e.addr (length e.data_bytes)
    ] in
    elim (Bool-cases (is_high e || allowed)) [
      | inl t ↦ rw (t, send_limited) (send-Takes timed_out e q v)
      | inr t ↦ rw (t, send_limited, highs_nil) (Keeps-Takes q q (refl, v))
    ]

send_broadcast-Keeps :
    (bytes : List ℕ) (addr : UdpAddr) (q : SendQueue)
    → Sorted q
    → Keeps q (send_broadcast bytes addr q).0
unfolding send_broadcast highs
send_broadcast-Keeps bytes addr q v =
    let e = broadcast_entry bytes addr in
    elim (Bool-cases (ltb (length q.broadcast_ch) broadcast_ch_size)) [
      | inl t ↦
          rw (t, send_broadcast) (refl, (v.0, highs-append q.broadcast_ch (e ∷ []) ∙ rw v.1 refl))
      | inr t ↦
          let w = highs-write_udp e q ∙ append-nil (highs (sent_entries q.written)) in
          rw (t, send_broadcast) (ap (λ l. l ++ (highs (in_hand q.phase) ++ highs q.ch)) w, v)
    ]

queue_step-Takes :
    (q : SendQueue) (x : QueueEvent) → Sorted q → Takes q (queue_step q x) (highs (accepted_by q x))
unfolding queue_step accepted_by highs
queue_step-Takes q (sends limiter timed_out e) v = send_limited-Takes limiter timed_out e q v
queue_step-Takes q (broadcasts bytes addr) v =
    Keeps-Takes q (send_broadcast bytes addr q).0 (send_broadcast-Keeps bytes addr q v)
queue_step-Takes q receives_broadcast v =
    Keeps-Takes q (at_select take_broadcast q)
      (at_select-Keeps take_broadcast take_broadcast-Ordered q v)
queue_step-Takes q receives_main v =
    Keeps-Takes q (at_select take_main q) (at_select-Keeps take_main take_main-Ordered q v)
queue_step-Takes q advances v = Keeps-Takes q (advance q) (advance-Keeps q v)
queue_step-Takes q stops v = Keeps-Takes q (stop q) (refl, v)
queue_step-Takes q leaves v =
    Keeps-Takes q (at_select leave_loop q) (at_select-Keeps leave_loop leave_loop-Keeps q v)

queue_run-Takes :
    (q : SendQueue) (xs : List QueueEvent)
    → Sorted q
    → Takes q (queue_run q xs) (highs (accepted q xs))
unfolding queue_run accepted
queue_run-Takes q [] v = rw highs_nil (Keeps-Takes q q (refl, v))
queue_run-Takes q (x ∷ xs) v =
    let (e, u) = queue_step-Takes q x v in
    let (f, w) = queue_run-Takes (queue_step q x) xs u in
    let a = highs-append (accepted_by q x) (accepted (queue_step q x) xs) in
    let b =
      append_assoc (in_order q) (highs (accepted_by q x)) (highs (accepted (queue_step q x) xs)) in
    (
      f
          ∙ (ap (λ l. l ++ highs (accepted (queue_step q x) xs)) e
              ∙ (b ∙ ap (λ l. in_order q ++ l) (sym a))),
      w,
    )

-- From the creation of a queue on, however senders and the loop interleave: the control packets that
-- were written, followed by those in the loop's hand and those in the channel, are the control
-- packets that the queue took over, in the order in which it did.
pub control-order :
    (max_size : ℕ) (tcp_write : Option (UdpAddr → List ℕ → Bool)) (xs : List QueueEvent)
    → let q = queue_run (new_send_queue max_size tcp_write) xs in
      highs (sent_entries q.written) ++ (highs (in_hand q.phase) ++ highs q.ch)
      ≡ highs (accepted (new_send_queue max_size tcp_write) xs)
unfolding new_send_queue
control-order max_size tcp_write xs =
    (queue_run-Takes (new_send_queue max_size tcp_write) xs (tt, highs_nil)).0 ∙ rw highs_nil refl
