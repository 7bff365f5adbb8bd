-- ===== src/Server/SendQueue/Writing.antt =====
-- What the operations of the queue write, and what the loop leaves when it returns.
use gametunnel.Base.{
  ℕ, ◌≡◌, refl, sym, ap, ◌∙◌, Bool, true, false, Option, List, [], ◌∷◌, ◌++◌, map, if◌then◌else◌,
  append_assoc, append-nil,
}
use gametunnel.Net.{UdpAddr}
use gametunnel.Server.SendQueue.{
  SendEntry, Written, SendQueue, Phase, idle, finished, draining_broadcast, draining_low,
  draining_high, write_udp, write_all, routed, drain, leave_loop,
}

-- The packets that the loop has in hand.
abbrev pub in_hand : Phase → List SendEntry
in_hand idle = []
in_hand finished = []
in_hand (draining_broadcast batch) = batch
in_hand (draining_low batch) = batch
in_hand (draining_high batch deferred) = batch ++ deferred

abbrev pub sent_entries : List Written → List SendEntry
sent_entries ws = map (λ w. w.entry) ws

-- What writing a batch leaves.
pub write_all_lem :
    (es : List SendEntry) (q : SendQueue)
    → write_all es q ≡ record q { written = q.written ++ map (routed q.tcp_write) es }
unfolding write_all
write_all_lem [] q = ap (λ w. record q { written = w }) (sym (append-nil q.written))
write_all_lem (e ∷ es) q =
    write_all_lem es (write_udp e q)
    ∙ ap (λ w. record q { written = w })
        (append_assoc q.written (routed q.tcp_write e ∷ []) (map (routed q.tcp_write) es))

pub sent_entries-append :
    (xs ys : List Written) → sent_entries (xs ++ ys) ≡ sent_entries xs ++ sent_entries ys
sent_entries-append [] ys = refl
sent_entries-append (w ∷ ws) ys = ap (◌∷◌ w.entry) (sent_entries-append ws ys)

pub sent_entries-routed :
    (tcp_write : Option (UdpAddr → List ℕ → Bool)) (es : List SendEntry)
    → sent_entries (map (routed tcp_write) es) ≡ es
sent_entries-routed tcp_write [] = refl
sent_entries-routed tcp_write (e ∷ es) = ap (◌∷◌ e) (sent_entries-routed tcp_write es)

-- What was written, after a batch.
pub sent_entries-write_all :
    (es : List SendEntry) (q : SendQueue)
    → sent_entries (write_all es q).written ≡ sent_entries q.written ++ es
sent_entries-write_all es q = rw (write_all_lem es q) (
    sent_entries-append q.written (map (routed q.tcp_write) es)
    ∙ ap (◌++◌ (sent_entries q.written)) (sent_entries-routed q.tcp_write es))

-- What the loop leaves when it returns.
pub drain_lem :
    (q : SendQueue)
    → let r = map (routed q.tcp_write) in
      drain q
      ≡ record q { ch = []; broadcast_ch = []; written = (q.written ++ r q.ch) ++ r q.broadcast_ch }
unfolding drain
drain_lem q =
    ap (λ m. write_all m.broadcast_ch (record m { broadcast_ch = [] }))
      (write_all_lem q.ch (record q { ch = [] }))
    ∙ write_all_lem q.broadcast_ch _

pub leave_loop_stopped :
    (q : SendQueue) → q.stopped ≡ true → leave_loop q ≡ record (drain q) { phase = finished }
unfolding leave_loop
leave_loop_stopped q t = ap (λ b. if b then record (drain q) { phase = finished } else q) t

pub leave_loop_open : (q : SendQueue) → q.stopped ≡ false → leave_loop q ≡ q
unfolding leave_loop
leave_loop_open q t = ap (λ b. if b then record (drain q) { phase = finished } else q) t
