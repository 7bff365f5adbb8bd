-- ===== src/Server/SendQueue.antt =====
-- internal/server/sendqueue.go: the queue in front of the server's socket. A state holds the two
-- channels, what the loop of run has in hand, and what was written so far; each event is one
-- operation of a sender or one receive of the loop, so every interleaving of them is a list of
-- events.
pub mod Writing
pub mod Conserve
pub mod Order
pub mod Ends
pub mod Control
use gametunnel.Base.{
  ℕ, ◌+◌, Bool, true, false, ◌&&◌, ◌||◌, Option, none, some, List, [], ◌∷◌, ◌++◌, ltb,
  if◌then◌else◌, length,
}
use gametunnel.Net.{UdpAddr}

pub data SendPriority : Type 0 where
  priority_low priority_high : SendPriority

pub record SendEntry : Type 0 where
  pub data_bytes : List ℕ
  pub addr : UdpAddr
  pub priority : SendPriority

abbrev pub is_high : SendEntry → Bool
is_high e = elim e.priority [ priority_high ↦ true | priority_low ↦ false ]

abbrev pub batch_buf_size : ℕ
batch_buf_size = 64

abbrev pub broadcast_ch_size : ℕ
broadcast_ch_size = 4096

-- Where the loop of run is: at its select, in one of its three batches with what they hold (a batch of
-- control packets also holds the relay packets that it put off), or returned.
pub data Phase : Type 0 where
  idle finished : Phase
  draining_broadcast draining_low : List SendEntry → Phase
  draining_high : List SendEntry → List SendEntry → Phase

-- A packet on its way, and whether the TCP bridge took it.
pub record Written : Type 0 where
  pub entry : SendEntry
  pub by_tcp : Bool

pub record SendQueue : Type 0 where
  pub ch : List SendEntry
  pub broadcast_ch : List SendEntry
  pub max_size : ℕ
  pub tcp_write : Option (UdpAddr → List ℕ → Bool)
  pub stopped : Bool
  pub phase : Phase
  pub written : List Written

unfoldable pub new_send_queue : ℕ → Option (UdpAddr → List ℕ → Bool) → SendQueue
new_send_queue max_size tcp_write = record {
  ch = [];
  broadcast_ch = [];
  max_size = max_size;
  tcp_write = tcp_write;
  stopped = false;
  phase = idle;
  written = [];
}

-- The bridge is asked first, if there is one.
abbrev pub routed : Option (UdpAddr → List ℕ → Bool) → SendEntry → Written
routed tcp_write e = record {
  entry = e;
  by_tcp = elim tcp_write [ none ↦ false | some write ↦ write e.addr e.data_bytes ];
}

unfoldable pub write_udp : SendEntry → SendQueue → SendQueue
write_udp e q = record q { written = q.written ++ (routed q.tcp_write e ∷ []) }

-- `for i := 0; i < n; i++ { sq.writeUDP(batch[i].data, batch[i].addr) }`
unfoldable pub write_all : List SendEntry → SendQueue → SendQueue
unfolding write_udp
write_all [] q = q
write_all (e ∷ es) q = write_all es (write_udp e q)

-- send, at the moment when its select is decided: a control packet gives up when its 50 ms are over,
-- a relay packet when there is no room.
unfoldable pub send : Bool → SendEntry → SendQueue → SendQueue × Bool
send timed_out e q =
    if is_high e && timed_out
    then (q, false)
    else if ltb (length q.ch) q.max_size
    then (record q { ch = q.ch ++ (e ∷ []) }, true)
    else (q, false)

-- The entry of sendBroadcast has the zero priority, which is the low one.
abbrev pub broadcast_entry : List ℕ → UdpAddr → SendEntry
broadcast_entry bytes addr = record { data_bytes = bytes; addr = addr; priority = priority_low }

unfoldable pub send_broadcast : List ℕ → UdpAddr → SendQueue → SendQueue × Bool
unfolding write_udp
send_broadcast bytes addr q =
    let e = broadcast_entry bytes addr in
    if ltb (length q.broadcast_ch) broadcast_ch_size
    then (record q { broadcast_ch = q.broadcast_ch ++ (e ∷ []) }, true)
    else (write_udp e q, true)

-- `case e := <-sq.broadcastCh`
unfoldable pub take_broadcast : SendQueue → SendQueue
unfolding write_udp
take_broadcast q = elim q.broadcast_ch [
  | [] ↦ q
  | e ∷ es ↦ record (write_udp e q) { broadcast_ch = es; phase = draining_broadcast [] }
]

-- `case e := <-sq.ch`
unfoldable pub take_main : SendQueue → SendQueue
unfolding write_udp
take_main q = elim q.ch [
  | [] ↦ q
  | e ∷ es ↦
      if is_high e
      then record (write_udp e q) { ch = es; phase = draining_high [] [] }
      else record q { ch = es; phase = draining_low (e ∷ []) }
]

-- The batch is written, and the loop is back at its select.
unfoldable pub end_batch : List SendEntry → SendQueue → SendQueue
unfolding write_all
end_batch es q = record (write_all es q) { phase = idle }

-- One round of DrainBroadcast.
unfoldable pub drain_broadcast_step : List SendEntry → SendQueue → SendQueue
unfolding end_batch
drain_broadcast_step batch q =
    if ltb (length batch) batch_buf_size
    then elim q.broadcast_ch [
      | [] ↦ end_batch batch q
      | e ∷ es ↦ record q { broadcast_ch = es; phase = draining_broadcast (batch ++ (e ∷ [])) }
    ]
    else end_batch batch q

-- One round of DrainHigh: a relay packet is put off while there is a place for it.
unfoldable pub drain_high_step : List SendEntry → List SendEntry → SendQueue → SendQueue
unfolding end_batch write_udp
drain_high_step batch deferred q =
    if ltb (length batch) batch_buf_size
    then elim q.ch [
      | [] ↦ end_batch (batch ++ deferred) q
      | e ∷ es ↦
          if is_high e
          then record q { ch = es; phase = draining_high (batch ++ (e ∷ [])) deferred }
          else if ltb (length deferred) batch_buf_size
          then record q { ch = es; phase = draining_high batch (deferred ++ (e ∷ [])) }
          else record (write_udp e q) { ch = es; phase = draining_high batch deferred }
    ]
    else end_batch (batch ++ deferred) q

-- One round of DrainLow: a control packet is written at once.
unfoldable pub drain_low_step : List SendEntry → SendQueue → SendQueue
unfolding end_batch write_udp
drain_low_step batch q =
    if ltb (length batch) batch_buf_size
    then elim q.ch [
      | [] ↦ end_batch batch q
      | e ∷ es ↦
          if is_high e
          then record (write_udp e q) { ch = es; phase = draining_low batch }
          else record q { ch = es; phase = draining_low (batch ++ (e ∷ [])) }
    ]
    else end_batch batch q

unfoldable pub advance : SendQueue → SendQueue
unfolding drain_broadcast_step drain_high_step drain_low_step
advance q = elim q.phase [
  | idle ↦ q
  | finished ↦ q
  | draining_broadcast batch ↦ drain_broadcast_step batch q
  | draining_low batch ↦ drain_low_step batch q
  | draining_high batch deferred ↦ drain_high_step batch deferred q
]

-- drain, when nobody sends any more: drainMain and then drainBroadcast.
unfoldable pub drain : SendQueue → SendQueue
unfolding write_all
drain q =
    let main = write_all q.ch (record q { ch = [] }) in
    write_all main.broadcast_ch (record main { broadcast_ch = [] })

unfoldable pub pending : SendQueue → ℕ
pending q = length q.ch + length q.broadcast_ch

-- Stop, however often, or the end of the context: both make the loop return in the same way.
unfoldable pub stop : SendQueue → SendQueue
stop q = record q { stopped = true }

-- `case <-sq.stopCh` and `case <-ctx.Done()`
unfoldable pub leave_loop : SendQueue → SendQueue
unfolding drain
leave_loop q = if q.stopped then record (drain q) { phase = finished } else q

-- rateLimitedQueue.send, with Allow of the limiter as a function.
unfoldable pub send_limited :
    Option (UdpAddr → ℕ → Bool) → Bool → SendEntry → SendQueue → SendQueue × Bool
unfolding send
send_limited limiter timed_out e q =
    let allowed : Bool = elim limiter [
      | none ↦ true
      | some allow ↦ allow e.addr (length e.data_bytes)
    ] in
    if is_high e || allowed then send timed_out e q else (q, false)

pub data QueueEvent : Type 0 where
  sends : Option (UdpAddr → ℕ → Bool) → Bool → SendEntry → QueueEvent
  broadcasts : List ℕ → UdpAddr → QueueEvent
  receives_broadcast receives_main advances stops leaves : QueueEvent

-- The three cases of the select are open at the select only.
abbrev pub at_select : (SendQueue → SendQueue) → SendQueue → SendQueue
at_select f q = elim q.phase [ idle ↦ f q | _ ↦ q ]

unfoldable pub queue_step : SendQueue → QueueEvent → SendQueue
unfolding send_limited send_broadcast take_broadcast take_main advance stop leave_loop
queue_step q (sends limiter timed_out e) = (send_limited limiter timed_out e q).0
queue_step q (broadcasts bytes addr) = (send_broadcast bytes addr q).0
queue_step q receives_broadcast = at_select take_broadcast q
queue_step q receives_main = at_select take_main q
queue_step q advances = advance q
queue_step q stops = stop q
queue_step q leaves = at_select leave_loop q

unfoldable pub queue_run : SendQueue → List QueueEvent → SendQueue
unfolding queue_step
queue_run q [] = q
queue_run q (x ∷ xs) = queue_run (queue_step q x) xs

-- The packets that the queue took over, in order.
unfoldable pub accepted_by : SendQueue → QueueEvent → List SendEntry
accepted_by q (sends limiter timed_out e) =
    if (send_limited limiter timed_out e q).1 then e ∷ [] else []
accepted_by q (broadcasts bytes addr) = broadcast_entry bytes addr ∷ []
accepted_by q _ = []

unfoldable pub accepted : SendQueue → List QueueEvent → List SendEntry
unfolding accepted_by queue_step
accepted q [] = []
accepted q (x ∷ xs) = accepted_by q x ++ accepted (queue_step q x) xs
