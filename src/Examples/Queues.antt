-- ===== src/Examples/Queues.antt =====
-- The send queue, the limiters, the reconnect delays and the encryption at concrete values.
use gametunnel.Base.{
  ℕ, suc, ◌+◌, ◌≡◌, ◌≤◌, refl, Bool, false, List, [], ◌∷◌, ◌++◌, map, replicate, take, drop, some,
  none, arith, length-append,
}
use gametunnel.Bytes.{IsSafe}
use gametunnel.Net.{UdpAddr}
use gametunnel.Protocol.AddrText.{Ipv6Text}
use gametunnel.Protocol.PeerInfo.{unmarshal_peer_info}
use gametunnel.Protocol.Probe.{unmarshal_ping, unmarshal_nat_probe, unmarshal_nat_response}
use gametunnel.Protocol.Packet.{decode, decode_checked}
use gametunnel.Protocol.Register.{unmarshal_register}
use gametunnel.Protocol.AssignIp.{unmarshal_assign_ip}
use gametunnel.Protocol.Kick.{unmarshal_kick}
use gametunnel.Protocol.Auth.{unmarshal_auth_challenge, unmarshal_auth_response}
use gametunnel.Protocol.Data.{DataPayload, zero_token, unmarshal_data, unmarshal_data_pooled}
use gametunnel.Protocol.Rebind.{unmarshal_rebind, unmarshal_rebind_ack}
use gametunnel.Protocol.Safe.{decoders-IsSafe}
use gametunnel.Server.SendQueue.{
  SendEntry, SendQueue, priority_low, priority_high, is_high, draining_high, finished,
  new_send_queue, QueueEvent, sends, broadcasts, receives_main, advances, queue_run, accepted,
  pending, leave_loop, stop,
}
use gametunnel.Server.SendQueue.Conserve.{total, tally, accepted-conserved}
use gametunnel.Server.SendQueue.Writing.{sent_entries, in_hand}
use gametunnel.Server.SendQueue.Ends.{settle, stop-drained}
use gametunnel.Server.SendQueue.Control.{control-order}
use gametunnel.Server.SendQueue.Order.{highs}
use gametunnel.Server.PacketRate.{
  packet, tick, answers, promised, new_rate_shards, answers-promised,
}
use gametunnel.Client.SendLimiter.{
  LimiterStep, fast, slow_load, slow_store, limiter_run, fresh_tally, new_limiter, admitted-le,
}
use gametunnel.Crypto.{
  Cipher, Aead, new_cipher, check_replay_window, decrypt_into, enc_version, plain, failed,
  decrypt_failed, encrypt, replay_detected,
}
use gametunnel.Crypto.Senders.{decrypt_into-two_senders}
use gametunnel.Crypto.Window.{check_all, accept_all, check_all-accept_all}
use gametunnel.Crypto.Session.{
  encrypt_all, decrypt_all, receive_all, decrypt_all-encrypt_all, decrypt_into-forged,
}
use gametunnel.Words.{le_of, zero_word}

abbrev no_v6 : Ipv6Text
no_v6 = record { show = λ ip. []; parse = λ text. none }

abbrev pooled : DataPayload
pooled = record {
  src_ip = [];
  dst_ip = [];
  format_ver = 0;
  flags = 0;
  token = zero_token;
  bytes = 7 ∷ 7 ∷ [];
}

truncated_example :
    let buf : List ℕ = 9 ∷ 0 ∷ 1 ∷ [] in
    IsSafe (decode_checked buf)
    × IsSafe (decode buf)
    × IsSafe (unmarshal_register buf)
    × IsSafe (unmarshal_assign_ip buf)
    × IsSafe (unmarshal_kick buf)
    × IsSafe (unmarshal_auth_challenge buf)
    × IsSafe (unmarshal_auth_response buf)
    × IsSafe (unmarshal_data buf)
    × IsSafe (unmarshal_data_pooled pooled buf)
    × IsSafe (unmarshal_rebind buf)
    × IsSafe (unmarshal_rebind_ack buf)
    × IsSafe (unmarshal_peer_info no_v6 buf)
    × IsSafe (unmarshal_ping buf)
    × IsSafe (unmarshal_nat_probe buf)
    × IsSafe (unmarshal_nat_response (λ text. none) buf)
truncated_example = decoders-IsSafe no_v6 (λ text. none) pooled (9 ∷ 0 ∷ 1 ∷ [])

abbrev target : UdpAddr
target = record { ip = 1 ∷ 2 ∷ 3 ∷ 4 ∷ []; port = 4000 }

abbrev relay_entry : SendEntry
relay_entry = record { data_bytes = 6 ∷ []; addr = target; priority = priority_low }

abbrev ping_entry : SendEntry
ping_entry = record { data_bytes = 9 ∷ []; addr = target; priority = priority_high }

abbrev traffic : List QueueEvent
traffic =
    sends none false ping_entry
    ∷ sends none false relay_entry
    ∷ broadcasts (7 ∷ []) target
    ∷ receives_main
    ∷ advances
    ∷ sends none false ping_entry
    ∷ advances
    ∷ []

conserved_example :
    total is_high (queue_run (new_send_queue 4 none) traffic)
    ≡ total is_high (new_send_queue 4 none)
      + tally is_high (accepted (new_send_queue 4 none) traffic)
conserved_example = accepted-conserved is_high (new_send_queue 4 none) traffic

control_example :
    highs (sent_entries (queue_run (new_send_queue 4 none) traffic).written)
      ++ (highs (in_hand (queue_run (new_send_queue 4 none) traffic).phase)
          ++ highs (queue_run (new_send_queue 4 none) traffic).ch)
    ≡ highs (accepted (new_send_queue 4 none) traffic)
control_example = control-order 4 none traffic

-- In the middle of a batch of control packets, with one relay packet put off and one more queued.
abbrev halfway : SendQueue
halfway = record {
  ch = relay_entry ∷ [];
  broadcast_ch = [];
  max_size = 4;
  tcp_write = none;
  stopped = false;
  phase = draining_high (ping_entry ∷ []) (relay_entry ∷ []);
  written = [];
}

drained_example :
    ((leave_loop (stop (settle (suc (pending halfway)) halfway))).phase ≡ finished)
    × (pending (leave_loop (stop (settle (suc (pending halfway)) halfway))) ≡ 0)
    × ((p : SendEntry → Bool)
        → tally p
            (sent_entries (leave_loop (stop (settle (suc (pending halfway)) halfway))).written)
          ≡ total p halfway)
drained_example = stop-drained halfway refl

rate_example :
    answers new_rate_shards (packet target ∷ tick ∷ packet target ∷ [])
    ≡ promised [] (packet target ∷ tick ∷ packet target ∷ [])
rate_example = answers-promised (packet target ∷ tick ∷ packet target ∷ [])

-- Two calls of the burst: the second takes the fast path while the first is on the slow one.
abbrev racing : List LimiterStep
racing = slow_load 5 100 ∷ fast 100 ∷ slow_store ∷ []

abbrev three_each : ℕ → ℕ → ℕ
three_each elapsed rate = 3

admitted_example :
    let t = limiter_run three_each racing (fresh_tally 10 100 0) in
    (t.admitted ≤ 100 + t.refilled + t.raced) × (t.limiter.tokens ≤ 100)
admitted_example = admitted-le three_each 10 100 0 racing

-- Without the bytes that raced the bound fails.
raced_twice : (limiter_run three_each racing (fresh_tally 10 100 0)).admitted ≡ 200
unfolding limiter_run new_limiter
raced_twice = refl

raced_refilled : (limiter_run three_each racing (fresh_tally 10 100 0)).refilled ≡ 3
unfolding limiter_run new_limiter
raced_refilled = refl

window_example :
    check_all (5 ∷ 7 ∷ 5 ∷ 6 ∷ []) (new_cipher [] []) ≡ accept_all (5 ∷ 7 ∷ 5 ∷ 6 ∷ []) []
window_example = check_all-accept_all [] [] (5 ∷ 7 ∷ 5 ∷ 6 ∷ [])

-- An AEAD that appends its tag, and one that opens nothing.
abbrev pub tagging : Aead
tagging = record { seal = λ nonce p. replicate 16 0 ++ p; open_ = λ nonce c. some (drop 16 c) }

abbrev closed : Aead
closed = record { seal = λ nonce p. replicate 16 0 ++ p; open_ = λ nonce c. none }

abbrev pub sending : Cipher
sending = record {
  counter = 3;
  dir_tag = replicate 4 0;
  replay_counter = 0;
  replay_bitmap = zero_word;
}

session_example :
    decrypt_all tagging sending (encrypt_all tagging sending ((1 ∷ 2 ∷ []) ∷ (3 ∷ []) ∷ []))
    ≡ map plain ((1 ∷ 2 ∷ []) ∷ (3 ∷ []) ∷ [])
session_example =
    decrypt_all-encrypt_all tagging (λ nonce p. refl)
      (λ nonce p. omega (arith, length-append (replicate 16 0) p)) ((1 ∷ 2 ∷ []) ∷ (3 ∷ []) ∷ [])
      sending sending refl (omega arith) (omega arith)

abbrev far_nonce : List ℕ
far_nonce = 0 ∷ 1 ∷ replicate 10 0

-- After it come a packet with a lower counter and one that is no packet.
abbrev afterwards : List (List ℕ)
afterwards = (enc_version ∷ replicate 28 0) ∷ [] ∷ []

forged_example :
    let (after, answer) =
      decrypt_into closed [] (enc_version ∷ (far_nonce ++ replicate 16 0)) sending in
    (answer ≡ failed decrypt_failed)
    × (after.replay_counter ≡ le_of (take 8 far_nonce))
    × ((check_replay_window 4 (receive_all closed afterwards after)).1 ≡ false)
unfolding le_of
forged_example =
    decrypt_into-forged closed far_nonce (replicate 16 0) sending 4 afterwards refl (omega arith)
      refl (omega arith) (omega arith)

abbrev ahead : Cipher
ahead = record sending { counter = 100 }

two_senders_example :
    ((decrypt_into tagging [] (encrypt tagging ahead (1 ∷ [])).1 sending).1 ≡ plain (1 ∷ []))
    × ((decrypt_into tagging []
          (encrypt tagging sending (2 ∷ [])).1
          (decrypt_into tagging [] (encrypt tagging ahead (1 ∷ [])).1 sending).0).1
        ≡ failed replay_detected)
two_senders_example =
    decrypt_into-two_senders tagging (λ nonce p. refl)
      (λ nonce p. omega (arith, length-append (replicate 16 0) p)) ahead sending sending (1 ∷ [])
      (2 ∷ []) refl refl (omega arith) (omega arith) (omega arith)
