-- ===== src/Server/Room/Seats/Running.antt =====
-- Who holds which address after any sequence of events, from the creation of the room on.
use gametunnel.Base.{
  ℕ, ◌≤◌, ◌<◌, ◌≡◌, ◌≢◌, refl, sym, ap, ◌∙◌, false, true, none, some, List, [], ◌∷◌, arith,
}
use gametunnel.Net.{Ip, UdpAddr, RateKey, addr_to_rate_key, ip_key, ipv4}
use gametunnel.Map.{lookup, bytes_key}
use gametunnel.Server.Bitmap.{empty_bitmap, is_used, IsShaped}
use gametunnel.Server.Bitmap.Marks.{mark_ip_used-IsShaped}
use gametunnel.Protocol.Register.{RegisterPayload}
use gametunnel.Server.Room.Helpers.{do_register_client}
use gametunnel.Server.Room.Seats.Registering.{do_register_client-fresh}
use gametunnel.Server.Room.{Env, Room, Ref, Crypto, rate_key, is_pending}
use gametunnel.Server.Room.Create.{RoomConfig, new_room}
use gametunnel.Server.Room.Lifecycle.{
  Event, registers, responds, keeps_alive, disconnects, relays, cleans_up, reg_ticks, step, run,
}
use gametunnel.Server.Room.Seats.{IsSeated}
use gametunnel.Server.Room.Seats.Locked.{handle_register-IsSeated}
use gametunnel.Server.Room.Seats.Responding.{handle_auth_response-IsSeated}
use gametunnel.Server.Room.Seats.Moving.{handle_relay-IsSeated}
use gametunnel.Server.Room.Seats.Leaving.{
  handle_keep_alive-IsSeated, handle_disconnect-IsSeated, cleanup_stale-IsSeated,
}
use gametunnel.Server.Room.Seats.Seating.{none_ne_some}

pub step-IsSeated :
    (crypto : Crypto) (r : Room) (e : Event) → IsSeated r → IsSeated (step crypto r e)
unfolding step
step-IsSeated crypto r (registers env payload from) v =
    handle_register-IsSeated env payload from r v
step-IsSeated crypto r (responds env payload from) v =
    handle_auth_response-IsSeated crypto env payload from r v
step-IsSeated crypto r (keeps_alive env payload from) v =
    handle_keep_alive-IsSeated env payload from r v
step-IsSeated crypto r (disconnects env from) v = handle_disconnect-IsSeated env from r v
step-IsSeated crypto r (relays allow env payload from) v =
    handle_relay-IsSeated allow env payload from r v
step-IsSeated crypto r (cleans_up now later) v = cleanup_stale-IsSeated now later r v
step-IsSeated crypto r reg_ticks v = v

run-IsSeated :
    (crypto : Crypto) (r : Room) (es : List Event) → IsSeated r → IsSeated (run crypto r es)
unfolding run
run-IsSeated crypto r [] v = v
run-IsSeated crypto r (e ∷ es) v =
    run-IsSeated crypto (step crypto r e) es (step-IsSeated crypto r e v)

empty_bitmap-IsShaped : IsShaped empty_bitmap
unfolding empty_bitmap
empty_bitmap-IsShaped = record { four = refl; wide = (refl, (refl, (refl, (refl, tt)))) }

pub new_room-IsSeated : (cfg : RoomConfig) (now : ℕ) → IsSeated (new_room cfg now)
unfolding new_room lookup
new_room-IsSeated cfg now = record {
  shaped = mark_ip_used-IsShaped 255 _ (omega arith) (
      mark_ip_used-IsShaped 1 _ (omega arith)
        (mark_ip_used-IsShaped 0 _ (omega arith) empty_bitmap-IsShaped));
  clients_distinct = tt;
  addrs_distinct = tt;
  seats = λ k p h. absurd (none_ne_some h);
  entries = λ k p h. absurd (none_ne_some h);
}

pub run_seats :
    (crypto : Crypto) (cfg : RoomConfig) (now : ℕ) (es : List Event)
    → IsSeated (run crypto (new_room cfg now) es)
run_seats crypto cfg now es = run-IsSeated crypto (new_room cfg now) es (new_room-IsSeated cfg now)

module _ (crypto : Crypto) (cfg : RoomConfig) (now : ℕ) (es : List Event) where
  abbrev reached : Room
  reached = run crypto (new_room cfg now) es

  -- From the creation of a room on, whatever registrations, responses, keepalives, relayed packets,
  -- disconnects, cleanups and ticks happen to it: a client of its table is registered, stands under
  -- the key of its own address, that address is one of the pool of the subnet and marked as used in
  -- the bitmap.
  pub run-seated :
      (k : List ℕ) (p : Ref)
      → lookup k reached.clients ≡ some p
      → (is_pending (reached.heap p) ≡ false)
        × (k ≡ ip_key (reached.heap p).virtual_ip)
        × ((octet : ℕ) × (2 ≤ octet)
            × (octet < 255)
            × ((reached.heap p).virtual_ip
                ≡ ipv4 reached.subnet.b0 reached.subnet.b1 reached.subnet.b2 octet)
            × (is_used reached.ip_bitmap octet ≡ true))
  run-seated k p h =
      let (small, s) = (run_seats crypto cfg now es).seats k p h in
      (s.settled, s.key, (s.octet, s.low, s.high, s.vip, s.used))

  -- After any sequence of events of a new room, the address that the next registration gets is one that
  -- no client of the table has: the new client stands there, and every other client keeps its place.
  pub run-fresh :
      (env : Env) (reg : RegisterPayload) (from : UdpAddr) (vip : Ip) (k : List ℕ) (p : Ref)
      → (do_register_client env reg from reached).1 ≡ some vip
      → lookup k reached.clients ≡ some p
      → (lookup (ip_key vip) reached.clients ≡ none)
        × (lookup (ip_key vip) (do_register_client env reg from reached).0.clients
            ≡ some reached.next_ref)
        × (lookup k (do_register_client env reg from reached).0.clients ≡ some p)
        × (vip ≢ (reached.heap p).virtual_ip)
  run-fresh env reg from vip k p h l =
      let v = run_seats crypto cfg now es in
      let (free, here, there) = do_register_client-fresh env reg from reached vip v h in
      (
        free,
        here,
        there k p l,
        λ e. absurd (
            none_ne_some (
              sym free
              ∙ (ap (λ i. lookup i reached.clients) (ap ip_key e ∙ sym (v.seats k p l).1.key)
                  ∙ l))),
      )

  -- After any sequence of events of a new room, a registered client that the map of addresses leads to
  -- is in the table under its own address, and the entry is the one of the address that packets for
  -- the client are sent to.
  pub run-entry :
      (k : RateKey) (p : Ref)
      → lookup k reached.addr_map ≡ some p
      → is_pending (reached.heap p) ≡ false
      → ((a : UdpAddr) × ((reached.heap p).public_addr ≡ some a) × (addr_to_rate_key a ≡ k))
        × (lookup (ip_key (reached.heap p).virtual_ip) reached.clients ≡ some p)
  run-entry k p h settled = ((run_seats crypto cfg now es).entries k p h).1 settled
