-- ===== src/Server/Room/Invariant/Running.antt =====
-- The limits of the room after any sequence of events.
use gametunnel.Base.{List, [], ◌∷◌}
use gametunnel.Server.Room.{Room, Crypto}
use gametunnel.Server.Room.Invariant.{Inv}
use gametunnel.Server.Room.Lifecycle.{
  Event, registers, responds, keeps_alive, disconnects, relays, cleans_up, reg_ticks, step, run,
}
use gametunnel.Server.Room.Invariant.Registering.{handle_register-Inv}
use gametunnel.Server.Room.Invariant.Responding.{handle_auth_response-Inv}
use gametunnel.Server.Room.Invariant.Moving.{handle_relay-Inv}
use gametunnel.Server.Room.Invariant.Leaving.{
  handle_keep_alive-Inv, handle_disconnect-Inv, cleanup_stale-Inv, reg_rate_tick-Inv,
}

pub step-Inv : (crypto : Crypto) (r : Room) (e : Event) → Inv r → Inv (step crypto r e)
unfolding step
step-Inv crypto r (registers env payload from) v = handle_register-Inv env payload from r v
step-Inv crypto r (responds env payload from) v =
    handle_auth_response-Inv crypto env payload from r v
step-Inv crypto r (keeps_alive env payload from) v = handle_keep_alive-Inv env payload from r v
step-Inv crypto r (disconnects env from) v = handle_disconnect-Inv env from r v
step-Inv crypto r (relays allow env payload from) v = handle_relay-Inv allow env payload from r v
step-Inv crypto r (cleans_up now later) v = cleanup_stale-Inv now later r v
step-Inv crypto r reg_ticks v = reg_rate_tick-Inv r v

-- No sequence of registrations, responses, keepalives, relayed packets, disconnects, cleanups and
-- ticks takes a room over its limits: never more clients than it has places, never more connections counted for
-- one address than are allowed, and never more counted pending authentications than allowed.
pub run-Inv : (crypto : Crypto) (r : Room) (es : List Event) → Inv r → Inv (run crypto r es)
unfolding run
run-Inv crypto r [] v = v
run-Inv crypto r (e ∷ es) v = run-Inv crypto (step crypto r e) es (step-Inv crypto r e v)
