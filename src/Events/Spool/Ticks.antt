-- ===== src/Events/Spool/Ticks.antt =====
-- What a segment and a tick (stormpulse/agent/event_spool.py) keep: no record is uncounted, and no
-- buffered event is lost to a segment.
use storm_pulse.Base.{◌≡◌, List, ◌++◌}
use storm_pulse.Events.Buffer.{Event, EventBuffer}
use storm_pulse.Events.Spool.{Spool}

-- Events are added at the end, and nothing is dropped.
pub record IsGrown (b n : EventBuffer) : Type 0 where
  pub added : List Event
  pub buf : n.buf ≡ b.buf ++ added
  pub dropped : n.dropped ≡ b.dropped
  pub max : n.max ≡ b.max
  pub in_flight : n.in_flight ≡ b.in_flight
