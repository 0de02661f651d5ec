-- ===== src/Psm/Prepare.antt =====
-- Preparing events: prepareEvent, nextStateEvent and deriveEvent of psm/statemachine.go.
pub mod Sequence
use protostate.Common.{◌+◌, none, some, List, [], ◌∷◌, ◌==◌, if◌then◌else◌, guard, unknown_event}
use protostate.Psm.Model.{Entity, psm_event, EventMetadata, State, Event, EventSpec}
use protostate.Psm.Host.{Host}
use protostate.Psm.Tx.{Tx, pure, lift, ◌>>=◌, ◌>>◌, new_uuid, read_clock}
use protostate.Psm.Machine.{u64}

module _ {e : Entity} where
  -- nextStateEvent: both messages are changed in place.
  unfoldable pub next_state_event : State e → EventMetadata e → State e × EventMetadata e
  next_state_event state meta =
      let old = state.metadata in
      if state.status == 0
      then (
        record state {
          metadata = record old { created_at = meta.timestamp; updated_at = meta.timestamp };
        },
        record meta { sequence = 0 },
      )
      else (
        record state {
          metadata = record old {
            last_sequence = u64 (old.last_sequence + 1);
            updated_at = meta.timestamp;
          };
        },
        record meta { sequence = u64 (old.last_sequence + 1) },
      )

module _ {e : Entity} {h : Host e} where
  -- prepareEvent: the event, and the state that nextStateEvent has changed.
  unfoldable pub prepare_event : State e → EventSpec e → Tx h (State e × Event e)
  unfolding next_state_event
  prepare_event state spec = do
    lift (guard (h.known_event spec.event) unknown_event)
    now ← read_clock
    let meta : EventMetadata e = record {
      event_id = spec.event_id;
      sequence = 0;
      timestamp = some now;
      cause = spec.cause;
    }
    let next = next_state_event state meta
    pure (next.0, record { metadata = next.1; keys = spec.keys; inner = spec.event })

  -- deriveEvent
  unfoldable pub derive_event : Event e → e.Inner → Tx h (EventSpec e)
  derive_event cause chained = do
    event_id ← new_uuid
    now ← read_clock
    pure (record {
      keys = cause.keys;
      event_id = event_id;
      event = chained;
      cause = some (psm_event cause.metadata.event_id h.full_name);
      action = none;
      message = none;
      timestamp = now;
    })

  -- The loop of runEvent over the chained events of the baton.
  unfoldable pub derive_events : Event e → List e.Inner → Tx h (List (EventSpec e))
  unfolding derive_event
  derive_events cause [] = pure []
  derive_events cause (chained ∷ more) = do
    derived ← derive_event cause chained
    rest ← derive_events cause more
    pure (derived ∷ rest)
