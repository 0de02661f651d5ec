-- ===== src/Psm/Prepare/Sequence.antt =====
-- The sequence numbers that prepareEvent and nextStateEvent of psm/statemachine.go give.
use protostate.Common.{◌+◌, ◌^◌, ◌<◌, ◌≡◌, ◌≢◌, ok, arith}
use protostate.Psm.Model.{Entity, State, Event, EventSpec}
use protostate.Psm.Host.{Host, World}
use protostate.Psm.Tx.{◌>>=◌}
use protostate.Psm.Prepare.{prepare_event}

module _ {e : Entity} {h : Host e} where
  -- For an entity that exists, and has a sequence number left below 2 ^ 64, a prepared event has the
  -- number after the last one of the state, and the state takes that number and the event's time. The
  -- event has the id, keys, cause and data of the spec, and the status, keys and data of the state stay.
  pub prepare_event-sequence :
      (state : State e) (spec : EventSpec e) (w w' : World h) (moved : State e) (event : Event e)
      → state.status ≢ 0
      → state.metadata.last_sequence + 1 < 2 ^ 64
      → prepare_event state spec w ≡ ok ((moved, event), w')
      → (event.metadata.sequence ≡ state.metadata.last_sequence + 1)
        × (moved.metadata.last_sequence ≡ event.metadata.sequence)
        × (moved.metadata.updated_at ≡ event.metadata.timestamp)
        × (moved.metadata.created_at ≡ state.metadata.created_at)
        × (event.metadata.event_id ≡ spec.event_id)
        × (event.keys ≡ spec.keys)
        × (event.metadata.cause ≡ spec.cause)
        × (event.inner ≡ spec.event)
        × (moved.status ≡ state.status)
        × (moved.keys ≡ state.keys)
        × (moved.value ≡ state.value)
  unfolding prepare_event ◌>>=◌
  prepare_event-sequence state spec w w' moved event p q r = ground arith
