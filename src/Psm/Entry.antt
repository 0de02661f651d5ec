-- ===== src/Psm/Entry.antt =====
-- The entry points: runTx, runInitialEvent, followEvents and transitionFromLink of
-- psm/statemachine.go.
use protostate.Common.{
  ℕ, ◌+◌, none, some, List, [], ◌∷◌, ◌==◌, str_eq, if◌then◌else◌, Result, ok, err,
}
use protostate.Psm.Model.{Entity, Cause, init, State, Event, EventSpec}
use protostate.Psm.Host.{Host, World}
use protostate.Psm.Tx.{Tx, pure, lift, ◌>>=◌, ◌>>◌, new_uuid, read_clock}
use protostate.Psm.Spec.{validate_and_prepare}
use protostate.Psm.Keys.{assert_present_keys_match}
use protostate.Psm.Machine.{
  StateMachine, get_current_state, first_event_unique_check, follow_event_deduplicate,
}
use protostate.Psm.Prepare.{prepare_event, next_state_event}
use protostate.Psm.Run.{
  CaptureState, capture_initial_state, capture_final_state, dereference, run_event, follow_event,
}

module _ {e : Entity} {h : Host e} (sm : StateMachine h) where
  -- prepareEvent, runEvent and the dereferencing of what it returns.
  unfoldable pub run_prepared : ℕ → CaptureState → State e → EventSpec e → Tx h (State e)
  run_prepared fuel how state spec = do
    (moved, prepared) ← prepare_event state spec
    (captured, final) ← run_event sm fuel how moved prepared
    lift (dereference captured final)

  unfoldable pub run_initial_event : ℕ → State e → Tx h (State e)
  run_initial_event fuel state = elim sm.initial_state_func [
    | none ↦ pure state
    | some f ↦ do
      inner ← f state.keys
      event_id ← new_uuid
      run_prepared fuel capture_final_state state (record {
        keys = state.keys;
        event_id = event_id;
        event = inner;
        cause = some init;
        action = none;
        message = none;
        timestamp = h.zero_time;
      })
  ]

  -- runTx from the point where the current state is known; it gives the event the state's keys.
  unfoldable pub run_from_state :
      ℕ → EventSpec e → State e → World h → Result (State e × World h) × EventSpec e
  run_from_state fuel spec state w =
      let first : Tx h (State e) = (do
        initial ← run_initial_event fuel state
        run_prepared fuel capture_initial_state initial spec) in
      let filled = record spec { keys = state.keys } in
      if state.status == 0
      then (first w, spec)
      else elim (assert_present_keys_match h state.keys spec.keys) [
        | err x ↦ (err x, spec)
        | ok _ ↦ (run_prepared fuel capture_initial_state state filled w, filled)
      ]

  -- runTx from the check of the event's id.
  unfoldable pub run_identified :
      ℕ → EventSpec e → World h → Result (State e × World h) × EventSpec e
  unfolding run_from_state
  run_identified fuel spec w = elim (first_event_unique_check sm spec.event_id spec.event w) [
    | err x ↦ (err x, spec)
    | ok (some existing, checked) ↦ (ok (existing, checked), spec)
    | ok (none, checked) ↦ elim (get_current_state sm spec.keys checked) [
      | err x ↦ (err x, spec)
      | ok (state, found) ↦ run_from_state fuel spec state found
    ]
  ]

  -- `if outerEvent.EventID == "" {…}`
  unfoldable pub assign_id : EventSpec e → World h → EventSpec e × World h
  assign_id spec w =
      if str_eq spec.event_id ""
      then (record spec { event_id = h.uuid w.draws }, record w { draws = w.draws + 1 })
      else (spec, w)

  -- runTx: its result, and the spec as it leaves it, since the spec is passed by pointer.
  unfoldable pub run_tx : ℕ → EventSpec e → World h → Result (State e × World h) × EventSpec e
  unfolding assign_id run_identified
  run_tx fuel spec w =
      let (error, prepared) = validate_and_prepare h spec in
      elim error [
        | some x ↦ (err x, prepared)
        | none ↦
            let (identified, drawn) = assign_id prepared w in run_identified fuel identified drawn
      ]

  -- One round of followEvents.
  unfoldable pub follow_one : ℕ → Event e → Tx h (Unit {0})
  follow_one fuel event = do
    lift (h.validate_event event)
    exists ← follow_event_deduplicate sm event
    let run : Tx h (Unit {0}) = (do
      state ← get_current_state sm event.keys
      begun ← (if state.status == 0 then run_initial_event fuel state else pure state)
      let next = next_state_event begun event.metadata
      follow_event sm next.0 (record event { metadata = next.1 }))
    if exists then pure tt else run

  unfoldable pub follow_events : ℕ → List (Event e) → Tx h (Unit {0})
  unfolding follow_one
  follow_events fuel [] = pure tt
  follow_events fuel (event ∷ events) = do follow_one fuel event; follow_events fuel events

  unfoldable pub transition_from_link : ℕ → Cause e → e.Keys → e.Inner → Tx h (Unit {0})
  transition_from_link fuel cause keys inner = do
    now ← read_clock
    event_id ← new_uuid
    ran ← (λ w.
        (run_tx fuel
          (record {
            keys = keys;
            event_id = event_id;
            event = inner;
            cause = some cause;
            action = none;
            message = none;
            timestamp = now;
          })
          w).0)
    pure tt
