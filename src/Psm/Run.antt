-- ===== src/Psm/Run.antt =====
-- Running events: psm/run.go.
pub mod Inversion
use protostate.Common.{
  ℕ, zero, suc, List, [], ◌∷◌, ◌==◌, if◌then◌else◌, Result, ok, err, duplicate_event_id,
  duplicate_chained_event_id, zero_status, out_of_fuel, nil_dereference,
}
use protostate.Psm.Model.{Entity, State, Event, EventSpec}
use protostate.Psm.Host.{Host}
use protostate.Psm.Tx.{Tx, pure, lift, ◌>>=◌, ◌>>◌, send, send_delayed}
use protostate.Psm.Callbacks.{SideEffect}
use protostate.Psm.Transition.{Transition, build_transition, run_mutations}
use protostate.Psm.Hooks.{run_hooks, run_follower_hooks}
use protostate.Psm.Machine.{StateMachine, store, events_must_be_unique}
use protostate.Psm.Prepare.{prepare_event, derive_events}

-- captureStateType
pub data CaptureState : Type 0 where
  capture_initial_state capture_final_state capture_no_state : CaptureState

-- returnState: nil, a pointer to a clone, or a pointer to the state that the run goes on changing.
pub data Captured (e : Entity) : Type 0 where
  nothing : Captured e
  clone : State e → Captured e
  live : Captured e

-- `*returnState`, when the run has left `final` in the state.
abbrev pub dereference : {e : Entity} → Captured e → State e → Result (State e)
dereference nothing final = err nil_dereference
dereference (clone state) final = ok state
dereference live final = ok final

-- captureIntermediate
abbrev pub intermediate : CaptureState → CaptureState
intermediate capture_final_state = capture_final_state
intermediate capture_initial_state = capture_no_state
intermediate capture_no_state = capture_no_state

module _ {e : Entity} where
  abbrev pub capture : CaptureState → State e → Captured e
  capture capture_initial_state state = clone state
  capture capture_final_state state = live
  capture capture_no_state state = nothing

  -- `if captureState == captureFinalState { returnState = stateAfterRun }`
  abbrev pub recapture : CaptureState → Captured e → Captured e → Captured e
  recapture capture_final_state before after = after
  recapture capture_initial_state before after = before
  recapture capture_no_state before after = before

-- ErrDuplicateEventID of a chained event gets a name of its own.
module _ {A : Type 0} where
  abbrev pub rename_duplicate : Result A → Result A
  rename_duplicate (err duplicate_event_id) = err duplicate_chained_event_id
  rename_duplicate r = r

module _ {e : Entity} {h : Host e} (sm : StateMachine h) where
  unfoldable pub store_after_mutation : State e → Event e → Tx h (Unit {0})
  store_after_mutation state event =
      let checked : Tx h (Unit {0}) = (do lift (h.validate_state state); store sm state event) in
      if state.status == 0 then lift (err zero_status) else checked

  -- What runEvent and followEvent share: build the transition, mutate, store.
  unfoldable pub mutate_and_store : State e → Event e → Tx h (Transition h × State e)
  mutate_and_store state event = do
    transition ← lift (build_transition sm.transition_set state.status (h.event_key event.inner))
    mutated ← lift (run_mutations transition state event)
    store_after_mutation mutated event
    pure (transition, mutated)

  unfoldable pub send_side_effects : List (SideEffect e) → Tx h (Unit {0})
  send_side_effects [] = pure tt
  send_side_effects (se ∷ more) = do
    lift (h.validate_message se.msg)
    (if h.is_zero se.delay then send se.msg else send_delayed se.delay se.msg)
    send_side_effects more

  unfoldable pub chain_must_be_unique : List (EventSpec e) → Tx h (Unit {0})
  chain_must_be_unique chain w = rename_duplicate (events_must_be_unique sm chain w)

  -- The loop over the chained events, given the run of one event.
  unfoldable pub run_chain :
      (CaptureState → State e → Event e → Tx h (Captured e × State e))
      → CaptureState
      → Captured e
      → List (EventSpec e)
      → State e
      → Tx h (Captured e × State e)
  run_chain run how captured [] state = pure (captured, state)
  run_chain run how captured (chained ∷ more) state = do
    (moved, prepared) ← prepare_event state chained
    (after, next) ← run (intermediate how) moved prepared
    run_chain run how (recapture how captured after) more next

  -- runEvent: what it captured, and the state as the run leaves it.
  unfoldable pub run_event : ℕ → CaptureState → State e → Event e → Tx h (Captured e × State e)
  unfolding run_chain mutate_and_store
  run_event zero how state event = lift (err out_of_fuel)
  run_event (suc fuel) how state event = do
    lift (h.validate_event event)
    (transition, mutated) ← mutate_and_store state event
    baton ←
        run_hooks transition (record { side_effects = []; chain_events = []; caused_by = event })
          mutated event
    send_side_effects baton.side_effects
    chain ← derive_events event baton.chain_events
    chain_must_be_unique chain
    run_chain (run_event fuel) how (capture how mutated) chain mutated

  unfoldable pub follow_event : State e → Event e → Tx h (Unit {0})
  unfolding mutate_and_store
  follow_event state event = do
    (transition, mutated) ← mutate_and_store state event
    run_follower_hooks transition mutated event
