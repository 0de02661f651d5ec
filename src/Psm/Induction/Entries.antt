-- ===== src/Psm/Induction/Entries.antt =====
-- The entry points of a machine.
use protostate.Common.{
  Bool-cases, inl, inr, ℕ, ◌≡◌, refl, Option, none, some, List, [], ◌∷◌, ◌==◌, Result, ok, err,
  arith, Error,
}
use protostate.Psm.Model.{Entity, State, Event, EventSpec, Cause}
use protostate.Psm.Host.{Host, World}
use protostate.Psm.Tx.{Tx}
use protostate.Psm.Tx.Moves.{
  Moves, Moves-pure, Moves-lift, Moves-bind, Moves-if, Moves-uuid, Moves-clock,
}
use protostate.Psm.Spec.{validate_and_prepare}
use protostate.Psm.Keys.{assert_present_keys_match}
use protostate.Psm.Machine.{StateMachine, get_current_state, first_event_unique_check}
use protostate.Psm.Run.{CaptureState, capture_initial_state, capture_final_state}
use protostate.Psm.Entry.{
  run_prepared, run_initial_event, run_from_state, run_identified, assign_id, run_tx, follow_one,
  follow_events, transition_from_link,
}
use protostate.Psm.Induction.{PartsMove}
use protostate.Psm.Induction.Pieces.{
  prepare_event-Moves, get_current_state-Moves, first_event_unique_check-Moves,
  follow_event_deduplicate-Moves,
}
use protostate.Psm.Induction.Runs.{run_event-Moves, follow_event-Moves}

module _ {e : Entity} {h : Host e} {R : World h → World h → Type 0} {sm : StateMachine h}
    (parts : PartsMove R sm) where
  open parts use {path}

  pub run_prepared-Moves :
      (fuel : ℕ) (how : CaptureState) (state : State e) (spec : EventSpec e)
      → Moves R (run_prepared sm fuel how state spec)
  unfolding run_prepared
  run_prepared-Moves fuel how state spec =
      Moves-bind path _ _ (prepare_event-Moves path state spec) λ prepared.
        Moves-bind path _ _ (run_event-Moves parts fuel how prepared.0 prepared.1)
          λ out. Moves-lift path _

  pub run_initial_event-Moves :
      (fuel : ℕ) (state : State e) → Moves R (run_initial_event sm fuel state)
  unfolding run_initial_event
  run_initial_event-Moves fuel state = from sm.initial_state_func refl
    where
      from :
          (o : Option (e.Keys → Tx h e.Inner))
          → sm.initial_state_func ≡ o
          → Moves R (run_initial_event sm fuel state)
      from none q = rw (q, run_initial_event) (Moves-pure path state)
      from (some f) q =
          rw (q, run_initial_event)
            (Moves-bind path _ _ (parts.callbacks.initial f q state.keys) λ inner.
              Moves-bind path _ _ (Moves-uuid path)
                λ id. run_prepared-Moves fuel capture_final_state state _)

  run_from_state-at :
      (fuel : ℕ) (spec : EventSpec e) (state : State e) (w w' : World h) (a : State e)
      → (run_from_state sm fuel spec state w).0 ≡ ok (a, w')
      → R w w'
  unfolding run_from_state
  run_from_state-at fuel spec state w w' a q = elim (Bool-cases (state.status == 0)) [
    | inl fresh ↦
        (Moves-bind path _ _ (run_initial_event-Moves fuel state)
            λ initial. run_prepared-Moves fuel capture_initial_state initial spec).at
          w a w' (rw fresh at q)
    | inr stored ↦ matched (assert_present_keys_match h state.keys spec.keys) (rw stored at q)
  ]
    where
      filled : EventSpec e
      filled = record spec { keys = state.keys }

      matched :
          (r : Result (Unit {0}))
          → (let out : Result (State e × World h) × EventSpec e = elim r [
            | err x ↦ (err x, spec)
            | ok _ ↦ (run_prepared sm fuel capture_initial_state state filled w, filled)
          ] in
              out.0)
            ≡ ok (a, w')
          → R w w'
      matched (err x) m = cc
      matched (ok _) m = (run_prepared-Moves fuel capture_initial_state state filled).at w a w' m

  assign_id-db : (spec : EventSpec e) (w : World h) → (assign_id sm spec w).1.db ≡ w.db
  unfolding assign_id
  assign_id-db spec w = ground arith

  run_identified-at :
      (fuel : ℕ) (spec : EventSpec e) (w w' : World h) (a : State e)
      → (run_identified sm fuel spec w).0 ≡ ok (a, w')
      → R w w'
  unfolding run_identified
  run_identified-at fuel spec w w' a q =
      checked (first_event_unique_check sm spec.event_id spec.event w)
        ((first_event_unique_check-Moves path sm spec.event_id spec.event).at w) q
    where
      found :
          (v : World h) (r : Result (State e × World h))
          → ((s : State e) (u : World h) → r ≡ ok (s, u) → R v u)
          → (let out : Result (State e × World h) × EventSpec e = elim r [
            | err x ↦ (err x, spec)
            | ok (state, u) ↦ run_from_state sm fuel spec state u
          ] in
              out.0)
            ≡ ok (a, w')
          → R v w'
      found v (err x) k m = cc
      found v (ok (state, u)) k m =
          path.trans v u w' (k state u refl) (run_from_state-at fuel spec state u w' a m)

      checked :
          (r : Result (Option (State e) × World h))
          → ((o : Option (State e)) (v : World h) → r ≡ ok (o, v) → R w v)
          → (let out : Result (State e × World h) × EventSpec e = elim r [
            | err x ↦ (err x, spec)
            | ok (some existing, v) ↦ (ok (existing, v), spec)
            | ok (none, v) ↦ elim (get_current_state sm spec.keys v) [
              | err x ↦ (err x, spec)
              | ok (state, u) ↦ run_from_state sm fuel spec state u
            ]
          ] in
              out.0)
            ≡ ok (a, w')
          → R w w'
      checked (err x) k m = cc
      checked (ok (some existing, v)) k m = k (some existing) w' (ground arith)
      checked (ok (none, v)) k m = path.trans w v w' (k none v refl) (
          found v (get_current_state sm spec.keys v)
            ((get_current_state-Moves path sm spec.keys).at v) m)

  -- Every successful runTx moves the world along the relation.
  pub run_tx-at :
      (fuel : ℕ) (spec : EventSpec e) (w w' : World h) (a : State e)
      → (run_tx sm fuel spec w).0 ≡ ok (a, w')
      → R w w'
  unfolding run_tx
  run_tx-at fuel spec w w' a q = go (validate_and_prepare h spec).0 q
    where
      prepared : EventSpec e
      prepared = (validate_and_prepare h spec).1

      go :
          (x : Option Error)
          → (let out : Result (State e × World h) × EventSpec e = elim x [
            | some x ↦ (err x, prepared)
            | none ↦ run_identified sm fuel (assign_id sm prepared w).0 (assign_id sm prepared w).1
          ] in
              out.0)
            ≡ ok (a, w')
          → R w w'
      go (some x) m = cc
      go none m =
          path.trans w (assign_id sm prepared w).1 w'
            (path.same_db w (assign_id sm prepared w).1 (assign_id-db prepared w))
            (run_identified-at fuel (assign_id sm prepared w).0 (assign_id sm prepared w).1 w' a m)

  pub transition_from_link-Moves :
      (fuel : ℕ) (cause : Cause e) (keys : e.Keys) (inner : e.Inner)
      → Moves R (transition_from_link sm fuel cause keys inner)
  unfolding transition_from_link
  transition_from_link-Moves fuel cause keys inner = Moves-bind path _ _ (Moves-clock path) λ now.
      Moves-bind path _ _ (Moves-uuid path) λ id.
        Moves-bind path _ _ (record { at = λ w a w' q. run_tx-at fuel _ w w' a q })
          λ ran. Moves-pure path _

  follow_one-Moves : (fuel : ℕ) (event : Event e) → Moves R (follow_one sm fuel event)
  unfolding follow_one
  follow_one-Moves fuel event = Moves-bind path _ _ (Moves-lift path _) λ _.
      Moves-bind path _ _ (follow_event_deduplicate-Moves path sm event) λ exists.
        Moves-if exists _ _ (Moves-pure path _) (
          Moves-bind path _ _ (get_current_state-Moves path sm event.keys) λ state.
            Moves-bind path _ _
              (Moves-if (state.status == 0) _ _ (run_initial_event-Moves fuel state)
                (Moves-pure path _))
              λ begun. follow_event-Moves parts _ _)

  pub follow_events-Moves :
      (fuel : ℕ) (events : List (Event e)) → Moves R (follow_events sm fuel events)
  unfolding follow_events
  follow_events-Moves fuel [] = Moves-pure path _
  follow_events-Moves fuel (event ∷ events) =
      Moves-bind path _ _ (follow_one-Moves fuel event) λ _. follow_events-Moves fuel events
