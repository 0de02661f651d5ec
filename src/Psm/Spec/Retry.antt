-- ===== src/Psm/Spec/Retry.antt =====
-- The spec that runTx leaves behind its pointer, and running it again: psm/statemachine.go.
use protostate.Common.{ℕ, ◌≡◌, ◌≢◌, refl, Option, none, some, Result, ok, err, arith}
use protostate.Psm.Model.{Entity, State, EventSpec}
use protostate.Psm.Host.{Host, World}
use protostate.Psm.Spec.{validate_and_prepare}
use protostate.Psm.Spec.Sources.{sources, cause_of, prepare_accepts_iff, prepare_fills_cause}
use protostate.Psm.Machine.{StateMachine, get_current_state, first_event_unique_check}
use protostate.Psm.Entry.{run_tx, run_identified, run_from_state, assign_id}

-- Two specs give the same sources.
record SameSources {e : Entity} (a b : EventSpec e) : Type 0 where
  same_cause : a.cause ≡ b.cause
  same_action : a.action ≡ b.action
  same_message : a.message ≡ b.message

module _ {e : Entity} {h : Host e} (sm : StateMachine h) (fuel : ℕ) where
  run_from_state-SameSources :
      (spec : EventSpec e) (state : State e) (w : World h)
      → SameSources (run_from_state sm fuel spec state w).1 spec
  unfolding run_from_state
  run_from_state-SameSources spec state w = record {
    same_cause = ground arith;
    same_action = ground arith;
    same_message = ground arith;
  }

  run_identified-SameSources :
      (spec : EventSpec e) (w : World h) → SameSources (run_identified sm fuel spec w).1 spec
  unfolding run_identified
  run_identified-SameSources spec w =
      checked (first_event_unique_check sm spec.event_id spec.event w)
    where
      same : SameSources spec spec
      same = record { same_cause = refl; same_action = refl; same_message = refl }

      found :
          (r : Result (State e × World h))
          → let out : Result (State e × World h) × EventSpec e = elim r [
            | err x ↦ (err x, spec)
            | ok (state, u) ↦ run_from_state sm fuel spec state u
          ] in
            SameSources out.1 spec
      found (err x) = same
      found (ok (state, u)) = run_from_state-SameSources spec state u

      checked :
          (r : Result (Option (State e) × World h))
          → let out : Result (State e × World h) × EventSpec e = elim r [
            | err x ↦ (err x, spec)
            | ok (some existing, v) ↦ (ok (existing, v), spec)
            | ok (none, v) ↦ elim (get_current_state sm spec.keys v) [
              | err x ↦ (err x, spec)
              | ok (state, u) ↦ run_from_state sm fuel spec state u
            ]
          ] in
            SameSources out.1 spec
      checked (err x) = same
      checked (ok (some existing, v)) = same
      checked (ok (none, v)) = found (get_current_state sm spec.keys v)

  -- What runTx leaves of an accepted spec gives its cause, and still its action and its message.
  run_tx-sources :
      (spec : EventSpec e) (w : World h)
      → (validate_and_prepare h spec).0 ≡ none
      → SameSources (run_tx sm fuel spec w).1 (record spec { cause = cause_of spec })
  unfolding run_tx assign_id
  run_tx-sources spec w p =
      let filled = record spec { cause = cause_of spec } in
      let start = assign_id sm filled w in
      let left = run_identified-SameSources start.0 start.1 in
      record {
        same_cause = ground (arith, prepare_fills_cause h spec, left.same_cause);
        same_action = ground (arith, prepare_fills_cause h spec, left.same_action);
        same_message = ground (arith, prepare_fills_cause h spec, left.same_message);
      }

module _ {e : Entity} {h : Host e} (sm : StateMachine h) where
  run_tx-IsAcceptable :
      (fuel : ℕ) (spec : EventSpec e) (w : World h) {out : State e × World h}
      → (run_tx sm fuel spec w).0 ≡ ok out
      → sources spec ≡ 1
  unfolding run_tx
  run_tx-IsAcceptable fuel spec w q =
      let accepted : (validate_and_prepare h spec).0 ≡ none = ground arith in
      let (keys, event, one, typed) = (prepare_accepts_iff h spec).0 accepted in one

  -- After runTx of an accepted spec that gives its action or its message as the cause, with success or
  -- an error, runTx fails on that same spec object, which the first call has changed: in every world
  -- and with any fuel.
  pub run_tx_retry_fails :
      (fuel again_fuel : ℕ) (spec : EventSpec e) (w v : World h)
      → (validate_and_prepare h spec).0 ≡ none
      → spec.cause ≡ none
      → (out : State e × World h) → (run_tx sm again_fuel (run_tx sm fuel spec w).1 v).0 ≢ ok out
  run_tx_retry_fails fuel again_fuel spec w v p q out r =
      let left = run_tx-sources sm fuel spec w p in
      let one = run_tx-IsAcceptable again_fuel (run_tx sm fuel spec w).1 v r in
      let (keys, event, first, typed) = (prepare_accepts_iff h spec).0 p in
      ground (arith, left.same_cause, left.same_action, left.same_message)
