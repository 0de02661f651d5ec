-- ===== src/Psm/Replay/Again.antt =====
-- runTx on an event that is in the event table, and runTx twice.
use protostate.Common.{
  ℕ, String, ◌≡◌, ◌≢◌, refl, sym, ◌∙◌, Bool-cases, inl, inr, Option, none, some, ◌==◌, str_eq_iff,
  if◌then◌else◌, Result, ok, err, arith, duplicate_event_id,
}
use protostate.Psm.Model.{Entity, State, Event, EventSpec}
use protostate.Psm.Host.{Host, World}
use protostate.Psm.Tx.{Tx, ◌>>=◌, select_row-world}
use protostate.Psm.Tx.Ensures.{Ensures, Ensures-pure, Ensures-lift-bind, Ensures-bind}
use protostate.Psm.Spec.{validate_and_prepare}
use protostate.Psm.Spec.Sources.{prepare_fills_cause}
use protostate.Psm.Keys.{assert_present_keys_match}
use protostate.Psm.Machine.{StateMachine, first_event_unique_check, get_current_state}
use protostate.Psm.Storage.{Storage, Codec, IsNamed}
use protostate.Psm.Run.{capture_initial_state}
use protostate.Psm.Entry.{
  run_prepared, run_initial_event, run_from_state, run_identified, assign_id, run_tx,
}
use protostate.Psm.Induction.{CallbacksMove}
use protostate.Psm.EventLog.{Grows, run_tx-Grows}
use protostate.Psm.Recorded.{Recorded}
use protostate.Psm.Replay.{check-recorded}
use protostate.Psm.Replay.Capture.{run_prepared-records}

module _ {e : Entity} {h : Host e} (sm : StateMachine h) where
  -- An accepted spec whose event id is set is answered by the check of that id alone, if that finds
  -- the event or fails.
  run_tx-checked :
      (fuel : ℕ) (spec : EventSpec e) (w : World h) (r : Result (State e))
      → (validate_and_prepare h spec).0 ≡ none
      → spec.event_id ≢ ""
      → first_event_unique_check sm spec.event_id spec.event w
        ≡ (elim r [ ok s ↦ ok (some s, w) | err x ↦ err x ])
      → (run_tx sm fuel spec w).0 ≡ (elim r [ ok s ↦ ok (s, w) | err x ↦ err x ])
  unfolding run_tx run_identified assign_id
  run_tx-checked fuel spec w r p q c =
      ground (arith, prepare_fills_cause h spec, str_eq_iff spec.event_id "")

  run_tx-accepted :
      (fuel : ℕ) (spec : EventSpec e) (w : World h) {out : State e × World h}
      → (run_tx sm fuel spec w).0 ≡ ok out
      → (validate_and_prepare h spec).0 ≡ none
  unfolding run_tx
  run_tx-accepted fuel spec w q = ground arith

  run_tx-identified :
      (fuel : ℕ) (spec : EventSpec e) (w : World h)
      → (validate_and_prepare h spec).0 ≡ none
      → spec.event_id ≢ ""
      → (run_identified sm fuel (validate_and_prepare h spec).1 w).0 ≡ (run_tx sm fuel spec w).0
  unfolding run_tx assign_id
  run_tx-identified fuel spec w p q =
      ground (arith, prepare_fills_cause h spec, str_eq_iff spec.event_id "")

  module _ (st : Storage h sm.tables) where
    -- On a valid database and codecs as in Storage and Codec: an accepted spec with the id, which is not
    -- empty, of an event in the event table changes nothing. It is answered with the state that is
    -- stored beside that event, if it has the data of that event, and else refused as a duplicate.
    pub run_tx-Recorded :
        Codec h
        → (w : World h) (event : Event e) (state : State e) → st.Valid w.db
        → Recorded sm st w event state
        → (fuel : ℕ) (spec : EventSpec e) → (validate_and_prepare h spec).0 ≡ none
        → spec.event_id ≡ event.metadata.event_id
        → spec.event_id ≢ ""
        → (run_tx sm fuel spec w).0
          ≡ (if h.inner_equal event.inner spec.event then ok (state, w) else err duplicate_event_id)
    run_tx-Recorded codec w event state valid rec fuel spec p same q =
        let checked : first_event_unique_check sm spec.event_id spec.event w ≡ (
            if h.inner_equal event.inner spec.event
            then ok (some state, w)
            else err duplicate_event_id) =
          rw same (check-recorded sm st w event state valid rec codec spec.event) in
        elim (Bool-cases (h.inner_equal event.inner spec.event)) [
          | inl equal ↦ rw equal (run_tx-checked fuel spec w (ok state) p q (rw equal at checked))
          | inr differs ↦
              rw differs
                (run_tx-checked fuel spec w (err duplicate_event_id) p q (rw differs at checked))
        ]

  -- The check of an event's id changes nothing.
  check-world :
      (id : String) (inner : e.Inner) (w : World h)
      → Ensures w (first_event_unique_check sm id inner) (λ _ v. v ≡ w)
  unfolding first_event_unique_check
  check-world id inner w = Ensures-bind w _ _ (elim [
    | none ↦ λ v p. Ensures-pure v _ (select_row-world _ w p)
    | some row ↦ λ v p. Ensures-lift-bind v _ _ λ jsons scanned.
        Ensures-lift-bind v _ _ λ existing read. Ensures-lift-bind v _ _ λ _ equal.
          Ensures-lift-bind v _ _ λ state read_state. Ensures-pure v _ (select_row-world _ w p)
  ])

module _ {e : Entity} {h : Host e} (sm : StateMachine h) (st : Storage h sm.tables)
    (named : IsNamed sm.tables) (codec : Codec h) (callbacks : CallbacksMove (Grows st) sm) where
  -- The event table answers for this spec, with this state.
  abbrev Answered : EventSpec e → State e → World h → Type 0
  Answered spec s w = first_event_unique_check sm spec.event_id spec.event w ≡ ok (some s, w)

  run_prepared-Answered :
      (fuel : ℕ) (state : State e) (spec : EventSpec e) (w w' : World h) (s : State e)
      → st.Valid w'.db
      → run_prepared sm fuel capture_initial_state state spec w ≡ ok (s, w')
      → Answered spec s w'
  run_prepared-Answered fuel state spec w w' s valid q =
      let (event, same_id, same_inner, rec) =
        (run_prepared-records sm st named callbacks fuel state spec w).at s w' q in
      rw (← same_id, ← same_inner)
        (check-recorded sm st w' event s valid rec codec event.inner
          ∙ rw (codec.equal_self event.inner))

  run_from_state-Answered :
      (fuel : ℕ) (spec : EventSpec e) (state : State e) (w w' : World h) (s : State e)
      → st.Valid w'.db
      → (run_from_state sm fuel spec state w).0 ≡ ok (s, w')
      → Answered spec s w'
  unfolding run_from_state
  run_from_state-Answered fuel spec state w w' s valid q = elim (Bool-cases (state.status == 0)) [
    | inl fresh ↦ first.at s w' (rw fresh at q) valid
    | inr stored ↦ matched (assert_present_keys_match h state.keys spec.keys) (rw stored at q)
  ]
    where
      filled : EventSpec e
      filled = record spec { keys = state.keys }

      begin : Tx h (State e)
      begin = do
        initial ← run_initial_event sm fuel state
        run_prepared sm fuel capture_initial_state initial spec

      first : Ensures w begin (λ a u. st.Valid u.db → Answered spec a u)
      first = Ensures-bind w _ _ λ initial v p. record {
        at = λ a u r ok_db. run_prepared-Answered fuel initial spec v u a ok_db r;
      }

      matched :
          (r : Result (Unit {0}))
          → (let out : Result (State e × World h) × EventSpec e = elim r [
            | err x ↦ (err x, spec)
            | ok _ ↦ (run_prepared sm fuel capture_initial_state state filled w, filled)
          ] in
              out.0)
            ≡ ok (s, w')
          → Answered spec s w'
      matched (err x) m = cc
      matched (ok _) m = run_prepared-Answered fuel state filled w w' s valid m

  run_identified-Answered :
      (fuel : ℕ) (spec : EventSpec e) (w w' : World h) (s : State e)
      → st.Valid w'.db
      → (run_identified sm fuel spec w).0 ≡ ok (s, w')
      → Answered spec s w'
  unfolding run_identified
  run_identified-Answered fuel spec w w' s valid q =
      checked (first_event_unique_check sm spec.event_id spec.event w) refl q
    where
      found :
          (r : Result (State e × World h))
          → (let out : Result (State e × World h) × EventSpec e = elim r [
            | err x ↦ (err x, spec)
            | ok (state, u) ↦ run_from_state sm fuel spec state u
          ] in
              out.0)
            ≡ ok (s, w')
          → Answered spec s w'
      found (err x) m = cc
      found (ok (state, u)) m = run_from_state-Answered fuel spec state u w' s valid m

      checked :
          (r : Result (Option (State e) × World h))
          → first_event_unique_check sm spec.event_id spec.event w ≡ r
          → (let out : Result (State e × World h) × EventSpec e = elim r [
            | err x ↦ (err x, spec)
            | ok (some existing, v) ↦ (ok (existing, v), spec)
            | ok (none, v) ↦ elim (get_current_state sm spec.keys v) [
              | err x ↦ (err x, spec)
              | ok (state, u) ↦ run_from_state sm fuel spec state u
            ]
          ] in
              out.0)
            ≡ ok (s, w')
          → Answered spec s w'
      checked (err x) k m = cc
      checked (ok (some existing, v)) k m =
          let same : v ≡ w = (check-world sm spec.event_id spec.event w).at (some existing) v k in
          let same_world : w' ≡ w = ground arith in rw same_world (k ∙ ground arith)
      checked (ok (none, v)) k m = found (get_current_state sm spec.keys v) m

  -- On a database and codecs as in Storage and Codec, with column names that do not collide, and with
  -- callbacks that keep the rows of the event table: after a successful runTx of a spec with an event
  -- id, a spec that is accepted and has that id and that event is answered with the same state, and
  -- changes nothing: neither the database nor what it draws. This is whatever its keys, its cause and
  -- the fuel of either run are.
  pub run_tx_replay :
      (fuel again_fuel : ℕ) (spec again : EventSpec e) (w w' : World h) (s : State e)
      → st.Valid w.db
      → spec.event_id ≢ ""
      → (run_tx sm fuel spec w).0 ≡ ok (s, w')
      → (validate_and_prepare h again).0 ≡ none
      → again.event_id ≡ spec.event_id
      → again.event ≡ spec.event
      → (run_tx sm again_fuel again w').0 ≡ ok (s, w')
  run_tx_replay fuel again_fuel spec again w w' s valid id q p same_id same_event =
      let accepted = run_tx-accepted sm fuel spec w q in
      let prepared = prepare_fills_cause h spec accepted in
      let valid' = (run_tx-Grows sm st named callbacks fuel spec w w' s q).valid valid in
      let answered =
        run_identified-Answered fuel (validate_and_prepare h spec).1 w w' s valid'
          (run_tx-identified sm fuel spec w accepted id ∙ q) in
      run_tx-checked sm again_fuel again w' (ok s) p (λ empty. id (sym same_id ∙ empty))
        (rw (same_id, same_event) (rw prepared at answered))
