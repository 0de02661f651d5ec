-- ===== src/Psm/Replay/Capture.antt =====
-- What a run captures of its state: captureState and returnState of psm/run.go.
use mathlib.Core.Path.{subst}
use protostate.Common.{ℕ, zero, suc, ◌≡◌, refl, List, [], ◌∷◌, ok, arith}
use protostate.Psm.Model.{Entity, State, Event, EventSpec}
use protostate.Psm.Host.{Host, World}
use protostate.Psm.Tx.{Tx}
use protostate.Psm.Tx.Ensures.{Ensures, Ensures-pure, Ensures-lift, Ensures-lift-bind, Ensures-bind}
use protostate.Psm.Machine.{StateMachine}
use protostate.Psm.Storage.{Storage, IsNamed}
use protostate.Psm.Prepare.{prepare_event}
use protostate.Psm.Run.{
  CaptureState, capture_initial_state, Captured, clone, dereference, run_chain, run_event,
}
use protostate.Psm.Run.Inversion.{mutate_and_store-ok}
use protostate.Psm.Entry.{run_prepared}
use protostate.Psm.Induction.{CallbacksMove}
use protostate.Psm.Induction.Pieces.{derive_events-Moves, chain_must_be_unique-Moves}
use protostate.Psm.Induction.Runs.{
  run_hooks-Moves, send_side_effects-Moves, run_chain-Moves, run_event-Moves,
}
use protostate.Psm.EventLog.{Grows, Grows-path, Grows-parts}
use protostate.Psm.Recorded.{Recorded, store-Recorded}
use protostate.Psm.Replay.{Recorded-Grows}

module _ {e : Entity} {h : Host e} (sm : StateMachine h) (st : Storage h sm.tables)
    (named : IsNamed sm.tables) (callbacks : CallbacksMove (Grows st) sm) where
  run_chain-captured :
      (run : CaptureState → State e → Event e → Tx h (Captured e × State e)) (captured : Captured e)
      (chain : List (EventSpec e)) (state : State e) (w : World h)
      → Ensures w
          (run_chain sm run capture_initial_state captured chain state)
          (λ out _. out.0 ≡ captured)
  unfolding run_chain
  run_chain-captured run captured [] state w = Ensures-pure w _ refl
  run_chain-captured run captured (spec ∷ chain) state w = Ensures-bind w _ _ λ prepared v p.
      Ensures-bind v _ _ λ after u q. run_chain-captured run captured chain after.1 u

  -- What a captured value has to do with the event table.
  abbrev Captures : Event e → Captured e × State e → World h → Type 0
  Captures event out w = (s : State e) × (out.0 ≡ clone s) × Recorded sm st w event s

  run_event-Captures :
      (fuel : ℕ) (state : State e) (event : Event e) (w : World h)
      → Ensures w (run_event sm fuel capture_initial_state state event) (Captures event)
  unfolding run_event
  run_event-Captures zero state event w = Ensures-lift w _ λ a p. absurd (cc p)
  run_event-Captures (suc fuel) state event w =
      let parts = Grows-parts sm st named callbacks in
      Ensures-lift-bind w _ _ λ _ valid. Ensures-bind w _ _ λ out v stored.
        Ensures-bind v _ _ λ baton v1 hooked. Ensures-bind v1 _ _ λ _ v2 sent.
          Ensures-bind v2 _ _ λ chain v3 derived. Ensures-bind v3 _ _ λ _ v4 unique. record {
            at = λ last w' ran.
                let done = mutate_and_store-ok sm state event w v out.0 out.1 stored in
                let recorded = (store-Recorded sm named st out.1 event w).at tt v done.wrote in
                let grown1 =
                  (run_hooks-Moves parts out.0 state.status (h.event_key event.inner) _ out.1 event
                      done.built).at
                    v baton v1 hooked in
                let grown2 = (send_side_effects-Moves parts baton.side_effects).at v1 _ v2 sent in
                let grown3 =
                  (derive_events-Moves (Grows-path st) event baton.chain_events).at v2 chain v3
                    derived in
                let grown4 =
                  (chain_must_be_unique-Moves (Grows-path st) sm chain).at v3 _ v4 unique in
                let grown5 =
                  (run_chain-Moves parts (run_event sm fuel) (run_event-Moves parts fuel)
                      capture_initial_state _ chain out.1).at
                    v4 last w' ran in
                (
                  out.1,
                  (run_chain-captured (run_event sm fuel) (clone out.1) chain out.1 v4).at last w'
                      ran,
                  Recorded-Grows sm st
                      (Recorded-Grows sm st
                        (Recorded-Grows sm st
                          (Recorded-Grows sm st (Recorded-Grows sm st recorded grown1) grown2)
                          grown3)
                        grown4)
                      grown5,
                );
          }

  prepare_event-spec :
      (state : State e) (spec : EventSpec e) (w : World h)
      → Ensures w
          (prepare_event state spec)
          (λ out _. (out.1.metadata.event_id ≡ spec.event_id) × (out.1.inner ≡ spec.event))
  unfolding prepare_event
  prepare_event-spec state spec w =
      Ensures-lift-bind w _ _
        λ _ known. Ensures-bind w _ _ λ now v read. Ensures-pure v _ (ground arith, ground arith)

  -- Running a prepared spec returns the state that it recorded with an event of the spec's id and data.
  pub run_prepared-records :
      (fuel : ℕ) (state : State e) (spec : EventSpec e) (w : World h)
      → Ensures w (run_prepared sm fuel capture_initial_state state spec) (λ s w'.
        (event : Event e) × (event.metadata.event_id ≡ spec.event_id)
        × (event.inner ≡ spec.event)
        × Recorded sm st w' event s)
  unfolding run_prepared
  run_prepared-records fuel state spec w = Ensures-bind w _ _ λ prepared v p.
      Ensures-bind v _ _ λ out u ran.
        let (same_id, same_inner) = (prepare_event-spec state spec w).at prepared v p in
        let (s, captured, recorded) =
          (run_event-Captures fuel prepared.0 prepared.1 v).at out u ran in
        Ensures-lift u _ λ a derefed.
          let same : s ≡ a = clone_of s out.0 out.1 a captured derefed in
          (prepared.1, same_id, same_inner, subst (Recorded sm st u prepared.1) same recorded)
    where
      clone_of :
          (s : State e) (c : Captured e) (final a : State e)
          → c ≡ clone s
          → dereference c final ≡ ok a
          → s ≡ a
      clone_of s c final a p q = ground arith
