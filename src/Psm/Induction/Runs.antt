-- ===== src/Psm/Induction/Runs.antt =====
-- Runs of one event with its hooks and its chain.
use protostate.Common.{ℕ, zero, suc, String, ◌≡◌, List, [], ◌∷◌, ◌==◌, ok}
use protostate.Psm.Model.{Entity, State, Event, EventSpec}
use protostate.Psm.Host.{Host, World}
use protostate.Psm.Tx.{Tx}
use protostate.Psm.Tx.Moves.{Moves, Moves-pure, Moves-lift, Moves-bind, Moves-bind_with, Moves-if}
use protostate.Psm.Callbacks.{SideEffect, HookBaton}
use protostate.Psm.Transition.{Transition, build_transition}
use protostate.Psm.Transition.Merged.{build_transition-hooks, build_transition-state_hooks}
use protostate.Psm.Hooks.{run_hooks, run_follower_hooks}
use protostate.Psm.Machine.{StateMachine}
use protostate.Psm.Run.{
  intermediate, CaptureState, Captured, store_after_mutation, mutate_and_store, send_side_effects,
  run_chain, run_event, follow_event,
}
use protostate.Psm.Run.{recapture}
use protostate.Psm.Run.Inversion.{mutate_and_store-ok}
use protostate.Psm.Induction.{EventHookMoves, PartsMove}
use protostate.Psm.Induction.Pieces.{
  prepare_event-Moves, derive_events-Moves, chain_must_be_unique-Moves, event_hooks-Move,
  state_hooks-Move, follow_event_hooks-Move, follow_state_hooks-Move,
}

module _ {e : Entity} {h : Host e} {R : World h → World h → Type 0} {sm : StateMachine h}
    (parts : PartsMove R sm) where
  open parts use {path}

  store_after_mutation-Moves :
      (state : State e) (event : Event e) → Moves R (store_after_mutation sm state event)
  unfolding store_after_mutation
  store_after_mutation-Moves state event =
      Moves-if (state.status == 0) _ _ (Moves-lift path _)
        (Moves-bind path _ _ (Moves-lift path _) λ _. parts.stores state event)

  pub mutate_and_store-Moves :
      (state : State e) (event : Event e) → Moves R (mutate_and_store sm state event)
  unfolding mutate_and_store
  mutate_and_store-Moves state event = Moves-bind path _ _ (Moves-lift path _) λ t.
      Moves-bind path _ _ (Moves-lift path _) λ mutated.
        Moves-bind path _ _ (store_after_mutation-Moves mutated event) λ _. Moves-pure path _

  pub send_side_effects-Moves :
      (effects : List (SideEffect e)) → Moves R (send_side_effects sm effects)
  unfolding send_side_effects
  send_side_effects-Moves [] = Moves-pure path _
  send_side_effects-Moves (se ∷ more) = Moves-bind path _ _ (Moves-lift path _) λ _.
      Moves-bind path _ _
        (Moves-if (h.is_zero se.delay) _ _ (parts.sends se.msg)
          (parts.sends_delayed se.delay se.msg))
        λ _. send_side_effects-Moves more

  pub run_hooks-Moves :
      (t : Transition h) (status : ℕ) (event_type : String) (baton : HookBaton e) (state : State e)
      (event : Event e)
      → build_transition sm.transition_set status event_type ≡ ok t
      → Moves R (run_hooks t baton state event)
  unfolding run_hooks
  run_hooks-Moves t status event_type baton state event q =
      Moves-bind path _ _
        (event_hooks-Move path t.event_hooks baton state event (
          build_transition-hooks (EventHookMoves R) sm.transition_set status event_type
            parts.callbacks.hooks parts.callbacks.global_event_hooks q))
        λ after. state_hooks-Move path t.state_hooks after state (
          rw (build_transition-state_hooks sm.transition_set status event_type q)
            parts.callbacks.global_state_hooks)

  run_follower_hooks-Moves :
      (t : Transition h) (status : ℕ) (event_type : String) (state : State e) (event : Event e)
      → build_transition sm.transition_set status event_type ≡ ok t
      → Moves R (run_follower_hooks t state event)
  unfolding run_follower_hooks
  run_follower_hooks-Moves t status event_type state event q =
      Moves-bind path _ _
        (follow_event_hooks-Move path t.event_hooks state event (
          build_transition-hooks (EventHookMoves R) sm.transition_set status event_type
            parts.callbacks.hooks parts.callbacks.global_event_hooks q))
        λ _. follow_state_hooks-Move path t.state_hooks state (
          rw (build_transition-state_hooks sm.transition_set status event_type q)
            parts.callbacks.global_state_hooks)

  pub run_chain-Moves :
      (run : CaptureState → State e → Event e → Tx h (Captured e × State e))
      → ((how : CaptureState) (state : State e) (event : Event e) → Moves R (run how state event))
      → (how : CaptureState) (captured : Captured e) (chain : List (EventSpec e)) (state : State e)
      → Moves R (run_chain sm run how captured chain state)
  unfolding run_chain
  run_chain-Moves run k how captured [] state = Moves-pure path _
  run_chain-Moves run k how captured (spec ∷ chain) state =
      Moves-bind path _ _ (prepare_event-Moves path state spec) λ prepared.
        Moves-bind path _ _ (k (intermediate how) prepared.0 prepared.1)
          λ after. run_chain-Moves run k how (recapture how captured after.0) chain after.1

  pub run_event-Moves :
      (fuel : ℕ) (how : CaptureState) (state : State e) (event : Event e)
      → Moves R (run_event sm fuel how state event)
  unfolding run_event
  run_event-Moves zero how state event = Moves-lift path _
  run_event-Moves (suc fuel) how state event = Moves-bind path _ _ (Moves-lift path _) λ _.
      Moves-bind_with path _ _ (mutate_and_store-Moves state event) λ w w' out q.
        Moves-bind path _ _
          (run_hooks-Moves out.0 state.status (h.event_key event.inner) _ out.1 event
            (mutate_and_store-ok sm state event w w' out.0 out.1 q).built)
          λ baton. Moves-bind path _ _ (send_side_effects-Moves baton.side_effects) λ _.
            Moves-bind path _ _ (derive_events-Moves path event baton.chain_events) λ chain.
              Moves-bind path _ _ (chain_must_be_unique-Moves path sm chain)
                λ _. run_chain-Moves (run_event sm fuel) (run_event-Moves fuel) how _ chain out.1

  pub follow_event-Moves :
      (state : State e) (event : Event e) → Moves R (follow_event sm state event)
  unfolding follow_event
  follow_event-Moves state event =
      Moves-bind_with path _ _ (mutate_and_store-Moves state event) λ w w' out q.
        run_follower_hooks-Moves out.0 state.status (h.event_key event.inner) out.1 event
          (mutate_and_store-ok sm state event w w' out.0 out.1 q).built
