-- ===== src/Psm/Induction/Pieces.antt =====
-- The pieces of a run that neither store, nor send, nor call back; and the loops over hooks.
use mathlib.Core.List.{Memᴰ}
use protostate.Common.{
  String, ◌≡◌, refl, true, false, none, some, List, [], ◌∷◌, str_eq, Result, ok, arith,
}
use protostate.Psm.Model.{Entity, State, Event, EventSpec}
use protostate.Psm.Host.{Host, World}
use protostate.Psm.Tx.Moves.{
  Moves, IsPath, Moves-pure, Moves-lift, Moves-bind, Moves-bind_with, Moves-if, Moves-select,
  Moves-uuid, Moves-clock,
}
use protostate.Psm.Callbacks.{HookBaton, EventHook, GeneralStateHook}
use protostate.Psm.Hooks.{
  run_event_hooks, run_state_hooks, follow_event_hooks, follow_state_hooks, no_baton, follows,
}
use protostate.Psm.Machine.{
  StateMachine, get_current_state, events_must_be_unique, first_event_unique_check,
  follow_event_deduplicate,
}
use protostate.Psm.Prepare.{prepare_event, derive_events}
use protostate.Psm.Run.{chain_must_be_unique, rename_duplicate}
use protostate.Psm.Induction.{EventHookMoves, StateHookMoves}

pub ruleset tx_rules =
    (Moves-pure, Moves-lift, Moves-bind, Moves-if, Moves-select, Moves-uuid, Moves-clock)

module _ {e : Entity} {h : Host e} {R : World h → World h → Type 0} (p : IsPath R) where
  pub prepare_event-Moves :
      (state : State e) (spec : EventSpec e) → Moves R (prepare_event {h = h} state spec)
  unfolding prepare_event
  prepare_event-Moves state spec = search tx_rules

  pub derive_events-Moves :
      (event : Event e) (chain : List e.Inner) → Moves R (derive_events {h = h} event chain)
  unfolding derive_events
  derive_events-Moves event [] = search tx_rules
  derive_events-Moves event (inner ∷ chain) =
      Moves-bind p _ _ (search tx_rules)
        λ derived. Moves-bind p _ _ (derive_events-Moves event chain) λ rest. Moves-pure p _

  pub get_current_state-Moves :
      (sm : StateMachine h) (keys : e.Keys) → Moves R (get_current_state sm keys)
  unfolding get_current_state
  get_current_state-Moves sm keys = Moves-bind p _ _ (search tx_rules) λ all_keys.
      Moves-bind p _ _ (search tx_rules)
        (elim [ none ↦ search tx_rules | some row ↦ search tx_rules ])

  pub first_event_unique_check-Moves :
      (sm : StateMachine h) (id : String) (inner : e.Inner)
      → Moves R (first_event_unique_check sm id inner)
  unfolding first_event_unique_check
  first_event_unique_check-Moves sm id inner =
      Moves-bind p _ _ (search tx_rules)
        (elim [ none ↦ search tx_rules | some row ↦ search tx_rules ])

  pub follow_event_deduplicate-Moves :
      (sm : StateMachine h) (event : Event e) → Moves R (follow_event_deduplicate sm event)
  unfolding follow_event_deduplicate
  follow_event_deduplicate-Moves sm event =
      Moves-bind p _ _ (search tx_rules)
        (elim [ none ↦ search tx_rules | some row ↦ search tx_rules ])

  pub events_must_be_unique-Moves :
      (sm : StateMachine h) (specs : List (EventSpec e)) → Moves R (events_must_be_unique sm specs)
  unfolding events_must_be_unique
  events_must_be_unique-Moves sm [] = search tx_rules
  events_must_be_unique-Moves sm (spec ∷ specs) =
      Moves-if (str_eq spec.event_id "") _ _ (events_must_be_unique-Moves sm specs) (
        Moves-bind p _ _ (search tx_rules)
          (elim [ none ↦ events_must_be_unique-Moves sm specs | some row ↦ search tx_rules ]))

  pub chain_must_be_unique-Moves :
      (sm : StateMachine h) (specs : List (EventSpec e)) → Moves R (chain_must_be_unique sm specs)
  unfolding chain_must_be_unique
  chain_must_be_unique-Moves sm specs = record {
    at = λ w a w' q.
        (events_must_be_unique-Moves sm specs).at w a w'
          (unrenamed (events_must_be_unique sm specs w) q);
  }
    where
      unrenamed : {A : Type 0} (r : Result A) {a : A} → rename_duplicate r ≡ ok a → r ≡ ok a
      unrenamed r q = ground arith

  pub event_hooks-Move :
      (hooks : List (EventHook h)) (baton : HookBaton e) (state : State e) (event : Event e)
      → ((hook : EventHook h) → Memᴰ hook hooks → EventHookMoves R hook)
      → Moves R (run_event_hooks hooks baton state event)
  unfolding run_event_hooks
  event_hooks-Move [] baton state event k = search tx_rules
  event_hooks-Move (hook ∷ hooks) baton state event k =
      Moves-bind p _ _ (k hook (Memᴰ.head refl) true state event)
        λ calls. event_hooks-Move hooks _ state event (λ hook' m. k hook' (Memᴰ.tail m))

  pub state_hooks-Move :
      (hooks : List (GeneralStateHook h)) (baton : HookBaton e) (state : State e)
      → ((hook : GeneralStateHook h) → Memᴰ hook hooks → StateHookMoves R hook)
      → Moves R (run_state_hooks hooks baton state)
  unfolding run_state_hooks
  state_hooks-Move [] baton state k = search tx_rules
  state_hooks-Move (hook ∷ hooks) baton state k =
      Moves-bind p _ _ (k hook (Memᴰ.head refl) true state)
        λ calls. state_hooks-Move hooks _ state (λ hook' m. k hook' (Memᴰ.tail m))

  pub follow_event_hooks-Move :
      (hooks : List (EventHook h)) (state : State e) (event : Event e)
      → ((hook : EventHook h) → Memᴰ hook hooks → EventHookMoves R hook)
      → Moves R (follow_event_hooks hooks state event)
  unfolding follow_event_hooks
  follow_event_hooks-Move [] state event k = search tx_rules
  follow_event_hooks-Move (hook ∷ hooks) state event k =
      let rest = follow_event_hooks-Move hooks state event (λ hook' m. k hook' (Memᴰ.tail m)) in
      Moves-if (follows hook) _ _
        (Moves-bind p _ _ (k hook (Memᴰ.head refl) false state event)
          λ calls. Moves-bind p _ _ (Moves-lift p (no_baton calls)) λ _. rest)
        rest

  pub follow_state_hooks-Move :
      (hooks : List (GeneralStateHook h)) (state : State e)
      → ((hook : GeneralStateHook h) → Memᴰ hook hooks → StateHookMoves R hook)
      → Moves R (follow_state_hooks hooks state)
  unfolding follow_state_hooks
  follow_state_hooks-Move [] state k = search tx_rules
  follow_state_hooks-Move (hook ∷ hooks) state k =
      let rest = follow_state_hooks-Move hooks state (λ hook' m. k hook' (Memᴰ.tail m)) in
      Moves-if hook.run_on_follow _ _
        (Moves-bind p _ _ (k hook (Memᴰ.head refl) false state)
          λ calls. Moves-bind p _ _ (Moves-lift p (no_baton calls)) λ _. rest)
        rest
