-- ===== src/Psm/Induction.antt =====
-- An induction principle for everything that a machine does in a transaction: what storing a state,
-- sending a message and the callbacks do to the world, every run does.
pub mod Pieces
pub mod Runs
pub mod Entries
use mathlib.Core.List.{Memᴰ}
use protostate.Common.{
  ℕ, zero, suc, String, ◌≡◌, refl, Bool, true, false, Option, none, some, List, [], ◌∷◌, ◌==◌,
  is_empty, str_eq, if◌then◌else◌, Result, ok, err, arith, guard, scan_columns, event_differs,
  duplicate_event_id, missing_required,
}
use protostate.Psm.Model.{Entity, State, Event, EventSpec}
use protostate.Psm.Host.{Host, World, Cell}
use protostate.Psm.Tx.{
  Tx, pure, lift, ◌>>=◌, ◌>>◌, select_row, new_uuid, read_clock, send, send_delayed,
}
use protostate.Psm.Tx.Moves.{
  Moves, IsPath, Moves-pure, Moves-lift, Moves-bind, Moves-bind_with, Moves-if, Moves-select,
  Moves-uuid, Moves-clock,
}
use protostate.Psm.Callbacks.{
  SideEffect, HookBaton, EventHook, specific, TransitionHook, GeneralStateHook,
}
use protostate.Psm.Transition.{Transition, TransitionSpec, build_transition}
use protostate.Psm.Transition.Merged.{build_transition-hooks, build_transition-state_hooks}
use protostate.Psm.Hooks.{
  run_event_hook, run_state_hook, run_event_hooks, run_state_hooks, run_hooks, follow_event_hooks,
  follow_state_hooks, run_follower_hooks, no_baton, follows,
}
use protostate.Psm.Machine.{
  StateMachine, store, get_current_state, events_must_be_unique, first_event_unique_check,
  follow_event_deduplicate,
}
use protostate.Psm.Prepare.{prepare_event, derive_event, derive_events}
use protostate.Psm.Run.{
  intermediate, CaptureState, Captured, store_after_mutation, mutate_and_store, send_side_effects,
  chain_must_be_unique, run_chain, run_event, follow_event, rename_duplicate,
}

module _ {e : Entity} {h : Host e} (R : World h → World h → Type 0) where
  abbrev pub EventHookMoves : EventHook h → Type 0
  EventHookMoves hook =
      (baton : Bool) (state : State e) (event : Event e)
      → Moves R (run_event_hook hook baton state event)

  abbrev pub StateHookMoves : GeneralStateHook h → Type 0
  StateHookMoves hook = (baton : Bool) (state : State e) → Moves R (run_state_hook hook baton state)

-- What the registered callbacks of a machine do.
pub record CallbacksMove {e : Entity} {h : Host e} (R : World h → World h → Type 0)
    (sm : StateMachine h) : Type 0 where
  pub hooks :
      (spec : TransitionSpec h)
      → Memᴰ spec sm.transition_set.transitions
      → (hook : TransitionHook h) → Memᴰ hook spec.hooks
      → EventHookMoves R (specific hook)
  pub global_event_hooks :
      (hook : EventHook h) → Memᴰ hook sm.transition_set.global_event_hooks → EventHookMoves R hook
  pub global_state_hooks :
      (hook : GeneralStateHook h)
      → Memᴰ hook sm.transition_set.global_state_hooks
      → StateHookMoves R hook
  pub initial :
      (f : e.Keys → Tx h e.Inner)
      → sm.initial_state_func ≡ some f
      → (keys : e.Keys) → Moves R (f keys)

-- What the parts that a machine is made of do: storing, sending, and the callbacks.
pub record PartsMove {e : Entity} {h : Host e} (R : World h → World h → Type 0)
    (sm : StateMachine h) : Type 0 where
  pub path : IsPath R
  pub stores : (state : State e) (event : Event e) → Moves R (store sm state event)
  pub sends : (m : e.Message) → Moves R (send {h = h} m)
  pub sends_delayed : (d : e.Duration) (m : e.Message) → Moves R (send_delayed {h = h} d m)
  pub callbacks : CallbacksMove R sm
