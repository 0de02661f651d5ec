-- ===== src/Psm/Hooks.antt =====
-- Running the hooks of a transition: runHooks and runFollowerHooks of psm/transition.go, and the
-- runTransition methods of psm/gen_interfaces.go.
use protostate.Common.{
  Bool, true, false, none, some, List, [], ◌∷◌, if◌then◌else◌, Result, ok, err, nil_dereference,
}
use protostate.Psm.Model.{Entity, State, Event}
use protostate.Psm.Host.{Host, World}
use protostate.Psm.Tx.{Tx, pure, lift, ◌>>=◌, ◌>>◌}
use protostate.Psm.Callbacks.{
  BatonCall, HookBaton, EventHook, specific, general, GeneralStateHook, Done, call_all,
}
use protostate.Psm.Transition.{Transition}

-- The baton of a follower is nil: calling it panics.
unfoldable pub no_baton : {e : Entity} → List (BatonCall e) → Result (Unit {0})
no_baton [] = ok tt
no_baton (c ∷ cs) = err nil_dereference

module _ {e : Entity} {h : Host e} where
  -- The world after a callback that was given the transaction.
  abbrev pub settle : World h → Done h → Result (List (BatonCall e) × World h)
  settle w (ok (some after, calls)) = ok (calls, after)
  settle w (ok (none, calls)) = ok (calls, w)
  settle w (err x) = err x

  -- A callback that was given a nil transaction leaves the world alone.
  abbrev pub settle_nil : World h → Done h → Result (List (BatonCall e) × World h)
  settle_nil w (ok (after, calls)) = ok (calls, w)
  settle_nil w (err x) = err x

  -- runTransition of TransitionHook and GeneralEventHook; the latter hands on a nil transaction.
  unfoldable pub run_event_hook : EventHook h → Bool → State e → Event e → Tx h (List (BatonCall e))
  run_event_hook (specific hook) baton state event w =
      settle w (hook.callback (some w) baton state event)
  run_event_hook (general hook) baton state event w =
      settle_nil w (hook.callback none baton state event)

  unfoldable pub run_state_hook : GeneralStateHook h → Bool → State e → Tx h (List (BatonCall e))
  run_state_hook hook baton state w = settle w (hook.callback (some w) baton state)

  abbrev pub follows : EventHook h → Bool
  follows (specific hook) = hook.run_on_follow
  follows (general hook) = hook.run_on_follow

  unfoldable pub run_event_hooks :
      List (EventHook h) → HookBaton e → State e → Event e → Tx h (HookBaton e)
  run_event_hooks [] baton state event = pure baton
  run_event_hooks (hook ∷ hooks) baton state event = do
    calls ← run_event_hook hook true state event
    run_event_hooks hooks (call_all h baton calls) state event

  unfoldable pub run_state_hooks :
      List (GeneralStateHook h) → HookBaton e → State e → Tx h (HookBaton e)
  run_state_hooks [] baton state = pure baton
  run_state_hooks (hook ∷ hooks) baton state = do
    calls ← run_state_hook hook true state
    run_state_hooks hooks (call_all h baton calls) state

  unfoldable pub run_hooks : Transition h → HookBaton e → State e → Event e → Tx h (HookBaton e)
  run_hooks t baton state event = do
    after ← run_event_hooks t.event_hooks baton state event
    run_state_hooks t.state_hooks after state

  unfoldable pub follow_event_hooks : List (EventHook h) → State e → Event e → Tx h (Unit {0})
  follow_event_hooks [] state event = pure tt
  follow_event_hooks (hook ∷ hooks) state event =
      let run_and_go_on : Tx h (Unit {0}) = (do
        calls ← run_event_hook hook false state event
        lift (no_baton calls)
        follow_event_hooks hooks state event) in
      let skip = follow_event_hooks hooks state event in
      if follows hook then run_and_go_on else skip

  unfoldable pub follow_state_hooks : List (GeneralStateHook h) → State e → Tx h (Unit {0})
  follow_state_hooks [] state = pure tt
  follow_state_hooks (hook ∷ hooks) state =
      let run_and_go_on : Tx h (Unit {0}) = (do
        calls ← run_state_hook hook false state
        lift (no_baton calls)
        follow_state_hooks hooks state) in
      let skip = follow_state_hooks hooks state in
      if hook.run_on_follow then run_and_go_on else skip

  unfoldable pub run_follower_hooks : Transition h → State e → Event e → Tx h (Unit {0})
  run_follower_hooks t state event = do
    follow_event_hooks t.event_hooks state event
    follow_state_hooks t.state_hooks state
