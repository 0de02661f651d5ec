-- ===== src/Psm/Callbacks.antt =====
-- The callbacks of a transition and the baton that they call: psm/gen_interfaces.go and the first
-- part of psm/transition.go.
use protostate.Common.{
  String, Bool, Option, List, [], ◌∷◌, ◌++◌, if◌then◌else◌, Result, ok, err, ◌>>=◌,
  unexpected_event_type,
}
use protostate.Psm.Model.{Entity, State, Event, Cause, psm_event}
use protostate.Psm.Host.{Host, World}

-- TransitionMutation: a callback on the state's data, and the concrete event type SE that it takes.
pub record Mutation (e : Entity) : Type 0 where
  pub event_type : String
  pub takes : e.Inner → Bool
  pub call : e.Data → e.Inner → Result e.Data

module _ {e : Entity} where
  unfoldable pub run_mutation : Mutation e → State e → Event e → Result (State e)
  run_mutation m state event =
      if m.takes event.inner
      then (do value ← m.call state.value event.inner; ok (record state { value = value }))
      else err unexpected_event_type

  unfoldable pub run_mutations_from : List (Mutation e) → State e → Event e → Result (State e)
  unfolding run_mutation
  run_mutations_from [] state event = ok state
  run_mutations_from (m ∷ ms) state event = do
    next ← run_mutation m state event
    run_mutations_from ms next event

-- The calls that a callback makes of its baton.
pub data BatonCall (e : Entity) : Type 0 where
  side_effect publish : e.Message → BatonCall e
  delayed_side_effect : e.Message → e.Duration → BatonCall e
  chain_event : e.Inner → BatonCall e

-- sideEffect
pub record SideEffect (e : Entity) : Type 0 where
  pub msg : e.Message
  pub delay : e.Duration

-- hookBaton
pub record HookBaton (e : Entity) : Type 0 where
  pub side_effects : List (SideEffect e)
  pub chain_events : List e.Inner
  pub caused_by : Event e

module _ {e : Entity} (h : Host e) where
  -- What a callback leaves: the world that it had through `tx`, and its calls of the baton, in order.
  abbrev pub Done : Type 0
  Done = Result (Option (World h) × List (BatonCall e))

  -- `none` is a nil transaction; the Bool says whether the baton is not nil. A callback must not
  -- modify the state or the event (docs/hooks.md), so it returns neither.
  pub record TransitionHook : Type 0 where
    pub callback : Option (World h) → Bool → State e → Event e → Done
    pub run_on_follow : Bool
    pub event_type : String

  pub record GeneralEventHook : Type 0 where
    pub callback : Option (World h) → Bool → State e → Event e → Done
    pub run_on_follow : Bool

  pub record GeneralStateHook : Type 0 where
    pub callback : Option (World h) → Bool → State e → Done
    pub run_on_follow : Bool

  -- The values of the interface globalEventHook.
  pub data EventHook : Type 0 where
    specific : TransitionHook → EventHook
    general : GeneralEventHook → EventHook

  -- The methods of hookBaton; `sideEffect{msg: msg}` has the zero delay.
  unfoldable pub call_baton : HookBaton e → BatonCall e → HookBaton e
  call_baton td (side_effect m) = record td {
    side_effects = td.side_effects ++ record { msg = m; delay = h.no_delay } ∷ [];
  }
  call_baton td (publish m) = record td {
    side_effects = td.side_effects ++ record { msg = m; delay = h.no_delay } ∷ [];
  }
  call_baton td (delayed_side_effect m delay) = record td {
    side_effects = td.side_effects ++ record { msg = m; delay = delay } ∷ [];
  }
  call_baton td (chain_event inner) = record td { chain_events = td.chain_events ++ inner ∷ [] }

  unfoldable pub call_all : HookBaton e → List (BatonCall e) → HookBaton e
  unfolding call_baton
  call_all td [] = td
  call_all td (c ∷ cs) = call_all (call_baton td c) cs

  -- AsCause
  unfoldable pub as_cause : Event e → Cause e
  as_cause caused_by = psm_event caused_by.metadata.event_id h.full_name
