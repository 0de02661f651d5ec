-- ===== src/Psm/Transition.antt =====
-- Transitions: the transition and runMutations of psm/transition.go, and buildTransition of
-- psm/transition_builder.go.
pub mod Found
pub mod Merged
use protostate.Common.{
  ℕ, String, Bool, true, false, not, List, [], ◌∷◌, ◌++◌, map, is_empty, any, str_eq, ◌==◌,
  if◌then◌else◌, Result, ok, err, ◌>>=◌, no_transition, conflicting_status,
}
use protostate.Psm.Model.{Entity, State, Event}
use protostate.Psm.Host.{Host}
use protostate.Psm.Callbacks.{
  Mutation, run_mutations_from, TransitionHook, GeneralStateHook, EventHook, specific,
}

module _ {e : Entity} (h : Host e) where
  -- transitionSpec
  pub record TransitionSpec : Type 0 where
    pub from_status : List ℕ
    pub to_status : ℕ
    pub noop : Bool
    pub event_type : String
    pub mutations : List (Mutation e)
    pub hooks : List (TransitionHook h)

  -- transitionSet
  pub record TransitionSet : Type 0 where
    pub global_event_hooks : List (EventHook h)
    pub global_state_hooks : List (GeneralStateHook h)
    pub transitions : List TransitionSpec

  -- transition
  pub record Transition : Type 0 where
    pub from_status : ℕ
    pub to_status : ℕ
    pub noop : Bool
    pub event_type : String
    pub mutations : List (Mutation e)
    pub event_hooks : List (EventHook h)
    pub state_hooks : List (GeneralStateHook h)

module _ {e : Entity} {h : Host e} where
  -- The conditions of the search loop; an empty list of statuses stands for all of them.
  unfoldable pub is_match : ℕ → String → TransitionSpec h → Bool
  is_match status event_type search =
      if not (str_eq search.event_type event_type)
      then false
      else if is_empty search.from_status
      then true
      else any (λ s. s == status) search.from_status

  unfoldable pub find_specs : ℕ → String → List (TransitionSpec h) → List (TransitionSpec h)
  unfolding is_match
  find_specs status event_type [] = []
  find_specs status event_type (search ∷ rest) =
      let found = find_specs status event_type rest in
      if is_match status event_type search then search ∷ found else found

  -- The part of the merge loop that agrees on the status.
  unfoldable pub merge_status : ℕ → Transition h → Result (Transition h)
  merge_status to_status merged =
      if to_status == 0
      then ok merged
      else if merged.to_status == 0
      then ok (record merged { to_status = to_status })
      else if merged.to_status == to_status
      then ok merged
      else err conflicting_status

  unfoldable pub merge : Transition h → List (TransitionSpec h) → Result (Transition h)
  unfolding merge_status
  merge merged [] = ok merged
  merge merged (spec ∷ specs) = do
    let mutations = merged.mutations ++ spec.mutations
    let event_hooks = merged.event_hooks ++ map specific spec.hooks
    next ←
        merge_status spec.to_status
          (record merged { mutations = mutations; event_hooks = event_hooks })
    merge next specs

  unfoldable pub start_transition : ℕ → String → Transition h
  start_transition status event_type = record {
    from_status = status;
    to_status = 0;
    noop = false;
    event_type = event_type;
    mutations = [];
    event_hooks = [];
    state_hooks = [];
  }

  unfoldable pub add_globals : TransitionSet h → Transition h → Transition h
  add_globals hs merged = record merged {
    event_hooks = merged.event_hooks ++ hs.global_event_hooks;
    state_hooks = merged.state_hooks ++ hs.global_state_hooks;
  }

  unfoldable pub build_transition : TransitionSet h → ℕ → String → Result (Transition h)
  unfolding find_specs merge start_transition add_globals
  build_transition hs status event_type = do
    let found_specs = find_specs status event_type hs.transitions
    merged ←
        (if is_empty found_specs
          then err no_transition
          else merge (start_transition status event_type) found_specs)
    ok (add_globals hs merged)

  unfoldable pub run_mutations : Transition h → State e → Event e → Result (State e)
  run_mutations t state event =
      if t.noop
      then ok state
      else run_mutations_from t.mutations
          (if t.to_status == 0 then state else record state { status = t.to_status }) event
