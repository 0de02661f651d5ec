-- ===== src/Psm/Transition/Merged.antt =====
-- What buildTransition makes of the registrations that apply, and what running it does to a state.
use protostate.Psm.Transition.Found.{find_specs_iff}
use protostate.Common.{
  Every, Every-append, Every-map, ℕ, String, ◌≡◌, ◌≢◌, refl, Bool, true, false, ◌&&◌, ◌||◌, List,
  [], ◌∷◌, ◌++◌, map, is_empty, arith, ◌==◌, if◌then◌else◌, ok, err, no_transition,
  conflicting_status, >>=-eq-ok,
}
use mathlib.Core.List.{append-nil, append_assoc, Memᴰ}
use protostate.Psm.Model.{Entity, State, Event}
use protostate.Psm.Host.{Host}
use protostate.Psm.Callbacks.{
  Mutation, EventHook, TransitionHook, specific, run_mutation, run_mutations_from,
}
use protostate.Psm.Transition.{
  TransitionSpec, TransitionSet, Transition, find_specs, merge, start_transition, build_transition,
  run_mutations,
}

-- A mutation changes the data only.
module _ {e : Entity} where
  run_mutation_frame :
      (m : Mutation e) (state : State e) (event : Event e) {after : State e}
      → run_mutation m state event ≡ ok after
      → (after.keys ≡ state.keys)
        × (after.metadata ≡ state.metadata)
        × (after.status ≡ state.status)
  unfolding run_mutation
  run_mutation_frame m state event p = ground arith

  run_mutations_from_frame :
      (ms : List (Mutation e)) (state : State e) (event : Event e) {after : State e}
      → run_mutations_from ms state event ≡ ok after
      → (after.keys ≡ state.keys)
        × (after.metadata ≡ state.metadata)
        × (after.status ≡ state.status)
  unfolding run_mutations_from
  run_mutations_from_frame [] state event p = ground arith
  run_mutations_from_frame (m ∷ ms) state event p =
      let (next, p1, p2) =
        >>=-eq-ok (run_mutation m state event) (λ next. run_mutations_from ms next event) p in
      ground (arith, run_mutation_frame m state event p1, run_mutations_from_frame ms next event p2)

module _ {e : Entity} {h : Host e} where
  abbrev pub all_mutations : List (TransitionSpec h) → List (Mutation e)
  all_mutations [] = []
  all_mutations (s ∷ specs) = s.mutations ++ all_mutations specs

  abbrev pub all_hooks : List (TransitionSpec h) → List (EventHook h)
  all_hooks [] = []
  all_hooks (s ∷ specs) = map specific s.hooks ++ all_hooks specs

  -- The status that the registrations set: the first that is not 0, if `already` is 0.
  abbrev pub target : ℕ → List (TransitionSpec h) → ℕ
  target already [] = already
  target already (s ∷ specs) = target (if already == 0 then s.to_status else already) specs

  -- No registration sets another status than that.
  abbrev pub agree : ℕ → List (TransitionSpec h) → Bool
  agree status [] = true
  agree status (s ∷ specs) = (s.to_status == 0 || s.to_status == status) && agree status specs

  merged_with : Transition h → List (TransitionSpec h) → Transition h
  merged_with t specs = record t {
    to_status = target t.to_status specs;
    mutations = t.mutations ++ all_mutations specs;
    event_hooks = t.event_hooks ++ all_hooks specs;
  }

  target_set : (n : ℕ) (specs : List (TransitionSpec h)) → n ≢ 0 → target n specs ≡ n
  target_set n [] p = refl
  target_set n (s ∷ specs) p = ground (arith, target_set n specs p)

  -- The record that the loop goes on with after one registration, but for its status.
  abbrev added : Transition h → TransitionSpec h → Transition h
  added t s = record t {
    mutations = t.mutations ++ s.mutations;
    event_hooks = t.event_hooks ++ map specific s.hooks;
  }

  merge_lem :
      (t : Transition h) (specs : List (TransitionSpec h))
      → merge t specs ≡ (
          if agree (target t.to_status specs) specs
          then ok (merged_with t specs)
          else err conflicting_status)
  unfolding merge merged_with
  merge_lem t [] = cc (append-nil t.mutations, append-nil t.event_hooks)
  merge_lem t (s ∷ specs) = ground (
    arith,
    merge_lem (added t s) specs,
    merge_lem (record (added t s) { to_status = s.to_status }) specs,
    target_set t.to_status specs,
    target_set s.to_status specs,
    append_assoc t.mutations s.mutations (all_mutations specs),
    append_assoc t.event_hooks (map specific s.hooks) (all_hooks specs),
  )

  -- The transition that a set of registrations that apply stands for.
  pub combined : TransitionSet h → ℕ → String → List (TransitionSpec h) → Transition h
  combined hs status event_type found = record {
    from_status = status;
    to_status = target 0 found;
    noop = false;
    event_type = event_type;
    mutations = all_mutations found;
    event_hooks = all_hooks found ++ hs.global_event_hooks;
    state_hooks = hs.global_state_hooks;
  }

  -- buildTransition fails if no registration applies, or if two that apply set different statuses.
  -- Else it has the status that they set, all their mutations and hooks in the order of registration,
  -- then the global hooks, and it is no no-op, whatever Noop() was called on.
  pub build_transition_lem :
      (hs : TransitionSet h) (status : ℕ) (event_type : String)
      → let found = find_specs status event_type hs.transitions in
        build_transition hs status event_type ≡ (
          if is_empty found
          then err no_transition
          else if agree (target 0 found) found
          then ok (combined hs status event_type found)
          else err conflicting_status)
  unfolding build_transition merged_with combined
  build_transition_lem hs status event_type =
      let found = find_specs status event_type hs.transitions in
      ground (arith, merge_lem (start_transition status event_type) found)

  -- If it succeeds, running a transition that buildTransition made for a state leaves the keys and the metadata of the state, and
  -- sets the status that the registrations agree on, or leaves it if they set none.
  pub run_mutations_frame :
      (hs : TransitionSet h) (event_type : String) (state : State e) (event : Event e)
      {t : Transition h} {after : State e}
      → build_transition hs state.status event_type ≡ ok t
      → run_mutations t state event ≡ ok after
      → let to_status = target 0 (find_specs state.status event_type hs.transitions) in
        (after.keys ≡ state.keys)
        × (after.metadata ≡ state.metadata)
        × (after.status ≡ (if to_status == 0 then state.status else to_status))
  unfolding run_mutations combined
  run_mutations_frame hs event_type state event {t} {after} p q =
      let found = find_specs state.status event_type hs.transitions in
      let moved = if t.to_status == 0 then state else record state { status = t.to_status } in
      ground (
        arith,
        build_transition_lem hs state.status event_type,
        run_mutations_from_frame t.mutations moved event {after = after},
      )

  all_hooks-Every :
      (P : EventHook h → Type 0) (specs : List (TransitionSpec h))
      → ((spec : TransitionSpec h)
          → Memᴰ spec specs
          → (hook : TransitionHook h) → Memᴰ hook spec.hooks
          → P (specific hook))
      → Every P (all_hooks specs)
  all_hooks-Every P [] k = λ hook m. elim m [ ]
  all_hooks-Every P (s ∷ specs) k =
      Every-append P (map specific s.hooks) (all_hooks specs)
        (Every-map P specific s.hooks (k s (Memᴰ.head refl)))
        (all_hooks-Every P specs (λ spec m. k spec (Memᴰ.tail m)))

  -- The hooks of a built transition are registered ones.
  pub build_transition-hooks :
      (P : EventHook h → Type 0) (hs : TransitionSet h) (status : ℕ) (event_type : String)
      {t : Transition h}
      → ((spec : TransitionSpec h)
          → Memᴰ spec hs.transitions
          → (hook : TransitionHook h) → Memᴰ hook spec.hooks
          → P (specific hook))
      → Every P hs.global_event_hooks
      → build_transition hs status event_type ≡ ok t
      → Every P t.event_hooks
  unfolding combined
  build_transition-hooks P hs status event_type {t} k g q =
      let found = find_specs status event_type hs.transitions in
      let same : t.event_hooks ≡ all_hooks found ++ hs.global_event_hooks =
        ground (arith, build_transition_lem hs status event_type) in
      rw same (
        Every-append P (all_hooks found) hs.global_event_hooks
          (all_hooks-Every P found
            (λ spec m. k spec ((find_specs_iff status event_type hs.transitions spec).0 m).0))
          g)

  pub build_transition-state_hooks :
      (hs : TransitionSet h) (status : ℕ) (event_type : String) {t : Transition h}
      → build_transition hs status event_type ≡ ok t
      → t.state_hooks ≡ hs.global_state_hooks
  unfolding combined
  build_transition-state_hooks hs status event_type q =
      ground (arith, build_transition_lem hs status event_type)
