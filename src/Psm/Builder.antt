-- ===== src/Psm/Builder.antt =====
-- Registering transitions: the methods of transitionSet, BuilderFrom and TransitionBuilder in
-- psm/transition_builder.go.
use protostate.Common.{
  ℕ, zero, suc, String, ◌≡◌, refl, ap, ◌∙◌, false, true, List, [], ◌∷◌, ◌++◌, if◌then◌else◌, arith,
}
use protostate.Psm.Model.{Entity}
use protostate.Psm.Host.{Host}
use protostate.Psm.Callbacks.{Mutation, TransitionHook, GeneralEventHook, GeneralStateHook, general}
use protostate.Psm.Transition.{TransitionSpec, TransitionSet, find_specs, is_match}

module _ {A : Type 0} where
  abbrev pub length : List A → ℕ
  length [] = 0
  length (x ∷ xs) = suc (length xs)

  -- A change through a pointer to an element.
  pub update_at : ℕ → (A → A) → List A → List A
  update_at n f [] = []
  update_at zero f (x ∷ xs) = f x ∷ xs
  update_at (suc n) f (x ∷ xs) = x ∷ update_at n f xs

  update_at-last :
      (xs : List A) (x : A) (f : A → A) → update_at (length xs) f (xs ++ x ∷ []) ≡ xs ++ f x ∷ []
  unfolding update_at
  update_at-last [] x f = refl
  update_at-last (y ∷ xs) x f = ap (λ zs. y ∷ zs) (update_at-last xs x f)

module _ {e : Entity} (h : Host e) where
  -- TransitionBuilder; `hook_set` is the position of the spec that it points to.
  pub record TransitionBuilder : Type 0 where
    pub hook_set : ℕ
    pub from_status : List ℕ
    pub on_event : String

module _ {e : Entity} {h : Host e} where
  -- LogicHook, EventDataHook and PublishEvent
  pub global_event_hook : TransitionSet h → GeneralEventHook h → TransitionSet h
  global_event_hook hs hook = record hs {
    global_event_hooks = hs.global_event_hooks ++ general hook ∷ [];
  }

  -- StateDataHook and PublishUpsert
  pub global_state_hook : TransitionSet h → GeneralStateHook h → TransitionSet h
  global_state_hook hs hook = record hs { global_state_hooks = hs.global_state_hooks ++ hook ∷ [] }

  -- From(states).OnEvent(event)
  pub on_event : TransitionSet h → List ℕ → String → TransitionSet h × TransitionBuilder h
  on_event hs from_status event = (
    record hs {
      transitions =
          hs.transitions
          ++ record {
            from_status = from_status;
            to_status = 0;
            noop = false;
            event_type = event;
            mutations = [];
            hooks = [];
          }
            ∷ [];
    },
    record { hook_set = length hs.transitions; from_status = from_status; on_event = event },
  )

  pub change :
      (TransitionSpec h → TransitionSpec h)
      → TransitionSet h
      → TransitionBuilder h
      → TransitionSet h
  unfolding update_at
  change f hs tb = record hs { transitions = update_at tb.hook_set f hs.transitions }

  pub mutate : TransitionSet h → TransitionBuilder h → Mutation e → TransitionSet h
  unfolding change
  mutate hs tb mutation =
      change (λ spec. record spec { mutations = spec.mutations ++ mutation ∷ [] }) hs tb

  pub set_status : TransitionSet h → TransitionBuilder h → ℕ → TransitionSet h
  unfolding change
  set_status hs tb status = change (λ spec. record spec { to_status = status }) hs tb

  pub noop : TransitionSet h → TransitionBuilder h → TransitionSet h
  unfolding change
  noop hs tb = change (λ spec. record spec { noop = true }) hs tb

  -- Hook, and for one hook LogicHook, DataHook and LinkTo
  pub hook : TransitionSet h → TransitionBuilder h → List (TransitionHook h) → TransitionSet h
  unfolding change
  hook hs tb hooks = change (λ spec. record spec { hooks = spec.hooks ++ hooks }) hs tb

  -- BuilderFrom.Mutate
  pub from_mutate : TransitionSet h → List ℕ → Mutation e → TransitionSet h × TransitionBuilder h
  unfolding on_event mutate
  from_mutate hs from_status mutation =
      let made = on_event hs from_status mutation.event_type in
      (mutate made.0 made.1 mutation, made.1)

  -- BuilderFrom.Hook, LogicHook, DataHook and LinkTo
  pub from_hook :
      TransitionSet h → List ℕ → TransitionHook h → TransitionSet h × TransitionBuilder h
  unfolding on_event hook
  from_hook hs from_status th =
      let made = on_event hs from_status th.event_type in (hook made.0 made.1 (th ∷ []), made.1)

  find_specs-append :
      (status : ℕ) (event_type : String) (xs ys : List (TransitionSpec h))
      → find_specs status event_type (xs ++ ys)
        ≡ find_specs status event_type xs ++ find_specs status event_type ys
  unfolding find_specs
  find_specs-append status event_type [] ys = refl
  find_specs-append status event_type (x ∷ xs) ys =
      ground (arith, find_specs-append status event_type xs ys)

  -- Three changes of the element that was added last.
  update_at-last3 :
      (xs : List (TransitionSpec h)) (x : TransitionSpec h)
      (f g k : TransitionSpec h → TransitionSpec h)
      → update_at (length xs) k (update_at (length xs) g (update_at (length xs) f (xs ++ x ∷ [])))
        ≡ xs ++ k (g (f x)) ∷ []
  update_at-last3 xs x f g k =
      ap (λ zs. update_at (length xs) k (update_at (length xs) g zs)) (update_at-last xs x f)
      ∙ ap (update_at (length xs) k) (update_at-last xs (f x) g)
      ∙ update_at-last xs (g (f x)) k

  -- hs.From(froms).Mutate(m).SetStatus(to).Hook(hooks…) adds one registration to those that are found
  -- for a status and an event type, behind the others and only where it matches: with these statuses,
  -- the event type of `m`, the status `to`, the one mutation and these hooks.
  pub from_mutate-found :
      (hs : TransitionSet h) (froms : List ℕ) (m : Mutation e) (to : ℕ)
      (hooks : List (TransitionHook h)) (status : ℕ) (event_type : String)
      → let (made, tb) = from_mutate hs froms m in
        let spec : TransitionSpec h = record {
          from_status = froms;
          to_status = to;
          noop = false;
          event_type = m.event_type;
          mutations = m ∷ [];
          hooks = hooks;
        } in
        find_specs status event_type (hook (set_status made tb to) tb hooks).transitions
        ≡ find_specs status event_type hs.transitions
          ++ (if is_match status event_type spec then spec ∷ [] else [])
  unfolding from_mutate set_status hook find_specs
  from_mutate-found hs froms m to hooks status event_type =
      ap (find_specs status event_type) (update_at-last3 hs.transitions _ _ _ _)
      ∙ find_specs-append status event_type hs.transitions _
