-- ===== src/Examples/Parts.antt =====
-- Examples of the parts of a run: event specs, key values and transitions.
use mathlib.Core.List.{Memᴰ}
use protostate.Common.{
  arith, ◌+◌, ◌≡◌, ◌↔◌, refl, none, some, [], ◌∷◌, ok, err, cause_exclusive, unexpected_keys,
  conflicting_status, lookup,
}
use protostate.Psm.Model.{State, Event, EventSpec, KeyMap, text, command}
use protostate.Psm.Keys.{key_values_of, assert_present_keys_match}
use protostate.Psm.Keys.Columns.{Covers, key_values_of_lem, assert_present_keys_match_iff}
use protostate.Psm.Spec.{check_cause, prepare_message, prepare_action, validate_and_prepare}
use protostate.Psm.Spec.Sources.{
  IsAcceptable, prepare_accepts_iff, prepare_fills_cause, prepare_twice_refused,
}
use protostate.Psm.Transition.{
  TransitionSet, is_match, find_specs, merge_status, merge, start_transition, add_globals,
  build_transition, run_mutations,
}
use protostate.Psm.Callbacks.{run_mutation, run_mutations_from}
use protostate.Psm.Transition.Found.{Applies, find_specs_iff}
use protostate.Psm.Transition.Merged.{build_transition_lem, run_mutations_frame}
use protostate.Psm.Builder.{hook, set_status, from_mutate, from_mutate-found}
use protostate.Psm.Tables.Validate.{validate, as_map, IsComplete, validate_iff}
use protostate.Psm.Host.{World}
use protostate.Psm.Tx.{◌>>=◌}
use protostate.Psm.Prepare.{prepare_event, next_state_event}
use protostate.Psm.Prepare.Sequence.{prepare_event-sequence}
use protostate.Fixture.{
  opened, before, rename, name_chained, tables, shop, renamed, host, opening, renaming, machine,
  order_id, open_order,
}

abbrev prepared : EventSpec shop
prepared = record open_order { cause = some (command "user") }

prepare_accepts_iff_example :
    ((validate_and_prepare host open_order).0 ≡ none) ↔ IsAcceptable host open_order
prepare_accepts_iff_example = prepare_accepts_iff host open_order

accepted : (validate_and_prepare host open_order).0 ≡ none
unfolding check_cause prepare_message prepare_action validate_and_prepare
accepted = refl

prepare_fills_cause_example : (validate_and_prepare host open_order).1 ≡ prepared
prepare_fills_cause_example = prepare_fills_cause host open_order accepted

prepare_twice_refused_example :
    (validate_and_prepare host (validate_and_prepare host open_order).1).0 ≡ some cause_exclusive
prepare_twice_refused_example = prepare_twice_refused host open_order accepted refl

abbrev raw : KeyMap shop
raw = ("order_id", text "order-1") ∷ ("colour", text "red") ∷ []

key_values_of_lem_example :
    key_values_of (order_id ∷ []) raw ≡ err (unexpected_keys ("colour" ∷ []))
unfolding lookup
key_values_of_lem_example = key_values_of_lem (order_id ∷ []) raw (tt, tt)

assert_present_keys_match_iff_example :
    (assert_present_keys_match host "order-1" "order-2" ≡ ok tt)
    ↔ Covers host (("order_id", text "order-1") ∷ []) (("order_id", text "order-2") ∷ [])
assert_present_keys_match_iff_example =
    assert_present_keys_match_iff host "order-1" "order-2" refl refl

find_specs_iff_example :
    Memᴰ renaming (find_specs 1 "renamed" (opening ∷ renaming ∷ []))
    ↔ (Memᴰ renaming (opening ∷ renaming ∷ []) × Applies 1 "renamed" renaming)
find_specs_iff_example = find_specs_iff 1 "renamed" (opening ∷ renaming ∷ []) renaming

-- Two registrations for the same event that set different statuses.
abbrev disagreeing : TransitionSet host
disagreeing = record {
  global_event_hooks = [];
  global_state_hooks = [];
  transitions = opening ∷ record opening { to_status = 2 } ∷ [];
}

build_transition_lem_example : build_transition disagreeing 0 "opened" ≡ err conflicting_status
unfolding find_specs is_match
build_transition_lem_example = build_transition_lem disagreeing 0 "opened"

abbrev named_state : State shop
named_state = record {
  status = 1;
  metadata = record { created_at = some 100; updated_at = some 100; last_sequence = 0 };
  keys = "order-1";
  value = 0;
}

abbrev naming : Event shop
naming = record {
  metadata = record { event_id = "event-2"; sequence = 1; timestamp = some 101; cause = none };
  keys = "order-1";
  inner = renamed 9;
}

abbrev named_after : State shop
named_after = record named_state { value = 9 }

run_mutations_frame_example :
    (named_after.keys ≡ named_state.keys)
    × (named_after.metadata ≡ named_state.metadata)
    × (named_after.status ≡ named_state.status)
unfolding is_match find_specs merge_status merge start_transition add_globals build_transition
    run_mutations run_mutation run_mutations_from
run_mutations_frame_example =
    run_mutations_frame machine.transition_set "renamed" named_state naming {after = named_after}
      refl refl

from_mutate-found_example :
    find_specs 1 "renamed"
      (hook
        (set_status
          (from_mutate machine.transition_set (1 ∷ []) rename).0
          (from_mutate machine.transition_set (1 ∷ []) rename).1
          1)
        (from_mutate machine.transition_set (1 ∷ []) rename).1
        (name_chained ∷ [])).transitions
    ≡ renaming ∷ record renaming { to_status = 1; hooks = name_chained ∷ [] } ∷ []
unfolding find_specs is_match
from_mutate-found_example =
    from_mutate-found machine.transition_set (1 ∷ []) rename 1 (name_chained ∷ []) 1 "renamed"

validate_iff_example : (validate (as_map tables) ≡ none) ↔ IsComplete (as_map tables)
validate_iff_example = validate_iff (as_map tables)

abbrev moved_state : State shop
moved_state = record named_state {
  metadata = record { created_at = some 100; updated_at = some 100; last_sequence = 1 };
}

abbrev next_event : Event shop
next_event = record {
  metadata = record {
    event_id = "event-1";
    sequence = 1;
    timestamp = some 100;
    cause = some (command "user");
  };
  keys = "order-1";
  inner = opened;
}

abbrev one_reading : World host
one_reading = record before { readings = 1 }

prepare_event-sequence_example :
    (next_event.metadata.sequence ≡ named_state.metadata.last_sequence + 1)
    × (moved_state.metadata.last_sequence ≡ next_event.metadata.sequence)
    × (moved_state.metadata.updated_at ≡ next_event.metadata.timestamp)
    × (moved_state.metadata.created_at ≡ named_state.metadata.created_at)
    × (next_event.metadata.event_id ≡ prepared.event_id)
    × (next_event.keys ≡ prepared.keys)
    × (next_event.metadata.cause ≡ prepared.cause)
    × (next_event.inner ≡ prepared.event)
    × (moved_state.status ≡ named_state.status)
    × (moved_state.keys ≡ named_state.keys)
    × (moved_state.value ≡ named_state.value)
unfolding prepare_event next_state_event ◌>>=◌
prepare_event-sequence_example =
    prepare_event-sequence named_state prepared before one_reading moved_state next_event
      (omega arith) (omega arith) refl
