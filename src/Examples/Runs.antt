-- ===== src/Examples/Runs.antt =====
-- Examples of whole runs: an order is opened, and the same event comes again.
use mathlib.Core.List.{Memᴰ}
use protostate.Common.{
  ◌≡◌, ◌≢◌, refl, none, some, [], ◌∷◌, Result, ok, err, duplicate_event_id, scan_columns, lookup,
  without,
}
use protostate.Psm.Model.{State, Event, EventSpec, command, text}
use protostate.Psm.Host.{World, key, number, stamp, json}
use protostate.Psm.Recorded.{Recorded}
use protostate.Psm.EventLog.{Grows, run_tx-Grows, follow_events-Grows}
use protostate.Psm.Replay.Again.{run_tx-Recorded, run_tx_replay}
use protostate.Psm.Replay.Following.{follow_one-recorded}
use protostate.Psm.Spec.Retry.{run_tx_retry_fails}
use protostate.Fixture.{
  shop, opened, closed, event_doc, state_doc, command_doc, psm_event_doc, renamed, host, machine,
  storage, named, codec, callbacks, before, before-Valid, open_order, str_differ,
}
use protostate.Psm.Spec.{check_cause, prepare_message, prepare_action, validate_and_prepare}
use protostate.Psm.Keys.{collect, key_values_of, match_keys, assert_present_keys_match}
use protostate.Psm.Callbacks.{run_mutation, run_mutations_from, call_baton, call_all}
use protostate.Psm.Transition.{
  is_match, find_specs, merge_status, merge, start_transition, add_globals, build_transition,
  run_mutations,
}
use protostate.Psm.Hooks.{
  run_event_hook, run_state_hook, run_event_hooks, run_state_hooks, run_hooks, follow_event_hooks,
  follow_state_hooks, run_follower_hooks, no_baton,
}
use protostate.Psm.Tx.{◌>>=◌}
use protostate.Psm.Machine.{
  raw_values, key_values, state_query, new_state, get_current_state, upsert_query, insert_query,
  store, event_query, follow_event_deduplicate, first_event_unique_check, events_must_be_unique,
}
use protostate.Psm.Prepare.{next_state_event, prepare_event, derive_event, derive_events}
use protostate.Psm.Run.{
  store_after_mutation, mutate_and_store, send_side_effects, chain_must_be_unique, run_chain,
  run_event, follow_event,
}
use protostate.Psm.Entry.{
  run_prepared, run_initial_event, run_from_state, run_identified, assign_id, run_tx, follow_one,
  follow_events,
}

abbrev outcome : Result (State shop × World host)
outcome = (run_tx machine 5 open_order before).0

abbrev after : World host
after = record {
  db = record {
    state_rows =
        (("order_id", key (text "order-1"))
          ∷ ("state", json (state_doc 1 (some 100) (some 102) 1 "order-1" 7))
          ∷ [])
        ∷ [];
    event_rows =
        (("id", key (text "event-1"))
          ∷ ("order_id", key (text "order-1"))
          ∷ ("timestamp", stamp (some 100))
          ∷ ("sequence", number 0)
          ∷ (
            "data",
            json (event_doc "event-1" 0 (some 100) (some (command_doc "user")) "order-1" opened),
          )
          ∷ ("state", json (state_doc 1 (some 100) (some 100) 0 "order-1" 0))
          ∷ [])
        ∷ (("id", key (text "uuid-0"))
            ∷ ("order_id", key (text "order-1"))
            ∷ ("timestamp", stamp (some 102))
            ∷ ("sequence", number 1)
            ∷ (
              "data",
              json (
                  event_doc "uuid-0" 1 (some 102) (some (psm_event_doc "event-1" "shop")) "order-1"
                    (renamed 7)),
            )
            ∷ ("state", json (state_doc 1 (some 100) (some 102) 1 "order-1" 7))
            ∷ [])
        ∷ [];
    outbox = "hello" ∷ [];
  };
  draws = 1;
  readings = 3;
}

abbrev opened_state : State shop
opened_state = record {
  status = 1;
  metadata = record { created_at = some 100; updated_at = some 100; last_sequence = 0 };
  keys = "order-1";
  value = 0;
}

-- The spec that comes again has another cause and no keys.
abbrev again : EventSpec shop
again = record open_order { keys = "order-2"; action = none; message = some "queue" }

abbrev closing : EventSpec shop
closing = record again { event = closed }

opens : outcome ≡ ok (opened_state, after)
unfolding lookup without check_cause prepare_message prepare_action validate_and_prepare collect
    key_values_of match_keys assert_present_keys_match run_mutation run_mutations_from call_baton
    call_all is_match find_specs merge_status merge start_transition add_globals build_transition
    run_mutations run_event_hook run_state_hook run_event_hooks run_state_hooks run_hooks
    follow_event_hooks follow_state_hooks run_follower_hooks no_baton ◌>>=◌ raw_values key_values
    state_query new_state get_current_state upsert_query insert_query store event_query
    follow_event_deduplicate first_event_unique_check events_must_be_unique next_state_event
    prepare_event derive_event derive_events store_after_mutation mutate_and_store send_side_effects
    chain_must_be_unique run_chain run_event follow_event run_prepared run_initial_event
    run_from_state run_identified assign_id run_tx follow_one follow_events
opens = refl

again-accepted : (validate_and_prepare host again).0 ≡ none
unfolding check_cause prepare_message prepare_action validate_and_prepare
again-accepted = refl

run_tx_replay_example : (run_tx machine 1 again after).0 ≡ ok (opened_state, after)
run_tx_replay_example =
    run_tx_replay machine storage named codec callbacks 5 1 open_order again before after
      opened_state before-Valid (str_differ "event-1" "" refl) opens again-accepted refl refl

run_tx-Grows_example : Grows storage before after
run_tx-Grows_example =
    run_tx-Grows machine storage named callbacks 5 open_order before after opened_state opens

after-Valid : storage.Valid after.db
after-Valid =
    (run_tx-Grows machine storage named callbacks 5 open_order before after opened_state
        opens).valid
      before-Valid

abbrev opening_event : Event shop
opening_event = record {
  metadata = record {
    event_id = "event-1";
    sequence = 0;
    timestamp = some 100;
    cause = some (command "user");
  };
  keys = "order-1";
  inner = opened;
}

recorded : Recorded machine storage after opening_event opened_state
unfolding storage lookup without check_cause prepare_message prepare_action validate_and_prepare
    collect key_values_of match_keys assert_present_keys_match run_mutation run_mutations_from
    call_baton call_all is_match find_specs merge_status merge start_transition add_globals
    build_transition run_mutations run_event_hook run_state_hook run_event_hooks run_state_hooks
    run_hooks follow_event_hooks follow_state_hooks run_follower_hooks no_baton ◌>>=◌ raw_values
    key_values state_query new_state get_current_state upsert_query insert_query store event_query
    follow_event_deduplicate first_event_unique_check events_must_be_unique next_state_event
    prepare_event derive_event derive_events store_after_mutation mutate_and_store send_side_effects
    chain_must_be_unique run_chain run_event follow_event run_prepared run_initial_event
    run_from_state run_identified assign_id run_tx follow_one follow_events
recorded = record {
  event_json = event_doc "event-1" 0 (some 100) (some (command_doc "user")) "order-1" opened;
  state_json = state_doc 1 (some 100) (some 100) 0 "order-1" 0;
  event_written = refl;
  state_written = refl;
  row = _;
  row_there = Memᴰ.head refl;
  has_id = refl;
  has_event = refl;
  has_state = refl;
}

run_tx-Recorded_example : (run_tx machine 5 closing after).0 ≡ err duplicate_event_id
unfolding check_cause prepare_message prepare_action validate_and_prepare
run_tx-Recorded_example =
    run_tx-Recorded machine storage codec after opening_event opened_state after-Valid recorded 5
      closing refl refl (str_differ "event-1" "" refl)

abbrev followed : World host
followed = record {
  db = record {
    state_rows =
        (("order_id", key (text "order-1"))
          ∷ ("state", json (state_doc 1 (some 100) (some 100) 0 "order-1" 0))
          ∷ [])
        ∷ [];
    event_rows =
        (("id", key (text "event-1"))
          ∷ ("order_id", key (text "order-1"))
          ∷ ("timestamp", stamp (some 100))
          ∷ ("sequence", number 0)
          ∷ (
            "data",
            json (event_doc "event-1" 0 (some 100) (some (command_doc "user")) "order-1" opened),
          )
          ∷ ("state", json (state_doc 1 (some 100) (some 100) 0 "order-1" 0))
          ∷ [])
        ∷ [];
    outbox = [];
  };
  draws = 0;
  readings = 0;
}

follows_opening : follow_events machine 5 (opening_event ∷ []) before ≡ ok (tt, followed)
unfolding lookup without check_cause prepare_message prepare_action validate_and_prepare collect
    key_values_of match_keys assert_present_keys_match run_mutation run_mutations_from call_baton
    call_all is_match find_specs merge_status merge start_transition add_globals build_transition
    run_mutations run_event_hook run_state_hook run_event_hooks run_state_hooks run_hooks
    follow_event_hooks follow_state_hooks run_follower_hooks no_baton ◌>>=◌ raw_values key_values
    state_query new_state get_current_state upsert_query insert_query store event_query
    follow_event_deduplicate first_event_unique_check events_must_be_unique next_state_event
    prepare_event derive_event derive_events store_after_mutation mutate_and_store send_side_effects
    chain_must_be_unique run_chain run_event follow_event run_prepared run_initial_event
    run_from_state run_identified assign_id run_tx follow_one follow_events
follows_opening = refl

follow_events-Grows_example : Grows storage before followed
follow_events-Grows_example =
    follow_events-Grows machine storage named callbacks 5 (opening_event ∷ []) before followed
      follows_opening

follow_one-recorded_example : follow_one machine 5 opening_event after ≡ err scan_columns
follow_one-recorded_example =
    follow_one-recorded machine storage after opening_event opened_state after-Valid recorded 5 refl

open_order-accepted : (validate_and_prepare host open_order).0 ≡ none
unfolding check_cause prepare_message prepare_action validate_and_prepare
open_order-accepted = refl

run_tx_retry_fails_example :
    (run_tx machine 5 (run_tx machine 5 open_order before).1 after).0 ≢ ok (opened_state, after)
run_tx_retry_fails_example =
    run_tx_retry_fails machine 5 5 open_order before after open_order-accepted refl
      (opened_state, after)
