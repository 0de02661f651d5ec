-- ===== src/Fixture/Machine.antt =====
-- A state machine on the fixture's database: an order that opening names, by a chained event.
use protostate.Common.{
  some, ℕ, ◌+◌, String, Bool, true, false, not, none, [], ◌∷◌, ◌++◌, str_eq, ◌==◌, if◌then◌else◌,
  Result, ok, err, scan_columns,
}
use protostate.Psm.Model.{text, State, Event}
use protostate.Psm.Host.{Host}
use protostate.Psm.Tables.{KeyColumn, Tables, key_schema, uuid}
use protostate.Psm.Callbacks.{Mutation, side_effect, chain_event, TransitionHook}
use protostate.Psm.Transition.{TransitionSpec}
use protostate.Psm.Machine.{StateMachine}
use protostate.Fixture.Shop.{
  shop, Step, opened, closed, renamed, Doc, state_doc, event_doc, write_cause, read_cause,
  Step-discrete,
}
use protostate.Fixture.Store.{Db, rows, answer, exec_db}

abbrev pub same_step : Step → Step → Bool
same_step a b = elim (Step-discrete a b) [ yes p ↦ true | no n ↦ false ]

abbrev pub read_state : Doc → Result (State shop)
read_state (state_doc status created updated last keys value) = ok (record {
  status = status;
  metadata = record { created_at = created; updated_at = updated; last_sequence = last };
  keys = keys;
  value = value;
})
read_state (event_doc a b c d k i) = err scan_columns

abbrev pub read_event : Doc → Result (Event shop)
read_event (state_doc a b c d k v) = err scan_columns
read_event (event_doc id sequence time cause keys inner) = ok (record {
  metadata = record {
    event_id = id;
    sequence = sequence;
    timestamp = time;
    cause = read_cause cause;
  };
  keys = keys;
  inner = inner;
})

abbrev pub uuid_of : ℕ → String
uuid_of n = if n == 0 then "uuid-0" else if n == 1 then "uuid-1" else "uuid-n"

abbrev pub step_name : Step → String
step_name opened = "opened"
step_name closed = "closed"
step_name (renamed n) = "renamed"

abbrev pub host : Host shop
host = record {
  Db = Db;
  select_row = λ db q. (answer (rows db q.table) q).0;
  exec = exec_db;
  send = λ db m. ok (record db { outbox = db.outbox ++ m ∷ [] });
  send_delayed = λ db d m. ok (record db { outbox = db.outbox ++ m ∷ [] });
  is_zero = λ d. d == 0;
  no_delay = 0;
  uuid = uuid_of;
  now = λ n. 100 + n;
  zero_time = 0;
  validate_event = λ v. ok tt;
  validate_state = λ s. ok tt;
  validate_message = λ m. ok tt;
  marshal_state = λ s. ok (
      state_doc s.status s.metadata.created_at s.metadata.updated_at s.metadata.last_sequence s.keys
        s.value);
  unmarshal_state = read_state;
  marshal_event = λ v. ok (
      event_doc v.metadata.event_id v.metadata.sequence v.metadata.timestamp
        (write_cause v.metadata.cause) v.keys v.inner);
  unmarshal_event = read_event;
  inner_equal = same_step;
  event_equal = λ a b. str_eq a.metadata.event_id b.metadata.event_id;
  date_equal = λ a b. a == b;
  opaque_equal = λ a b. a == b;
  keys_is_set = λ k. not (str_eq k "");
  inner_is_set = λ i. true;
  empty_data = 0;
  key_values = λ k. ok (("order_id", text k) ∷ []);
  full_name = "shop";
  event_key = step_name;
  known_event = λ i. true;
}

abbrev pub order_id : KeyColumn
order_id = record {
  column_name = "order_id";
  primary = true;
  required = true;
  schema = some (key_schema (some uuid));
}

abbrev pub tables : Tables
tables = record {
  key_columns = order_id ∷ [];
  state_table = "foo";
  state_root = "state";
  event_table = "foo_event";
  event_root = "data";
  event_id = "id";
  event_timestamp = "timestamp";
  event_sequence = "sequence";
  event_snapshot = "state";
}

abbrev pub name_chained : TransitionHook host
name_chained = record {
  callback = λ tx baton state event. ok (tx, chain_event (renamed 7) ∷ side_effect "hello" ∷ []);
  run_on_follow = false;
  event_type = "opened";
}

abbrev take_name : ℕ → Step → Result ℕ
take_name old (renamed n) = ok n
take_name old opened = ok old
take_name old closed = ok old

abbrev pub rename : Mutation shop
rename = record { event_type = "renamed"; takes = λ i. true; call = take_name }

abbrev pub opening : TransitionSpec host
opening = record {
  from_status = 0 ∷ [];
  to_status = 1;
  noop = false;
  event_type = "opened";
  mutations = [];
  hooks = name_chained ∷ [];
}

abbrev pub renaming : TransitionSpec host
renaming = record {
  from_status = 1 ∷ [];
  to_status = 0;
  noop = false;
  event_type = "renamed";
  mutations = rename ∷ [];
  hooks = [];
}

abbrev pub machine : StateMachine host
machine = record {
  transition_set = record {
    global_event_hooks = [];
    global_state_hooks = [];
    transitions = opening ∷ renaming ∷ [];
  };
  key_value_func = none;
  initial_state_func = none;
  tables = tables;
}
