-- ===== src/Psm/Machine.antt =====
-- The state machine and its access to the tables: psm/statemachine.go.
use protostate.Common.{
  ℕ, ◌%◌, ◌^◌, String, Bool, true, false, Option, none, some, List, [], ◌∷◌, ◌++◌, is_empty, str_eq,
  if◌then◌else◌, Result, ok, err, missing_required, scan_columns, event_differs, duplicate_event_id,
  guard, ◌>>=◌ as result_bind,
}
use protostate.Psm.Model.{Entity, text, KeyMap, State, Event, EventSpec}
use protostate.Psm.Host.{Host, Cell, key, number, stamp, json, Row, Select, Insert, upsert, insert}
use protostate.Psm.Tx.{Tx, pure, lift, ◌>>=◌, ◌>>◌, select_row, exec}
use protostate.Psm.Tables.{Tables}
use protostate.Psm.Keys.{KeyValue, KeyValues, key_values_of}
use protostate.Psm.Transition.{TransitionSet}

-- protojson's input: a column that holds JSON.
abbrev pub to_bytes : {e : Entity} → Cell e → Result e.Json
to_bytes (json j) = ok j
to_bytes (key v) = err scan_columns
to_bytes (number n) = err scan_columns
to_bytes (stamp t) = err scan_columns

-- Row.Scan with one and with two destinations, which must be as many as the columns.
abbrev pub scan_one : {e : Entity} → List (Cell e) → Result e.Json
scan_one [] = err scan_columns
scan_one (a ∷ []) = to_bytes a
scan_one (a ∷ b ∷ cells) = err scan_columns

abbrev pub pair : {A B : Type 0} → Result A → Result B → Result (A × B)
pair (ok a) (ok b) = ok (a, b)
pair (ok a) (err x) = err x
pair (err x) r = err x

abbrev pub scan_two : {e : Entity} → List (Cell e) → Result (e.Json × e.Json)
scan_two [] = err scan_columns
scan_two (a ∷ []) = err scan_columns
scan_two (a ∷ b ∷ []) = pair (to_bytes a) (to_bytes b)
scan_two (a ∷ b ∷ c ∷ cells) = err scan_columns

abbrev pub u64 : ℕ → ℕ
u64 n = n % 2 ^ 64

pub record StateMachine {e : Entity} (h : Host e) : Type 0 where
  pub transition_set : TransitionSet h
  pub key_value_func : Option (e.Keys → Result (KeyMap e))
  pub initial_state_func : Option (e.Keys → Tx h e.Inner)
  pub tables : Tables

module _ {e : Entity} where
  abbrev pub primary_cells : List (KeyValue e) → Row e
  primary_cells [] = []
  primary_cells (kv ∷ kvs) =
      let rest = primary_cells kvs in
      if kv.column.primary then (kv.column.column_name, key kv.value) ∷ rest else rest

  abbrev pub other_cells : List (KeyValue e) → Row e
  other_cells [] = []
  other_cells (kv ∷ kvs) =
      let rest = other_cells kvs in
      if kv.column.primary then rest else (kv.column.column_name, key kv.value) ∷ rest

  abbrev pub key_columns : List (KeyValue e) → List String
  key_columns [] = []
  key_columns (kv ∷ kvs) = kv.column.column_name ∷ key_columns kvs

  abbrev pub key_cells : List (KeyValue e) → List (Cell e)
  key_cells [] = []
  key_cells (kv ∷ kvs) = key kv.value ∷ key_cells kvs

module _ {e : Entity} {h : Host e} (sm : StateMachine h) where
  unfoldable pub raw_values : e.Keys → Result (KeyMap e)
  raw_values keys = elim sm.key_value_func [ none ↦ h.key_values keys | some f ↦ f keys ]

  -- keyValues
  unfoldable pub key_values : e.Keys → Result (KeyValues e)
  unfolding raw_values
  key_values keys = result_bind (raw_values keys) (key_values_of sm.tables.key_columns)

  unfoldable pub state_query : List (KeyValue e) → Select e
  state_query values = record {
    columns = sm.tables.state_root ∷ [];
    table = sm.tables.state_table;
    wheres = primary_cells values;
  }

  -- A new state message with the keys set: everything else has its zero value.
  unfoldable pub new_state : e.Keys → State e
  new_state keys = record {
    status = 0;
    metadata = record { created_at = none; updated_at = none; last_sequence = 0 };
    keys = keys;
    value = h.empty_data;
  }

  unfoldable pub get_current_state : e.Keys → Tx h (State e)
  get_current_state keys = do
    all_keys ← lift (key_values keys)
    found ← select_row (state_query all_keys.values)
    elim found [
      | none ↦
          if is_empty all_keys.missing_required
          then pure (new_state keys)
          else lift (err (missing_required all_keys.missing_required))
      | some row ↦ do state_json ← lift (scan_one row); lift (h.unmarshal_state state_json)
    ]

  unfoldable pub upsert_query : List (KeyValue e) → e.Json → Insert e
  upsert_query values state_json =
      upsert sm.tables.state_table (primary_cells values)
        (other_cells values ++ (sm.tables.state_root, json state_json) ∷ [])

  unfoldable pub insert_query : List (KeyValue e) → Event e → e.Json → e.Json → Insert e
  insert_query values event event_json state_json =
      insert sm.tables.event_table
        (sm.tables.event_id
          ∷ (key_columns values
              ++ (sm.tables.event_timestamp ∷ sm.tables.event_sequence ∷ sm.tables.event_root
                  ∷ sm.tables.event_snapshot ∷ [])))
        (key (text event.metadata.event_id)
          ∷ (key_cells values
              ++ (stamp event.metadata.timestamp
                  ∷ number event.metadata.sequence
                  ∷ json event_json
                  ∷ json state_json
                  ∷ [])))

  unfoldable pub store : State e → Event e → Tx h (Unit {0})
  store state event = do
    state_json ← lift (h.marshal_state state)
    event_json ← lift (h.marshal_event event)
    kvs ← lift (key_values state.keys)
    lift (guard (is_empty kvs.missing_required) (missing_required kvs.missing_required))
    exec (upsert_query kvs.values state_json)
    exec (insert_query kvs.values event event_json state_json)

  -- eventQuery, with the columns that the caller adds.
  unfoldable pub event_query : String → List String → Select e
  event_query event_id more = record {
    columns = sm.tables.event_root ∷ more;
    table = sm.tables.event_table;
    wheres = (sm.tables.event_id, key (text event_id)) ∷ [];
  }

  -- followEventDeduplicate: it scans two columns of a query for one.
  unfoldable pub follow_event_deduplicate : Event e → Tx h Bool
  follow_event_deduplicate event = do
    found ← select_row (event_query event.metadata.event_id [])
    elim found [
      | none ↦ pure false
      | some row ↦ do
        (event_json, state_json) ← lift (scan_two row)
        existing ← lift (h.unmarshal_event event_json)
        lift (guard (h.event_equal existing event) event_differs)
        pure true
    ]

  -- firstEventUniqueCheck: the state to return if the event was there before.
  unfoldable pub first_event_unique_check : String → e.Inner → Tx h (Option (State e))
  first_event_unique_check event_id inner = do
    found ← select_row (event_query event_id (sm.tables.event_snapshot ∷ []))
    elim found [
      | none ↦ pure none
      | some row ↦ do
        (event_json, state_json) ← lift (scan_two row)
        existing ← lift (h.unmarshal_event event_json)
        lift (guard (h.inner_equal existing.inner inner) duplicate_event_id)
        state ← lift (h.unmarshal_state state_json)
        pure (some state)
    ]

  unfoldable pub events_must_be_unique : List (EventSpec e) → Tx h (Unit {0})
  events_must_be_unique [] = pure tt
  events_must_be_unique (spec ∷ specs) =
      let check : Tx h (Unit {0}) = (do
        found ← select_row (event_query spec.event_id [])
        elim found [
          | none ↦ events_must_be_unique specs
          | some row ↦ do scanned ← lift (scan_one row); lift (err duplicate_event_id)
        ]) in
      let later = events_must_be_unique specs in if str_eq spec.event_id "" then later else check
