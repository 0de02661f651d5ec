-- ===== src/Psm/Tables/Validate.antt =====
-- Validating a table map: TableMap.Validate of psm/table_map.go.
use protostate.Common.{
  String, ◌≡◌, ◌≢◌, ◌↔◌, refl, Bool, true, false, Option, none, some, List, if◌then◌else◌, str_eq,
  str_eq_iff, arith,
}
use protostate.Psm.Tables.{KeyColumn, TableMap, Tables}

abbrev pub is_nil : {A : Type 0} → Option A → Bool
is_nil none = true
is_nil (some a) = false

-- The message of the error.
pub validate : TableMap → Option String
validate tm =
    if str_eq tm.state_table ""
    then some "missing State.TableName in TableMap"
    else if is_nil tm.state_root
    then some "missing State.Data in TableMap"
    else if str_eq tm.event_table ""
    then some "missing Event.TableName in TableMap"
    else if is_nil tm.event_id
    then some "missing Event.Data in TableMap"
    else if is_nil tm.event_timestamp
    then some "missing Event.Timestamp in TableMap"
    else if is_nil tm.event_root
    then some "missing Event.Data in TableMap"
    else if is_nil tm.event_sequence
    then some "missing Event.Sequence in TableMap"
    else if is_nil tm.event_snapshot
    then some "missing Event.StateSnapshot in TableMap"
    else none

-- The map in which every field is in place.
abbrev pub as_map : Tables → TableMap
as_map t = record {
  key_columns = t.key_columns;
  state_table = t.state_table;
  state_root = some t.state_root;
  event_table = t.event_table;
  event_root = some t.event_root;
  event_id = some t.event_id;
  event_timestamp = some t.event_timestamp;
  event_sequence = some t.event_sequence;
  event_snapshot = some t.event_snapshot;
}

abbrev pub IsComplete : TableMap → Type 0
IsComplete tm = (t : Tables) × (tm ≡ as_map t) × (t.state_table ≢ "") × (t.event_table ≢ "")

module _ (key_columns : List KeyColumn) (state_table event_table : String) where
  abbrev with_fields : (a b c d f g : Option String) → TableMap
  with_fields a b c d f g = record {
    key_columns = key_columns;
    state_table = state_table;
    state_root = a;
    event_table = event_table;
    event_root = d;
    event_id = b;
    event_timestamp = c;
    event_sequence = f;
    event_snapshot = g;
  }

  fields-IsComplete :
      (a b c d f g : Option String)
      → validate (with_fields a b c d f g) ≡ none
      → IsComplete (with_fields a b c d f g)
  unfolding validate
  fields-IsComplete none b c d f g p = absurd (ground (arith, p))
  fields-IsComplete (some a) none c d f g p = absurd (ground (arith, p))
  fields-IsComplete (some a) (some b) none d f g p = absurd (ground (arith, p))
  fields-IsComplete (some a) (some b) (some c) none f g p = absurd (ground (arith, p))
  fields-IsComplete (some a) (some b) (some c) (some d) none g p = absurd (ground (arith, p))
  fields-IsComplete (some a) (some b) (some c) (some d) (some f) none p = absurd (ground (arith, p))
  fields-IsComplete (some a) (some b) (some c) (some d) (some f) (some g) p = (
    record {
      key_columns = key_columns;
      state_table = state_table;
      state_root = a;
      event_table = event_table;
      event_root = d;
      event_id = b;
      event_timestamp = c;
      event_sequence = f;
      event_snapshot = g;
    },
    refl,
    λ q. ground (arith, str_eq_iff state_table ""),
    λ q. ground (arith, str_eq_iff event_table ""),
  )

validate-IsComplete : (tm : TableMap) → validate tm ≡ none → IsComplete tm
validate-IsComplete tm =
    fields-IsComplete tm.key_columns tm.state_table tm.event_table tm.state_root tm.event_id
      tm.event_timestamp tm.event_root tm.event_sequence tm.event_snapshot

validate-as_map :
    (t : Tables) → t.state_table ≢ "" → t.event_table ≢ "" → validate (as_map t) ≡ none
unfolding validate
validate-as_map t p q = ground (arith, str_eq_iff t.state_table "", str_eq_iff t.event_table "")

-- A table map is accepted exactly when it names both tables and every column that the state machine
-- reads or writes.
pub validate_iff : (tm : TableMap) → (validate tm ≡ none) ↔ IsComplete tm
validate_iff tm = (validate-IsComplete tm, λ (t, same, p, q). rw same (validate-as_map t p q))
