-- ===== src/Migrate/Tables.antt =====
-- The tables of a state machine: BuildPSMTables of internal/pgstore/pgmigrate/psm.go.
use protostate.Common.{
  ℕ, String, Option, none, some, List, [], ◌∷◌, if◌then◌else◌, Result, ok, err, ◌>>=◌,
  nil_dereference, unsupported_key,
}
use protostate.Psm.Tables.{
  KeyColumn, KeyFormat, KeySchema, TableMap, no_format, custom, uuid, id62, other_format,
  string_schema, date_schema, other_schema, key_schema,
}
use protostate.Migrate.Build.{
  CreateTableBuilder, Table, create_table, add_column, add_foreign_key, add_pair, primary_key,
  not_null, build,
}

abbrev pub key_type : KeyFormat → String
key_type uuid = "uuid"
key_type id62 = "char(22)"
key_type custom = "text"
key_type no_format = "text"
key_type other_format = "text"

-- fieldFormat, on a pointer that may be nil
unfoldable pub field_format : Option KeySchema → Result String
field_format none = err nil_dereference
field_format (some string_schema) = ok "text"
field_format (some (key_schema none)) = ok "text"
field_format (some (key_schema (some f))) = ok (key_type f)
field_format (some date_schema) = ok "date"
field_format (some other_schema) = err unsupported_key

-- `spec.Event.ID.ColumnName` and its like
unfoldable pub column_name_of : Option String → Result String
column_name_of none = err nil_dereference
column_name_of (some name) = ok name

-- One round of the loop over the key columns; the third component is eventForeignKey.
unfoldable pub add_key_column :
    KeyColumn
    → String
    → CreateTableBuilder
    → CreateTableBuilder
    → ℕ
    → CreateTableBuilder × CreateTableBuilder
unfolding add_column add_pair
add_key_column key format state event fk =
    if key.primary
    then (
      add_column key.column_name format (primary_key ∷ []) state,
      add_pair fk key.column_name key.column_name
          (add_column key.column_name format (not_null ∷ []) event),
    )
    else if key.required
    then (
      add_column key.column_name format (not_null ∷ []) state,
      add_column key.column_name format (not_null ∷ []) event,
    )
    else (add_column key.column_name format [] state, add_column key.column_name format [] event)

unfoldable pub add_key_columns :
    List KeyColumn
    → CreateTableBuilder
    → CreateTableBuilder
    → ℕ
    → Result (CreateTableBuilder × CreateTableBuilder)
unfolding add_key_column field_format
add_key_columns [] state event fk = ok (state, event)
add_key_columns (key ∷ keys) state event fk = do
  format ← field_format key.schema
  let both = add_key_column key format state event fk
  add_key_columns keys both.0 both.1 fk

-- BuildPSMTables: the state table and the event table.
unfoldable pub build_psm_tables : TableMap → Result (Table × Table)
unfolding add_key_columns create_table add_column add_foreign_key column_name_of build
build_psm_tables spec = do
  id ← column_name_of spec.event_id
  let keyed =
      add_foreign_key "state" spec.state_table
        (add_column id "uuid" (primary_key ∷ []) (create_table spec.event_table))
  (state, event) ← add_key_columns spec.key_columns (create_table spec.state_table) keyed.1 keyed.0
  state_root ← column_name_of spec.state_root
  timestamp ← column_name_of spec.event_timestamp
  sequence ← column_name_of spec.event_sequence
  event_root ← column_name_of spec.event_root
  snapshot ← column_name_of spec.event_snapshot
  let full_event = add_column snapshot "jsonb" (not_null ∷ []) (
      add_column event_root "jsonb" (not_null ∷ []) (
        add_column sequence "int" (not_null ∷ [])
          (add_column timestamp "timestamptz" (not_null ∷ []) event)))
  ok (build (add_column state_root "jsonb" (not_null ∷ []) state), build full_event)
