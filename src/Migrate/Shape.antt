-- ===== src/Migrate/Shape.antt =====
-- What the tables of BuildPSMTables look like, for a table map in which every field is in place.
pub mod Loop
pub mod Built
use mathlib.Core.Path.{subst}
use protostate.Common.{
  ℕ, zero, String, ◌≡◌, refl, sym, ap, ◌↔◌, ◌∙◌, Bool, true, false, Option, none, some, List, [],
  ◌∷◌, ◌++◌, map, if◌then◌else◌, Bool-cases, inl, inr, Result, ok, err, ◌>>=◌, >>=-eq-ok,
  ok_injective, append_assoc, append-nil, arith,
}
use protostate.Psm.Tables.{KeyColumn, Tables}
use protostate.Psm.Tables.Validate.{as_map}
use protostate.Migrate.Build.{
  CreateTableBuilder, ForeignKeyBuilder, ColumnDef, ColumnPair, Column, Table, add_column, add_pair,
  add_foreign_key, create_table, build, primary_names, build_column,
}
use protostate.Migrate.Tables.{
  field_format, column_name_of, add_key_column, add_key_columns, build_psm_tables,
}

-- The format of each key column.
abbrev pub Formats : List KeyColumn → List String → Type 0
Formats [] [] = Unit
Formats [] (f ∷ fs) = ⊥
Formats (key ∷ keys) [] = ⊥
Formats (key ∷ keys) (f ∷ fs) = (field_format key.schema ≡ ok f) × Formats keys fs

-- A pair of equal names for each primary key.
abbrev pub pairs_of : List KeyColumn → List ColumnPair
pairs_of [] = []
pairs_of (key ∷ keys) =
    let rest = pairs_of keys in
    if key.primary
    then record { local = key.column_name; foreign = key.column_name } ∷ rest
    else rest

abbrev pub null_flags : Bool → List String
null_flags refused = if refused then "NOT NULL" ∷ [] else []

-- The column of a key in the state table, and in the event table.
abbrev pub state_column : KeyColumn → String → Column
state_column key f = record {
  name = key.column_name;
  type_name = f;
  flags = null_flags (if key.primary then false else key.required);
}

abbrev pub event_column : KeyColumn → String → Column
event_column key f = record {
  name = key.column_name;
  type_name = f;
  flags = null_flags (if key.primary then true else key.required);
}

abbrev pub columns_of : (KeyColumn → String → Column) → List KeyColumn → List String → List Column
columns_of column [] fs = []
columns_of column (key ∷ keys) [] = []
columns_of column (key ∷ keys) (f ∷ fs) = column key f ∷ columns_of column keys fs

abbrev pub primary_of : List KeyColumn → List String
primary_of [] = []
primary_of (key ∷ keys) =
    let rest = primary_of keys in if key.primary then key.column_name ∷ rest else rest

abbrev pub not_null_column : String → String → Column
not_null_column name typ = record { name = name; type_name = typ; flags = "NOT NULL" ∷ [] }

-- The state table has the key columns and the state; its primary key is the primary key columns.
abbrev pub state_table_of : Tables → List String → Table
state_table_of spec fs = record {
  name = spec.state_table;
  columns =
      columns_of state_column spec.key_columns fs ++ not_null_column spec.state_root "jsonb" ∷ [];
  primary_key = primary_of spec.key_columns;
  foreign_keys = [];
}

-- The event table has its id, the key columns and the fields of an event; its primary key is the id,
-- and the primary key columns refer to the same columns of the state table.
abbrev pub event_table_of : Tables → List String → Table
event_table_of spec fs = record {
  name = spec.event_table;
  columns =
      record { name = spec.event_id; type_name = "uuid"; flags = [] }
      ∷ (columns_of event_column spec.key_columns fs
          ++ (not_null_column spec.event_timestamp "timestamptz"
              ∷ not_null_column spec.event_sequence "int"
              ∷ not_null_column spec.event_root "jsonb"
              ∷ not_null_column spec.event_snapshot "jsonb"
              ∷ []));
  primary_key = spec.event_id ∷ [];
  foreign_keys =
      record { name = "state"; table_name = spec.state_table; columns = pairs_of spec.key_columns }
      ∷ [];
}
