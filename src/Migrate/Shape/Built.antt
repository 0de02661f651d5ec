-- ===== src/Migrate/Shape/Built.antt =====
-- The tables that BuildPSMTables builds.
use protostate.Common.{
  String, ◌≡◌, refl, sym, ap, ◌↔◌, ◌∙◌, true, false, List, [], ◌∷◌, ◌++◌, map, Bool-cases, inl, inr,
  ok, >>=-eq-ok, ok_injective, append-nil,
}
use protostate.Psm.Tables.{KeyColumn, Tables}
use protostate.Psm.Tables.Validate.{as_map}
use protostate.Migrate.Build.{ColumnDef, Table, add_column, build, primary_names, build_column}
use protostate.Migrate.Tables.{column_name_of, add_key_columns, build_psm_tables}
use protostate.Migrate.Shape.{
  Formats, state_column, event_column, columns_of, primary_of, state_table_of, event_table_of,
}
use protostate.Migrate.Shape.Loop.{
  state_def, event_def, defs_of, add_key_columns_complete, add_key_columns_sound,
}

map-append :
    (ds es : List ColumnDef)
    → map build_column (ds ++ es) ≡ map build_column ds ++ map build_column es
map-append [] es = refl
map-append (d ∷ ds) es = ap (λ cs. build_column d ∷ cs) (map-append ds es)

primary_names-append :
    (ds es : List ColumnDef) → primary_names (ds ++ es) ≡ primary_names ds ++ primary_names es
primary_names-append [] es = refl
primary_names-append (d ∷ ds) es = elim (Bool-cases d.primary_key) [
  | inl p ↦ rw p (ap (λ ns. d.name ∷ ns) (primary_names-append ds es))
  | inr n ↦ rw n (primary_names-append ds es)
]

state_columns_lem :
    (keys : List KeyColumn) (fs : List String)
    → map build_column (defs_of state_def keys fs) ≡ columns_of state_column keys fs
state_columns_lem [] fs = refl
state_columns_lem (key ∷ keys) [] = refl
state_columns_lem (key ∷ keys) (f ∷ fs) =
    ap (λ cs. state_column key f ∷ cs) (state_columns_lem keys fs)

event_columns_lem :
    (keys : List KeyColumn) (fs : List String)
    → map build_column (defs_of event_def keys fs) ≡ columns_of event_column keys fs
event_columns_lem [] fs = refl
event_columns_lem (key ∷ keys) [] = refl
event_columns_lem (key ∷ keys) (f ∷ fs) =
    ap (λ cs. event_column key f ∷ cs) (event_columns_lem keys fs)

state_primary_lem :
    (keys : List KeyColumn) (fs : List String)
    → Formats keys fs
    → primary_names (defs_of state_def keys fs) ≡ primary_of keys
state_primary_lem [] fs h = refl
state_primary_lem (key ∷ keys) [] h = elim h [ ]
state_primary_lem (key ∷ keys) (f ∷ fs) (p, h) = elim (Bool-cases key.primary) [
  | inl p ↦ rw p (ap (λ ns. key.column_name ∷ ns) (state_primary_lem keys fs h))
  | inr n ↦ rw n (state_primary_lem keys fs h)
]

event_primary_lem :
    (keys : List KeyColumn) (fs : List String) → primary_names (defs_of event_def keys fs) ≡ []
event_primary_lem [] fs = refl
event_primary_lem (key ∷ keys) [] = refl
event_primary_lem (key ∷ keys) (f ∷ fs) = event_primary_lem keys fs

append-four :
    (ds : List ColumnDef) (a b c d : ColumnDef)
    → (((ds ++ a ∷ []) ++ b ∷ []) ++ c ∷ []) ++ d ∷ [] ≡ ds ++ (a ∷ b ∷ c ∷ d ∷ [])
append-four [] a b c d = refl
append-four (x ∷ ds) a b c d = ap (λ es. x ∷ es) (append-four ds a b c d)

module _ (keys : List KeyColumn) (fs : List String) (h : Formats keys fs) where
  state_columns-last :
      (d : ColumnDef)
      → map build_column (defs_of state_def keys fs ++ d ∷ [])
        ≡ columns_of state_column keys fs ++ build_column d ∷ []
  state_columns-last d =
      map-append (defs_of state_def keys fs) (d ∷ [])
      ∙ ap (λ cs. cs ++ build_column d ∷ []) (state_columns_lem keys fs)

  state_primary-last :
      (d : ColumnDef)
      → d.primary_key ≡ false
      → primary_names (defs_of state_def keys fs ++ d ∷ []) ≡ primary_of keys
  state_primary-last d n =
      primary_names-append (defs_of state_def keys fs) (d ∷ [])
      ∙ (rw n (append-nil (primary_names (defs_of state_def keys fs)))
          ∙ state_primary_lem keys fs h)

  event_columns-last :
      (a b c d : ColumnDef)
      → map build_column ((((defs_of event_def keys fs ++ a ∷ []) ++ b ∷ []) ++ c ∷ []) ++ d ∷ [])
        ≡ columns_of event_column keys fs ++ map build_column (a ∷ b ∷ c ∷ d ∷ [])
  event_columns-last a b c d =
      ap (λ ds. map build_column ds) (append-four (defs_of event_def keys fs) a b c d)
      ∙ (map-append (defs_of event_def keys fs) (a ∷ b ∷ c ∷ d ∷ [])
          ∙ ap (λ cs. cs ++ map build_column (a ∷ b ∷ c ∷ d ∷ [])) (event_columns_lem keys fs))

  event_primary-last :
      (a b c d : ColumnDef)
      → primary_names (a ∷ b ∷ c ∷ d ∷ []) ≡ []
      → primary_names ((((defs_of event_def keys fs ++ a ∷ []) ++ b ∷ []) ++ c ∷ []) ++ d ∷ []) ≡ []
  event_primary-last a b c d n =
      ap (λ ds. primary_names ds) (append-four (defs_of event_def keys fs) a b c d)
      ∙ (primary_names-append (defs_of event_def keys fs) (a ∷ b ∷ c ∷ d ∷ [])
          ∙ rw (n, event_primary_lem keys fs) refl)

build_psm_tables_complete :
    (spec : Tables) (fs : List String)
    → Formats spec.key_columns fs
    → build_psm_tables (as_map spec) ≡ ok (state_table_of spec fs, event_table_of spec fs)
unfolding build_psm_tables build add_column column_name_of
build_psm_tables_complete spec fs h =
    rw
      (add_key_columns_complete spec.state_table spec.event_table "state" spec.state_table
        spec.key_columns fs []
        (record { name = spec.event_id; primary_key = true; not_null = false; type_name = "uuid" }
          ∷ [])
        [] h)
      (λ i. ok (
        record (state_table_of spec fs) {
          columns = state_columns-last spec.key_columns fs h (jsonb spec.state_root) i;
          primary_key = state_primary-last spec.key_columns fs h (jsonb spec.state_root) refl i;
        },
        record (event_table_of spec fs) {
          columns =
              record { name = spec.event_id; type_name = "uuid"; flags = [] }
              ∷ event_columns-last spec.key_columns fs h (typed spec.event_timestamp "timestamptz")
                  (typed spec.event_sequence "int") (jsonb spec.event_root)
                  (jsonb spec.event_snapshot) i;
          primary_key =
              spec.event_id
              ∷ event_primary-last spec.key_columns fs h (typed spec.event_timestamp "timestamptz")
                  (typed spec.event_sequence "int") (jsonb spec.event_root)
                  (jsonb spec.event_snapshot) refl i;
        },
      ))
  where
    typed : String → String → ColumnDef
    typed name typ = record { name = name; primary_key = false; not_null = true; type_name = typ }

    jsonb : String → ColumnDef
    jsonb name = typed name "jsonb"

-- BuildPSMTables, on a table map in which every field is in place, succeeds exactly when every key
-- column has a schema of a supported type, and returns then the tables that are described above.
pub build_psm_tables_lem :
    (spec : Tables) (state event : Table)
    → (build_psm_tables (as_map spec) ≡ ok (state, event)) ↔ (
        (fs : List String) × Formats spec.key_columns fs
        × (state ≡ state_table_of spec fs)
        × (event ≡ event_table_of spec fs))
unfolding build_psm_tables column_name_of
build_psm_tables_lem spec state event = (there, back)
  where
    there :
        build_psm_tables (as_map spec) ≡ ok (state, event)
        → (fs : List String) × Formats spec.key_columns fs
          × (state ≡ state_table_of spec fs)
          × (event ≡ event_table_of spec fs)
    there q =
        let (both, keyed, rest) = >>=-eq-ok (add_key_columns spec.key_columns _ _ _) _ q in
        let (fs, h) = add_key_columns_sound spec.key_columns _ _ _ keyed in
        let same = ok_injective (sym q ∙ build_psm_tables_complete spec fs h) in
        (fs, h, ap (λ p. p.0) same, ap (λ p. p.1) same)

    back :
        ((fs : List String) × Formats spec.key_columns fs
          × (state ≡ state_table_of spec fs)
          × (event ≡ event_table_of spec fs))
        → build_psm_tables (as_map spec) ≡ ok (state, event)
    back (fs, h, p, q) = rw (p, q) (build_psm_tables_complete spec fs h)
