-- ===== src/Migrate/Shape/Loop.antt =====
-- The loop of BuildPSMTables over the key columns.
use protostate.Common.{
  ℕ, String, ◌≡◌, refl, ap, ◌∙◌, true, false, List, [], ◌∷◌, ◌++◌, if◌then◌else◌, Bool-cases, inl,
  inr, ok, >>=-eq-ok, append_assoc, append-nil,
}
use protostate.Psm.Tables.{KeyColumn}
use protostate.Migrate.Build.{
  CreateTableBuilder, ForeignKeyBuilder, ColumnDef, ColumnPair, add_column, add_pair,
}
use protostate.Migrate.Tables.{field_format, add_key_column, add_key_columns}
use protostate.Migrate.Shape.{Formats, pairs_of}

abbrev pub state_def : KeyColumn → String → ColumnDef
state_def key f = record {
  name = key.column_name;
  primary_key = key.primary;
  not_null = if key.primary then false else key.required;
  type_name = f;
}

abbrev pub event_def : KeyColumn → String → ColumnDef
event_def key f = record {
  name = key.column_name;
  primary_key = false;
  not_null = if key.primary then true else key.required;
  type_name = f;
}

abbrev pub defs_of :
    (KeyColumn → String → ColumnDef) → List KeyColumn → List String → List ColumnDef
defs_of def [] fs = []
defs_of def (key ∷ keys) [] = []
defs_of def (key ∷ keys) (f ∷ fs) = def key f ∷ defs_of def keys fs

abbrev pub builder : String → List ColumnDef → List ForeignKeyBuilder → CreateTableBuilder
builder name columns keys = record { name = name; columns = columns; foreign_keys = keys }

abbrev pub to_state : String → String → List ColumnPair → ForeignKeyBuilder
to_state name table_name pairs = record { name = name; table_name = table_name; columns = pairs }

module _ (state_name event_name fk_name fk_table : String) where
  -- The two builders on the way.
  abbrev pub at_state : List ColumnDef → CreateTableBuilder
  at_state columns = builder state_name columns []

  abbrev pub at_event : List ColumnDef → List ColumnPair → CreateTableBuilder
  at_event columns pairs = builder event_name columns (to_state fk_name fk_table pairs ∷ [])

  add_key_column_lem :
      (key : KeyColumn) (f : String) (cs ds : List ColumnDef) (ps : List ColumnPair)
      → add_key_column key f (at_state cs) (at_event ds ps) 0 ≡ (
        at_state (cs ++ state_def key f ∷ []),
        at_event (ds ++ event_def key f ∷ []) (ps ++ pairs_of (key ∷ [])),
      )
  unfolding add_key_column add_column add_pair
  add_key_column_lem key f cs ds ps = elim (Bool-cases key.primary) [
    | inl p ↦ rw p refl
    | inr n ↦ elim (Bool-cases key.required) [
      | inl r ↦ rw (n, r) (rw (append-nil ps) refl)
      | inr r ↦ rw (n, r) (rw (append-nil ps) refl)
    ]
  ]

  -- What the loop over the key columns returns.
  abbrev pub keyed :
      List ColumnDef
      → List ColumnDef
      → List ColumnPair
      → List KeyColumn
      → List String
      → CreateTableBuilder × CreateTableBuilder
  keyed cs ds ps keys fs = (
    at_state (cs ++ defs_of state_def keys fs),
    at_event (ds ++ defs_of event_def keys fs) (ps ++ pairs_of keys),
  )

  pairs_of-cons :
      (key : KeyColumn) (keys : List KeyColumn)
      → pairs_of (key ∷ []) ++ pairs_of keys ≡ pairs_of (key ∷ keys)
  pairs_of-cons key keys = elim (Bool-cases key.primary) [ inl p ↦ rw p refl | inr n ↦ rw n refl ]

  keyed-cons :
      (key : KeyColumn) (f : String) (keys : List KeyColumn) (fs : List String)
      (cs ds : List ColumnDef) (ps : List ColumnPair)
      → keyed
          (cs ++ state_def key f ∷ [])
          (ds ++ event_def key f ∷ [])
          (ps ++ pairs_of (key ∷ []))
          keys
          fs
        ≡ keyed cs ds ps (key ∷ keys) (f ∷ fs)
  keyed-cons key f keys fs cs ds ps =
      rw (append_assoc cs (state_def key f ∷ []) (defs_of state_def keys fs)) (
        rw (append_assoc ds (event_def key f ∷ []) (defs_of event_def keys fs)) (
          rw (append_assoc ps (pairs_of (key ∷ [])) (pairs_of keys))
            (rw (pairs_of-cons key keys) refl)))

  pub add_key_columns_complete :
      (keys : List KeyColumn) (fs : List String) (cs ds : List ColumnDef) (ps : List ColumnPair)
      → Formats keys fs
      → add_key_columns keys (at_state cs) (at_event ds ps) 0 ≡ ok (keyed cs ds ps keys fs)
  unfolding add_key_columns
  add_key_columns_complete [] fs cs ds ps h =
      rw (append-nil cs) (rw (append-nil ds) (rw (append-nil ps) refl))
  add_key_columns_complete (key ∷ keys) [] cs ds ps h = elim h [ ]
  add_key_columns_complete (key ∷ keys) (f ∷ fs) cs ds ps (p, h) = rw p (
      rw (add_key_column_lem key f cs ds ps) (
        add_key_columns_complete keys fs (cs ++ state_def key f ∷ []) (ds ++ event_def key f ∷ [])
          (ps ++ pairs_of (key ∷ [])) h
        ∙ ap ok (keyed-cons key f keys fs cs ds ps)))

pub add_key_columns_sound :
    (keys : List KeyColumn) (state event : CreateTableBuilder) (fk : ℕ)
    {out : CreateTableBuilder × CreateTableBuilder}
    → add_key_columns keys state event fk ≡ ok out
    → (fs : List String) × Formats keys fs
unfolding add_key_columns
add_key_columns_sound [] state event fk q = ([], tt)
add_key_columns_sound (key ∷ keys) state event fk q =
    let (f, p, rest) = >>=-eq-ok (field_format key.schema) _ q in
    let (fs, h) = add_key_columns_sound keys _ _ fk rest in (f ∷ fs, (p, h))
