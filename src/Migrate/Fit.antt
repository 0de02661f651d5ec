-- ===== src/Migrate/Fit.antt =====
-- The rows that the state machine writes fit the tables that BuildPSMTables builds.
use mathlib.Core.List.{Memᴰ}
use mathlib.Core.Path.{subst}
use protostate.Common.{
  String, ◌≡◌, refl, sym, ap, ◌∙◌, none, List, [], ◌∷◌, ◌++◌, Bool-cases, ◌⊎◌, inl, inr,
  Option-cases, ok, Every, Every-cons, Every-append, mem-append_left, mem-append_right, arith,
}
use protostate.Psm.Model.{Entity, KeyMap, Event}
use protostate.Psm.Host.{Host, Row, json, Insert, upsert, insert}
use protostate.Psm.Tables.{KeyColumn}
use protostate.Psm.Tables.Validate.{as_map}
use protostate.Psm.Keys.{KeyValue, KeyValues, key_values_of, names}
use protostate.Psm.Keys.Columns.{
  filled_values, unfilled_required, unfilled_primary, IsDistinct, key_values_of_lem,
}
use protostate.Psm.Machine.{
  StateMachine, primary_cells, other_cells, key_columns, insert_query, upsert_query,
}
use protostate.Migrate.Build.{Table, Column}
use protostate.Migrate.Tables.{build_psm_tables}
use protostate.Migrate.Shape.{
  event_column, state_column, columns_of, state_table_of, event_table_of, not_null_column,
}
use protostate.Migrate.Shape.Built.{build_psm_tables_lem}
use protostate.Migrate.Required.{Given, keys-Given, event_flags, state_flags, primary_cells-filled}

module _ {e : Entity} where
  -- The columns that a row is written with.
  abbrev pub written : Insert e → List String
  written (upsert table keys sets) = names keys ++ names sets
  written (insert table columns cells) = columns

  -- The conflict target of an upsert.
  abbrev pub conflict_keys : Insert e → List String
  conflict_keys (upsert table keys sets) = names keys
  conflict_keys (insert table columns cells) = []

  -- Every column that refuses NULL, and every column of the primary key, is written.
  abbrev pub Fits : Insert e → Table → Type 0
  Fits i t = Every (Given (written i)) t.columns × Every (λ n. Memᴰ n (written i)) t.primary_key

  key_columns-split :
      (values : List (KeyValue e)) (n : String)
      → Memᴰ n (key_columns values)
      → (Memᴰ n (names (primary_cells values))) ⊎ (Memᴰ n (names (other_cells values)))
  key_columns-split [] n m = elim m [ ]
  key_columns-split (kv ∷ values) n m = elim (Bool-cases kv.column.primary) [
    | inl p ↦ rw p (first (key_columns-split values n) m)
    | inr o ↦ rw o (second (key_columns-split values n) m)
  ]
    where
      first :
          (Memᴰ n (key_columns values)
            → (Memᴰ n (names (primary_cells values))) ⊎ (Memᴰ n (names (other_cells values))))
          → Memᴰ n (kv.column.column_name ∷ key_columns values)
          → (Memᴰ n (kv.column.column_name ∷ names (primary_cells values)))
            ⊎ (Memᴰ n (names (other_cells values)))
      first later (Memᴰ.head q) = inl (Memᴰ.head q)
      first later (Memᴰ.tail m) = elim (later m) [ inl a ↦ inl (Memᴰ.tail a) | inr b ↦ inr b ]

      second :
          (Memᴰ n (key_columns values)
            → (Memᴰ n (names (primary_cells values))) ⊎ (Memᴰ n (names (other_cells values))))
          → Memᴰ n (kv.column.column_name ∷ key_columns values)
          → (Memᴰ n (names (primary_cells values)))
            ⊎ (Memᴰ n (kv.column.column_name ∷ names (other_cells values)))
      second later (Memᴰ.head q) = inr (Memᴰ.head q)
      second later (Memᴰ.tail m) = elim (later m) [ inl a ↦ inl a | inr b ↦ inr (Memᴰ.tail b) ]

names-append : {e : Entity} (a b : Row e) → names (a ++ b) ≡ names a ++ names b
names-append [] b = refl
names-append ((n, v) ∷ a) b = ap (λ ns. n ∷ ns) (names-append a b)

read-filled :
    {e : Entity} (defs : List KeyColumn) (raw : KeyMap e) (got : KeyValues e)
    → IsDistinct defs
    → key_values_of defs raw ≡ ok got
    → (unfilled_primary defs raw ≡ none)
      × (got.values ≡ filled_values defs raw)
      × (got.missing_required ≡ unfilled_required defs raw)
read-filled defs raw got distinct read = elim (Option-cases (unfilled_primary defs raw)) [
  | inl n ↦ (
    n,
    ground (arith, key_values_of_lem defs raw distinct, n, read),
    ground (arith, key_values_of_lem defs raw distinct, n, read),
  )
  | inr (name, s) ↦ absurd (ground (arith, key_values_of_lem defs raw distinct, s, read))
]

abbrev column_names : List Column → List String
column_names [] = []
column_names (c ∷ cs) = c.name ∷ column_names cs

own-Given : (cs : List Column) → Every (Given (column_names cs)) cs
own-Given [] c m = elim m [ ]
own-Given (d ∷ cs) c (Memᴰ.head q) = λ needed. Memᴰ.head (ap (λ x. x.name) q)
own-Given (d ∷ cs) c (Memᴰ.tail m) = λ needed. Memᴰ.tail (own-Given cs c m needed)

module _ {e : Entity} {h : Host e} (sm : StateMachine h) (raw : KeyMap e) (fs : List String)
    (primary : unfilled_primary sm.tables.key_columns raw ≡ none)
    (required : unfilled_required sm.tables.key_columns raw ≡ []) where
  insert-Fits :
      (event : Event e) (event_json state_json : e.Json)
      → Fits
          (insert_query sm (filled_values sm.tables.key_columns raw) event event_json state_json)
          (event_table_of sm.tables fs)
  unfolding insert_query
  insert-Fits event event_json state_json = (
    Every-cons (Given (sm.tables.event_id ∷ (key_columns values ++ column_names own)))
        (columns_of event_column sm.tables.key_columns fs ++ own) (λ needed. Memᴰ.head refl)
        (Every-append (Given (sm.tables.event_id ∷ (key_columns values ++ column_names own)))
          (columns_of event_column sm.tables.key_columns fs) own
          (λ c m needed. Memᴰ.tail (
            mem-append_left (key_columns values) (column_names own) (
              keys-Given raw event_column (λ key f. refl) (event_flags raw) sm.tables.key_columns fs
                primary required c m needed)))
          (λ c m needed.
            Memᴰ.tail (
              mem-append_right (key_columns values) (column_names own)
                (own-Given own c m needed)))),
    λ n m. in_front m,
  )
    where
      values : List (KeyValue e)
      values = filled_values sm.tables.key_columns raw

      own : List Column
      own =
          not_null_column sm.tables.event_timestamp "timestamptz"
          ∷ not_null_column sm.tables.event_sequence "int"
          ∷ not_null_column sm.tables.event_root "jsonb"
          ∷ not_null_column sm.tables.event_snapshot "jsonb"
          ∷ []

      in_front :
          {n : String} {ns : List String}
          → Memᴰ n (sm.tables.event_id ∷ [])
          → Memᴰ n (sm.tables.event_id ∷ ns)
      in_front (Memᴰ.head q) = Memᴰ.head q
      in_front (Memᴰ.tail m) = elim m [ ]

  upsert-Fits :
      (state_json : e.Json)
      → Fits
          (upsert_query sm (filled_values sm.tables.key_columns raw) state_json)
          (state_table_of sm.tables fs)
  unfolding upsert_query
  upsert-Fits state_json = rw (names-append (other_cells values) own_cells) (
    Every-append (Given all) (columns_of state_column sm.tables.key_columns fs) own
        (λ c m needed. place (
          key_columns-split values c.name (
            keys-Given raw state_column (λ key f. refl) (state_flags raw) sm.tables.key_columns fs
              primary required c m needed)))
        (λ c m needed. mem-append_right (names (primary_cells values)) _ (
          mem-append_right (names (other_cells values)) (sm.tables.state_root ∷ [])
            (own-Given own c m needed))),
    λ n m.
        mem-append_left (names (primary_cells values)) _ (
          subst (λ ns. Memᴰ n ns) (sym (primary_cells-filled raw sm.tables.key_columns primary)) m),
  )
    where
      values : List (KeyValue e)
      values = filled_values sm.tables.key_columns raw

      own : List Column
      own = not_null_column sm.tables.state_root "jsonb" ∷ []

      own_cells : Row e
      own_cells = (sm.tables.state_root, json state_json) ∷ []

      all : List String
      all =
          names (primary_cells values) ++ (names (other_cells values) ++ sm.tables.state_root ∷ [])

      place :
          {n : String}
          → (Memᴰ n (names (primary_cells values))) ⊎ (Memᴰ n (names (other_cells values)))
          → Memᴰ n all
      place (inl m) = mem-append_left (names (primary_cells values)) _ m
      place (inr m) =
          mem-append_right (names (primary_cells values)) _
            (mem-append_left (names (other_cells values)) _ m)

module _ {e : Entity} {h : Host e} (sm : StateMachine h) where
  -- When the key values of an entity are complete, the row that the state machine inserts for an event
  -- has a value for each column of the event table that refuses NULL or is in its primary key; the row
  -- that it upserts for the state has one for each such column of the state table, and conflicts on
  -- just the primary key of that table. The tables are those that BuildPSMTables builds of the machine's
  -- table map, whose key columns have different names.
  pub store-Fits :
      (raw : KeyMap e) (got : KeyValues e) (event : Event e) (event_json state_json : e.Json)
      {state_t event_t : Table}
      → IsDistinct sm.tables.key_columns
      → key_values_of sm.tables.key_columns raw ≡ ok got
      → got.missing_required ≡ []
      → build_psm_tables (as_map sm.tables) ≡ ok (state_t, event_t)
      → Fits (insert_query sm got.values event event_json state_json) event_t
        × Fits (upsert_query sm got.values state_json) state_t
        × (conflict_keys (upsert_query sm got.values state_json) ≡ state_t.primary_key)
  unfolding insert_query upsert_query
  store-Fits raw got event event_json state_json {state_t} {event_t} distinct read complete built =
      let (primary, values, missing) = read-filled sm.tables.key_columns raw got distinct read in
      let (fs, formats, state_lem, event_lem) =
        (build_psm_tables_lem sm.tables state_t event_t).0 built in
      let required = sym missing ∙ complete in
      rw values (
        rw (state_lem, event_lem)
          (
            insert-Fits sm raw fs primary required event event_json state_json,
            upsert-Fits sm raw fs primary required state_json,
            primary_cells-filled raw sm.tables.key_columns primary,
          ))
