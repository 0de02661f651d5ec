-- ===== src/Migrate/Required.antt =====
-- The key columns of a row that the state machine writes, when its key values are complete.
use mathlib.Core.List.{Memᴰ}
use mathlib.Core.Path.{subst}
use protostate.Common.{
  String, ◌≡◌, refl, sym, ap, ◌∙◌, Bool, true, false, none, some, List, [], ◌∷◌, inl, inr,
  Option-cases, Every, arith,
}
use protostate.Psm.Model.{Entity, Value, KeyMap}
use protostate.Psm.Tables.{KeyColumn}
use protostate.Psm.Keys.{names}
use protostate.Psm.Keys.Columns.{filled, filled_values, unfilled_required, unfilled_primary}
use protostate.Psm.Machine.{primary_cells, key_columns}
use protostate.Migrate.Build.{Column}
use protostate.Migrate.Shape.{event_column, state_column, columns_of, primary_of}

-- A column that a row has to have a value for.
abbrev pub IsNotNull : Column → Type 0
IsNotNull c = Memᴰ {A = String} "NOT NULL" c.flags

abbrev pub Given : List String → Column → Type 0
Given columns c = IsNotNull c → Memᴰ c.name columns

module _ {e : Entity} (raw : KeyMap e) where
  -- A column that is not filled is neither primary nor required.
  abbrev pub Optional : KeyColumn → Type 0
  Optional key = (key.primary ≡ false) × (key.required ≡ false)

  unfilled-Optional :
      (key : KeyColumn) (keys : List KeyColumn)
      → filled raw key ≡ none
      → unfilled_primary (key ∷ keys) raw ≡ none
      → unfilled_required (key ∷ keys) raw ≡ []
      → Optional key × (unfilled_primary keys raw ≡ none) × (unfilled_required keys raw ≡ [])
  unfilled-Optional key keys n p r = ((ground arith, ground arith), ground arith, ground arith)

  pub filled-rest :
      (key : KeyColumn) (keys : List KeyColumn) {v : Value e}
      → filled raw key ≡ some v
      → unfilled_primary (key ∷ keys) raw ≡ none
      → unfilled_required (key ∷ keys) raw ≡ []
      → (unfilled_primary keys raw ≡ none) × (unfilled_required keys raw ≡ [])
  filled-rest key keys s p r = (ground arith, ground arith)

  filled_values-none :
      (key : KeyColumn) (keys : List KeyColumn)
      → filled raw key ≡ none
      → filled_values (key ∷ keys) raw ≡ filled_values keys raw
  filled_values-none key keys n = ground arith

  filled_values-some :
      (key : KeyColumn) (keys : List KeyColumn) {v : Value e}
      → filled raw key ≡ some v
      → filled_values (key ∷ keys) raw ≡ record { value = v; column = key } ∷ filled_values keys raw
  filled_values-some key keys s = ground arith

  -- How a key stands in a table: under its name, and refusing NULL only if it is primary or required.
  module _ (column : KeyColumn → String → Column)
      (name_lem : (key : KeyColumn) (f : String) → (column key f).name ≡ key.column_name)
      (flags_lem : (key : KeyColumn) (f : String) → Optional key → (column key f).flags ≡ []) where
    pub keys-Given :
        (keys : List KeyColumn) (fs : List String)
        → unfilled_primary keys raw ≡ none
        → unfilled_required keys raw ≡ []
        → Every (Given (key_columns (filled_values keys raw))) (columns_of column keys fs)
    keys-Given [] fs p r c m = elim m [ ]
    keys-Given (key ∷ keys) [] p r c m = elim m [ ]
    keys-Given (key ∷ keys) (f ∷ fs) p r c m = elim (Option-cases (filled raw key)) [
      | inl n ↦
          let (o, p', r') = unfilled-Optional key keys n p r in
          subst (λ vs. Given (key_columns vs) c) (sym (filled_values-none key keys n))
            (without_value o (keys-Given keys fs p' r') m)
      | inr (v, s) ↦
          let (p', r') = filled-rest key keys s p r in
          subst (λ vs. Given (key_columns vs) c) (sym (filled_values-some key keys s))
            (with_value (keys-Given keys fs p' r') m)
    ]
      where
        without_value :
            Optional key
            → Every (Given (key_columns (filled_values keys raw))) (columns_of column keys fs)
            → Memᴰ c (column key f ∷ columns_of column keys fs)
            → Given (key_columns (filled_values keys raw)) c
        without_value o later (Memᴰ.tail m) = later c m
        without_value o later (Memᴰ.head q) = λ needed. absurd (
            none_in (
              subst (λ flags. Memᴰ {A = String} "NOT NULL" flags)
                (ap (λ d. d.flags) q ∙ flags_lem key f o) needed))
          where
            none_in : Memᴰ {A = String} "NOT NULL" [] → ⊥
            none_in m = elim m [ ]

        with_value :
            Every (Given (key_columns (filled_values keys raw))) (columns_of column keys fs)
            → Memᴰ c (column key f ∷ columns_of column keys fs)
            → Given (key.column_name ∷ key_columns (filled_values keys raw)) c
        with_value later (Memᴰ.tail m) = λ needed. Memᴰ.tail (later c m needed)
        with_value later (Memᴰ.head q) = λ needed. Memᴰ.head (ap (λ d. d.name) q ∙ name_lem key f)

  pub event_flags : (key : KeyColumn) (f : String) → Optional key → (event_column key f).flags ≡ []
  event_flags key f (a, b) = rw (a, b) refl

  pub state_flags : (key : KeyColumn) (f : String) → Optional key → (state_column key f).flags ≡ []
  state_flags key f (a, b) = rw (a, b) refl

  pub primary_cells-filled :
      (keys : List KeyColumn)
      → unfilled_primary keys raw ≡ none
      → names (primary_cells (filled_values keys raw)) ≡ primary_of keys
  primary_cells-filled [] p = refl
  primary_cells-filled (key ∷ keys) p = elim (Option-cases (filled raw key)) [
    | inl n ↦
        let (optional, later) = unfilled_primary-none key keys n p in
        ap (λ vs. names (primary_cells vs)) (filled_values-none key keys n)
        ∙ (primary_cells-filled keys later ∙ sym (not_primary optional))
    | inr (v, s) ↦
        let later : unfilled_primary keys raw ≡ none = ground arith in
        ap (λ vs. names (primary_cells vs)) (filled_values-some key keys s)
        ∙ by_primary v key.primary refl (primary_cells-filled keys later)
  ]
    where
      unfilled_primary-none :
          (key : KeyColumn) (keys : List KeyColumn)
          → filled raw key ≡ none
          → unfilled_primary (key ∷ keys) raw ≡ none
          → (key.primary ≡ false) × (unfilled_primary keys raw ≡ none)
      unfilled_primary-none key keys n p = (ground arith, ground arith)

      not_primary : key.primary ≡ false → primary_of (key ∷ keys) ≡ primary_of keys
      not_primary q = rw q refl

      by_primary :
          (v : Value e) (b : Bool)
          → key.primary ≡ b
          → names (primary_cells (filled_values keys raw)) ≡ primary_of keys
          → names (primary_cells (record { value = v; column = key } ∷ filled_values keys raw))
            ≡ primary_of (key ∷ keys)
      by_primary v true q ih = rw q (ap (λ ns. key.column_name ∷ ns) ih)
      by_primary v false q ih = rw q ih
