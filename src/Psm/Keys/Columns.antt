-- ===== src/Psm/Keys/Columns.antt =====
-- What keyValues reads from the raw key values, and what assertPresentKeysMatch accepts.
use protostate.Common.{
  String, ◌≡◌, ◌↔◌, refl, true, false, Option, none, some, List, [], ◌∷◌, All, any, ap, arith,
  lookup, without, lookup-without, without-absent, is_empty, str_eq, str_eq_iff, if◌then◌else◌,
  Result, ok, err, key_not_present, key_mismatch, primary_key_missing, unexpected_keys,
}
use protostate.Psm.Model.{Entity, Value, text, date, other, KeyMap}
use protostate.Psm.Host.{Host}
use protostate.Psm.Tables.{KeyColumn}
use protostate.Psm.Keys.{
  KeyValue, KeyValues, is_blank, same_value, match_keys, collect, key_values_of, names,
  assert_present_keys_match,
}

module _ {e : Entity} (h : Host e) where
  -- Two values of a key are the same: equal texts, dates that are equal by their Equals, and other
  -- values that are equal by ==; values of different types are not.
  abbrev pub IsSame : Value e → Value e → Type 0
  IsSame (text a) (text b) = a ≡ b
  IsSame (date a) (date b) = h.date_equal a b ≡ true
  IsSame (other a) (other b) = h.opaque_equal a b ≡ true
  IsSame _ _ = ⊥

  -- Every key of the event is in the existing key values, with the same value.
  abbrev pub Covers : KeyMap e → KeyMap e → Type 0
  Covers existing [] = Unit
  Covers existing ((k, v) ∷ rest) =
      ((x : Value e) × (lookup k existing ≡ some x) × IsSame x v) × Covers existing rest

  same_value-IsSame : (x v : Value e) → (same_value h x v ≡ true) ↔ IsSame x v
  same_value-IsSame (text a) (text b) = str_eq_iff a b
  same_value-IsSame (date a) (date b) = (λ p. p, λ p. p)
  same_value-IsSame (other a) (other b) = (λ p. p, λ p. p)
  same_value-IsSame (text a) (date b) = (λ p. absurd (ground arith), λ p. absurd p)
  same_value-IsSame (text a) (other b) = (λ p. absurd (ground arith), λ p. absurd p)
  same_value-IsSame (date a) (text b) = (λ p. absurd (ground arith), λ p. absurd p)
  same_value-IsSame (date a) (other b) = (λ p. absurd (ground arith), λ p. absurd p)
  same_value-IsSame (other a) (text b) = (λ p. absurd (ground arith), λ p. absurd p)
  same_value-IsSame (other a) (date b) = (λ p. absurd (ground arith), λ p. absurd p)

  present_key :
      (k : String) (v : Value e) (found : Option (Value e)) (after : Result (Unit {0}))
      → (elim found [
        | none ↦ err (key_not_present k)
        | some x ↦ if same_value h x v then after else err (key_mismatch k)
      ])
        ≡ ok tt
      → (x : Value e) × (found ≡ some x) × (same_value h x v ≡ true) × (after ≡ ok tt)
  present_key k v none after p = cc
  present_key k v (some x) after p = (x, refl, ground arith, ground arith)

  match_keys_sound :
      (existing event : KeyMap e) → match_keys h existing event ≡ ok tt → Covers existing event
  unfolding match_keys
  match_keys_sound existing [] p = tt
  match_keys_sound existing ((k, v) ∷ rest) p =
      let (x, found, same, later) =
        present_key k v (lookup k existing) (match_keys h existing rest) p in
      ((x, found, (same_value-IsSame x v).0 same), match_keys_sound existing rest later)

  match_keys_complete :
      (existing event : KeyMap e) → Covers existing event → match_keys h existing event ≡ ok tt
  unfolding match_keys
  match_keys_complete existing [] c = refl
  match_keys_complete existing ((k, v) ∷ rest) c =
      let (x, found, same) = c.0 in
      ground (arith, found, (same_value-IsSame x v).1 same, match_keys_complete existing rest c.1)

module _ {e : Entity} where
  -- The value that a column has in the raw values, if it is there and not blank.
  abbrev pub filled : KeyMap e → KeyColumn → Option (Value e)
  filled raw def = elim (lookup def.column_name raw) [
    | none ↦ none
    | some v ↦ if is_blank v then none else some v
  ]

  abbrev pub filled_values : List KeyColumn → KeyMap e → List (KeyValue e)
  filled_values [] raw = []
  filled_values (def ∷ defs) raw =
      let rest = filled_values defs raw in
      elim (filled raw def) [ none ↦ rest | some v ↦ record { value = v; column = def } ∷ rest ]

  abbrev pub unfilled_required : List KeyColumn → KeyMap e → List String
  unfilled_required [] raw = []
  unfilled_required (def ∷ defs) raw =
      let rest = unfilled_required defs raw in
      elim (filled raw def) [
        | none ↦ if def.required then def.column_name ∷ rest else rest
        | some v ↦ rest
      ]

  abbrev pub unfilled_primary : List KeyColumn → KeyMap e → Option String
  unfilled_primary [] raw = none
  unfilled_primary (def ∷ defs) raw =
      let rest = unfilled_primary defs raw in
      elim (filled raw def) [
        | none ↦ if def.primary then some def.column_name else rest
        | some v ↦ rest
      ]

  -- The raw values that no column is named for.
  abbrev pub unexpected : List KeyColumn → KeyMap e → KeyMap e
  unexpected defs [] = []
  unexpected defs ((k, v) ∷ raw) =
      let rest = unexpected defs raw in
      if any (λ def. str_eq k def.column_name) defs then rest else (k, v) ∷ rest

  unexpected-nil : (raw : KeyMap e) → unexpected [] raw ≡ raw
  unexpected-nil [] = refl
  unexpected-nil ((k, v) ∷ raw) = ap (λ m. (k, v) ∷ m) (unexpected-nil raw)

  unexpected-cons :
      (def : KeyColumn) (defs : List KeyColumn) (raw : KeyMap e)
      → unexpected defs (without def.column_name raw) ≡ unexpected (def ∷ defs) raw
  unfolding without
  unexpected-cons def defs [] = refl
  unexpected-cons def defs ((k, v) ∷ raw) = ground (arith, unexpected-cons def defs raw)

abbrev Differs : KeyColumn → KeyColumn → Type 0
Differs a b = str_eq a.column_name b.column_name ≡ false

abbrev pub IsDistinct : List KeyColumn → Type 0
IsDistinct [] = Unit
IsDistinct (def ∷ defs) = All (Differs def) defs × IsDistinct defs

module _ {e : Entity} (raw : KeyMap e) (gone : KeyColumn) where
  abbrev less : KeyMap e
  less = without gone.column_name raw

  filled-without : (def : KeyColumn) → Differs gone def → filled less def ≡ filled raw def
  filled-without def d = ground (arith, lookup-without gone.column_name def.column_name raw)

  values-without :
      (defs : List KeyColumn)
      → All (Differs gone) defs
      → filled_values defs less ≡ filled_values defs raw
  values-without [] a = refl
  values-without (def ∷ defs) a = ground (arith, filled-without def a.0, values-without defs a.1)

  required-without :
      (defs : List KeyColumn)
      → All (Differs gone) defs
      → unfilled_required defs less ≡ unfilled_required defs raw
  required-without [] a = refl
  required-without (def ∷ defs) a =
      ground (arith, filled-without def a.0, required-without defs a.1)

  primary-without :
      (defs : List KeyColumn)
      → All (Differs gone) defs
      → unfilled_primary defs less ≡ unfilled_primary defs raw
  primary-without [] a = refl
  primary-without (def ∷ defs) a = ground (arith, filled-without def a.0, primary-without defs a.1)

module _ {e : Entity} where
  -- What `collect` leaves and returns when no primary key is unfilled.
  abbrev collected : List KeyColumn → KeyMap e → KeyValues e × KeyMap e
  collected defs raw = (
    record { values = filled_values defs raw; missing_required = unfilled_required defs raw },
    unexpected defs raw,
  )

  collect_lem :
      (defs : List KeyColumn) (raw : KeyMap e)
      → IsDistinct defs
      → collect defs raw ≡ (elim (unfilled_primary defs raw) [
        | some name ↦ err (primary_key_missing name)
        | none ↦ ok (collected defs raw)
      ])
  unfolding collect
  collect_lem [] raw d = rw unexpected-nil
  collect_lem (def ∷ defs) raw d = ground (
    arith,
    collect_lem defs raw d.1,
    collect_lem defs (without def.column_name raw) d.1,
    values-without raw def defs d.0,
    required-without raw def defs d.0,
    primary-without raw def defs d.0,
    without-absent def.column_name raw,
    unexpected-cons def defs raw,
  )

  -- For columns of different names, keyValues fails on the first primary column whose value is absent
  -- or blank, then if a value was given that no column is named for. Else it returns the values that
  -- are there and not blank, in column order, and the names of the other columns that are required.
  pub key_values_of_lem :
      (defs : List KeyColumn) (raw : KeyMap e)
      → IsDistinct defs
      → key_values_of defs raw ≡ (elim (unfilled_primary defs raw) [
        | some name ↦ err (primary_key_missing name)
        | none ↦
            if is_empty (unexpected defs raw)
            then ok (record {
              values = filled_values defs raw;
              missing_required = unfilled_required defs raw;
            })
            else err (unexpected_keys (names (unexpected defs raw)))
      ])
  unfolding key_values_of
  key_values_of_lem defs raw d = ground (arith, collect_lem defs raw d)

-- If the key values of both can be read, the keys of an event are accepted for an entity exactly when
-- each key value of the event is also one of the entity, under the same name and with the same value:
-- an equal text, a date that is equal by Equals, or a value of the same other type that is equal by ==.
pub assert_present_keys_match_iff :
    {e : Entity} (h : Host e) (existing event : e.Keys) {a b : KeyMap e}
    → h.key_values existing ≡ ok a
    → h.key_values event ≡ ok b
    → (assert_present_keys_match h existing event ≡ ok tt) ↔ Covers h a b
unfolding assert_present_keys_match
assert_present_keys_match_iff h existing event {a} {b} p q =
    rw (p, q) (match_keys_sound h a b, match_keys_complete h a b)
