-- ===== src/Pquery/Sort/Direction.antt =====
-- What buildDynamicSortSpec of pquery/sort.go returns.
use mathlib.Core.Path.{subst}
use protostate.Common.{
  String, Bool, true, false, Option, none, some, List, [], ◌∷◌, ◌≡◌, refl, sym, ◌↔◌, Bool-cases,
  inl, inr, ok, split_dots, All, >>=-eq-ok, ok_injective, arith,
}
use protostate.Proto.{Message}
use protostate.Pgstore.Nodes.{NodePath}
use protostate.Pgstore.Find.{new_json_path}
use protostate.Pquery.Sort.{
  Sort, SortSpec, next_direction, dynamic_sorts_from, build_dynamic_sort_spec,
}

-- All of the requested sorts have one direction.
abbrev pub IsOneWay : List Sort → Type 0
IsOneWay sorts = (d : Bool) × All (λ (s : Sort). s.descending ≡ d) sorts

-- The sorts agree with the direction so far.
abbrev pub Agrees : Option Bool → List Sort → Type 0
Agrees none sorts = IsOneWay sorts
Agrees (some d) sorts = All (λ (s : Sort). s.descending ≡ d) sorts

Agrees-nil : (direction : Option Bool) → Agrees direction []
Agrees-nil none = (true, tt)
Agrees-nil (some d) = tt

Agrees-next :
    (direction : Option Bool) (sort : Sort) (sorts : List Sort)
    → Agrees direction (sort ∷ sorts)
    → (next : Option Bool) × (next_direction direction sort.descending ≡ ok next)
      × Agrees next sorts
unfolding next_direction
Agrees-next none sort sorts (d, (q, a)) =
    (some sort.descending, refl, subst (λ b. All (λ (s : Sort). s.descending ≡ b) sorts) (sym q) a)
Agrees-next (some true) sort sorts (q, a) = (some true, ground arith, a)
Agrees-next (some false) sort sorts (q, a) = (some false, ground arith, a)

next_direction-Agrees :
    (direction next : Option Bool) (sort : Sort) (sorts : List Sort)
    → next_direction direction sort.descending ≡ ok next
    → Agrees next sorts
    → Agrees direction (sort ∷ sorts)
unfolding next_direction
next_direction-Agrees none next sort sorts moved a =
    (sort.descending, (refl, subst (λ n. Agrees n sorts) (sym (ok_injective moved)) a))
next_direction-Agrees (some true) next sort sorts moved a = elim (Bool-cases sort.descending) [
  | inl e ↦ let kept : next ≡ some true = ground arith in (e, subst (λ n. Agrees n sorts) kept a)
  | inr e ↦ absurd (ground arith)
]
next_direction-Agrees (some false) next sort sorts moved a = elim (Bool-cases sort.descending) [
  | inl e ↦ absurd (ground arith)
  | inr e ↦ let kept : next ≡ some false = ground arith in (e, subst (λ n. Agrees n sorts) kept a)
]

module _ (array_message : Message) (data_column : String) where
  -- A spec for each of the sorts, of the path that its name has.
  abbrev pub AreSpecs : List Sort → List SortSpec → Type 0
  AreSpecs [] [] = Unit
  AreSpecs [] (p ∷ ps) = ⊥
  AreSpecs (s ∷ ss) [] = ⊥
  AreSpecs (s ∷ ss) (p ∷ ps) =
      (path : NodePath) × (new_json_path array_message (split_dots s.field) ≡ ok path)
      × (p ≡ record {
        field = record { root_column = data_column; path = path; value_column = none };
        desc = s.descending;
      })
      × AreSpecs ss ps

  dynamic_sorts_from_complete :
      (direction : Option Bool) (sorts : List Sort) (specs : List SortSpec)
      → AreSpecs sorts specs
      → Agrees direction sorts
      → dynamic_sorts_from array_message data_column direction sorts ≡ ok specs
  unfolding dynamic_sorts_from
  dynamic_sorts_from_complete direction [] [] h a = refl
  dynamic_sorts_from_complete direction [] (p ∷ ps) h a = elim h [ ]
  dynamic_sorts_from_complete direction (s ∷ ss) [] h a = elim h [ ]
  dynamic_sorts_from_complete direction (s ∷ ss) (p ∷ ps) (path, at_path, same, h) a =
      let (next, moved, b) = Agrees-next direction s ss a in
      rw at_path (rw moved (rw (dynamic_sorts_from_complete next ss ps h b) (rw same refl)))

  dynamic_sorts_from_sound :
      (direction : Option Bool) (sorts : List Sort) (specs : List SortSpec)
      → dynamic_sorts_from array_message data_column direction sorts ≡ ok specs
      → AreSpecs sorts specs × Agrees direction sorts
  unfolding dynamic_sorts_from
  dynamic_sorts_from_sound direction [] specs q =
      subst (λ ps. AreSpecs [] ps × Agrees direction []) (ok_injective q) (tt, Agrees-nil direction)
  dynamic_sorts_from_sound direction (s ∷ ss) specs q =
      let (path, at_path, q1) = >>=-eq-ok (new_json_path array_message (split_dots s.field)) _ q in
      let (next, moved, q2) = >>=-eq-ok (next_direction direction s.descending) _ q1 in
      let (rest, tail, q3) =
        >>=-eq-ok (dynamic_sorts_from array_message data_column next ss) _ q2 in
      let (h, a) = dynamic_sorts_from_sound next ss rest tail in
      (
        subst (AreSpecs (s ∷ ss)) (ok_injective q3) (path, at_path, refl, h),
        next_direction-Agrees direction next s ss moved a,
      )

  -- buildDynamicSortSpec returns without an error exactly when every requested sort names a path of
  -- the message and all of them have the same direction; what it returns is then one spec for each
  -- sort, in the order of the request, with that path, the data column and that direction.
  pub build_dynamic_sort_spec_lem :
      (sorts : List Sort) (specs : List SortSpec)
      → (build_dynamic_sort_spec array_message data_column sorts ≡ ok specs)
        ↔ (AreSpecs sorts specs × IsOneWay sorts)
  unfolding build_dynamic_sort_spec
  build_dynamic_sort_spec_lem sorts specs = (
    dynamic_sorts_from_sound none sorts specs,
    λ h. dynamic_sorts_from_complete none sorts specs h.0 h.1,
  )
