-- ===== src/Pquery/Filter/Accepted.antt =====
-- What validateQueryRequestFilters lets through to buildDynamicFilter, in pquery/filter.go.
use protostate.Common.{
  String, true, Option, none, some, [], ◌∷◌, any, ◌≡◌, ◌≢◌, false, refl, ap, Bool-cases, inl, inr,
  if◌then◌else◌, Result, ok, err, >>=-eq-ok, arith, split_dots, not_filterable, nil_dereference,
}
use protostate.Proto.{Message, Field, Oneof, FieldConstraint, Filtering}
use protostate.Pgstore.Nodes.{NodePath}
use text.Mathlib.TextLemmas.{append_assoc}
use protostate.Pgstore.Print.{concat, json_path_query}
use protostate.Pgstore.Find.{new_json_path}
use protostate.Pquery.Filter.{
  Parsers, FieldType, no_type, value_type, range_type, field_filter, no_filters, one_filter,
}
use protostate.Pquery.Filter.Request.{
  Leaf, no_leaf, leaf_field, leaf_oneof, leaf_of, check_oneof_type, validate_oneof,
  check_field_type, validate_field, validate_leaf, validate_filter_field, validate_filters,
  oneof_filter_rules, filtering_of, says_filterable,
}
use protostate.Pquery.Filter.Query.{
  Condition, no_conditions, one_condition, single, expr, oneof_expr, nested_at, leaf_condition,
  field_condition, oneof_condition, name_condition, build_dynamic_filter,
}

module _ {V : Type 0} (parsers : Parsers V) (m : Message) (data_column table_alias : String) where
  -- An accepted filter on a oneof: the rules let it be filtered by, and the value is checked.
  validate_oneof-ok :
      (path : NodePath) (o : Oneof) (type : Option FieldType) {u : Unit {0}}
      → validate_oneof parsers path o type ≡ ok u
      → (g : Filtering) × (oneof_filter_rules path o ≡ ok (some (some g)))
        × (g.filterable ≡ true)
        × (check_oneof_type parsers o type ≡ ok u)
  unfolding validate_oneof
  validate_oneof-ok path o type {u} q =
      let (rules, p, rest) = >>=-eq-ok (oneof_filter_rules path o) _ q in by_rules rules p rest
    where
      by_rules :
          (rules : Option (Option Filtering))
          → oneof_filter_rules path o ≡ ok rules
          → (let out : Result (Unit {0}) = elim rules [
            | none ↦ err not_filterable
            | some filtering ↦ elim filtering [
              | none ↦ err nil_dereference
              | some f ↦
                  if f.filterable then check_oneof_type parsers o type else err not_filterable
            ]
          ] in
              out)
            ≡ ok u
          → (g : Filtering) × (oneof_filter_rules path o ≡ ok (some (some g)))
            × (g.filterable ≡ true)
            × (check_oneof_type parsers o type ≡ ok u)
      by_rules none p rest = absurd (ground arith)
      by_rules (some none) p rest = absurd (ground arith)
      by_rules (some (some g)) p rest = (g, p, ground arith, ground arith)

  condition_of-oneof :
      (path : NodePath) (o : Oneof) (type : Option FieldType) {u : Unit {0}}
      → check_oneof_type parsers o type ≡ ok u
      → (c : Condition) × (oneof_condition table_alias
            (nested_at parsers.to_title m data_column table_alias path)
            type
          ≡ ok c)
  unfolding check_oneof_type oneof_condition
  condition_of-oneof path o none q = absurd (ground arith)
  condition_of-oneof path o (some no_type) q = (_, refl)
  condition_of-oneof path o (some (value_type value)) q = (_, refl)
  condition_of-oneof path o (some (range_type min max)) q = absurd (ground arith)

  condition_of-field :
      (path : NodePath) (f : Field) (c : FieldConstraint) (type : Option FieldType) {u : Unit {0}}
      → check_field_type parsers f.kind c type ≡ ok u
      → (d : Condition) × (field_condition parsers.to_title table_alias
            (nested_at parsers.to_title m data_column table_alias path)
            f
            type
          ≡ ok d)
  unfolding check_field_type field_condition
  condition_of-field path f c none q = absurd (ground arith)
  condition_of-field path f c (some no_type) q = (_, refl)
  condition_of-field path f c (some (value_type value)) q = (_, refl)
  condition_of-field path f c (some (range_type min max)) q = (_, refl)

  condition_of-constraint :
      (path : NodePath) (f : Field) (x : Option FieldConstraint) (type : Option FieldType)
      {u : Unit {0}}
      → validate_field parsers f.kind x type ≡ ok u
      → (d : Condition) × (field_condition parsers.to_title table_alias
            (nested_at parsers.to_title m data_column table_alias path)
            f
            type
          ≡ ok d)
  unfolding validate_field
  condition_of-constraint path f none type q = absurd (ground arith)
  condition_of-constraint path f (some c) type {u} q =
      let (g, p, rest) = >>=-eq-ok (filtering_of f.kind c) _ q in
      elim (Bool-cases (says_filterable g)) [
        | inl yes_filterable ↦
            condition_of-field path f c type {u = u} (ground (arith, yes_filterable, rest))
        | inr not_so ↦ absurd (ground (arith, not_so, rest))
      ]

  condition_of-leaf :
      (path : NodePath) (leaf : Leaf) (type : Option FieldType) {u : Unit {0}}
      → validate_leaf parsers path leaf type ≡ ok u
      → (d : Condition) × (leaf_condition parsers.to_title m data_column table_alias path leaf type
          ≡ ok d)
  unfolding validate_leaf leaf_condition
  condition_of-leaf path no_leaf type q = absurd (ground arith)
  condition_of-leaf path (leaf_field f) type q =
      condition_of-constraint path f f.info.constraint type q
  condition_of-leaf path (leaf_oneof o) type q =
      let (g, rules, filterable, checked) = validate_oneof-ok path o type q in
      condition_of-oneof path o type checked

  -- A filter on a field name that validateQueryRequestFilterField accepts gives a condition:
  -- buildDynamicFilter neither fails nor panics on it.
  pub name_condition-ok :
      (name : String) (type : Option FieldType)
      → validate_filter_field parsers m name type ≡ ok tt
      → (d : Condition) × (name_condition parsers.to_title m data_column table_alias name type
          ≡ ok d)
  unfolding validate_filter_field name_condition
  name_condition-ok name type q =
      let (path, p, rest) = >>=-eq-ok (new_json_path m (split_dots name)) _ q in
      let (d, built) = condition_of-leaf path (leaf_of path) type rest in (d, rw p built)

  -- The SQL text of a filter on the oneof at a path, with the value as it is between the parentheses.
  abbrev pub exists_text : NodePath → String → String
  exists_text path value = concat (
      "jsonb_array_length("
      ∷ "jsonb_path_query_array("
      ∷ table_alias
      ∷ "."
      ∷ data_column
      ∷ ", '"
      ∷ json_path_query path
      ∷ " ?? (exists(@."
      ∷ value
      ∷ "))')) > 0"
      ∷ [])

  oneof_expr-text :
      (path : NodePath) (value : String)
      → oneof_expr table_alias (nested_at parsers.to_title m data_column table_alias path) value
        ≡ exists_text path value
  unfolding oneof_expr
  oneof_expr-text path value = simp append_assoc

  oneof_value-condition :
      (name value : String) (path : NodePath) (o : Oneof)
      → new_json_path m (split_dots name) ≡ ok path
      → leaf_of path ≡ leaf_oneof o
      → name_condition parsers.to_title m data_column table_alias name (some (value_type value))
        ≡ ok (single (expr (exists_text path value) []))
  unfolding name_condition leaf_condition oneof_condition
  oneof_value-condition name value path o p l =
      rw p (rw l (ap (λ t. ok (single (expr t []))) (oneof_expr-text path value)))

  accepted_oneof :
      (name : String) (type : Option FieldType) (path : NodePath) (o : Oneof)
      → new_json_path m (split_dots name) ≡ ok path
      → leaf_of path ≡ leaf_oneof o
      → validate_filter_field parsers m name type ≡ ok tt
      → validate_oneof parsers path o type ≡ ok tt
  unfolding validate_filter_field validate_leaf
  accepted_oneof name type path o p l q = rw l at (rw p at q)

  member_value :
      (o : Oneof) (value : String)
      → check_oneof_type parsers o (some (value_type value)) ≡ ok tt
      → any (λ member. parsers.equal_fold member value) o.members ≡ true
  unfolding check_oneof_type
  member_value o value q = ground arith

  -- If the only filter of a request is on a oneof and is accepted, then the rules on the oneof, or on the
  -- field of its wrapper, let it be filtered by, and the value that buildDynamicFilter writes into the
  -- SQL text is the name of a member of the oneof, but for case.
  pub validate_filters-oneof :
      (name value : String) (path : NodePath) (o : Oneof)
      → new_json_path m (split_dots name) ≡ ok path
      → leaf_of path ≡ leaf_oneof o
      → validate_filters parsers m
          (one_filter (field_filter name (some (value_type value))) no_filters)
        ≡ ok tt
      → ((g : Filtering) × (oneof_filter_rules path o ≡ ok (some (some g))) × (g.filterable ≡ true))
        × (any (λ member. parsers.equal_fold member value) o.members ≡ true)
        × (build_dynamic_filter parsers.to_title m data_column table_alias
              (one_filter (field_filter name (some (value_type value))) no_filters)
            ≡ ok (one_condition (single (expr (exists_text path value) [])) no_conditions))
  unfolding validate_filters build_dynamic_filter
  validate_filters-oneof name value path o p l q =
      let (g, rules, filterable, checked) =
        validate_oneof-ok path o (some (value_type value))
          (accepted_oneof name (some (value_type value)) path o p l q) in
      (
        (g, rules, filterable),
        member_value o value checked,
        rw (oneof_value-condition name value path o p l) refl,
      )

  -- Only the first filter of a request is checked. A filter on a oneof whose value names no member of it
  -- is refused as the only filter; behind an accepted filter on a field name it is accepted, and
  -- buildDynamicFilter writes its value, as it is, into the SQL text, where no argument takes its place.
  pub validate_filters-later :
      (first : String) (type : Option FieldType) (name value : String) (path : NodePath) (o : Oneof)
      → validate_filters parsers m (one_filter (field_filter first type) no_filters) ≡ ok tt
      → new_json_path m (split_dots name) ≡ ok path
      → leaf_of path ≡ leaf_oneof o
      → any (λ member. parsers.equal_fold member value) o.members ≡ false
      → (validate_filters parsers m
            (one_filter (field_filter name (some (value_type value))) no_filters)
          ≢ ok tt)
        × (validate_filters parsers m (
              one_filter
                (field_filter first type)
                (one_filter (field_filter name (some (value_type value))) no_filters))
            ≡ ok tt)
        × ((d : Condition) × (build_dynamic_filter parsers.to_title m data_column table_alias (
                one_filter
                  (field_filter first type)
                  (one_filter (field_filter name (some (value_type value))) no_filters))
              ≡ ok (
                  one_condition d
                    (one_condition (single (expr (exists_text path value) [])) no_conditions))))
  unfolding validate_filters build_dynamic_filter
  validate_filters-later first type name value path o q p l outside =
      let (d, built) = name_condition-ok first type q in
      let refused : validate_filters parsers m
            (one_filter (field_filter name (some (value_type value))) no_filters)
          ≢ ok tt =
        (λ alone.
          let (_, named, _) = validate_filters-oneof name value path o p l alone in
          absurd (ground (arith, named, outside))) in
      (refused, q, (d, rw built (rw (oneof_value-condition name value path o p l) refl)))
