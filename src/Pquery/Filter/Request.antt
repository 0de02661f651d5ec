-- ===== src/Pquery/Filter/Request.antt =====
-- Validating the requested filters: validateQueryRequestFilters and validateQueryRequestFilterField of
-- pquery/filter.go, with LeafOneofWrapper of internal/pgstore/path.go.
use protostate.Common.{
  String, Bool, false, Option, none, some, List, [], ◌∷◌, any, str_eq, if◌then◌else◌, Result, ok,
  err, ◌>>=◌, guard, split_dots, nil_dereference, index_out_of_range, not_filterable,
  not_in_oneof_values, oneof_range, unknown_leaf,
}
use protostate.Proto.{
  Message, Field, Oneof, FieldConstraint, oneof_rules, string_rules, date_text, foreign_key,
  unique_string, id62, uuid_key, Filtering, bool_rules, enum_rules, Kind, scalar_kind, message_kind,
  number_kind, bool_kind, string_kind, bytes_kind, enum_kind, info_of, get_number, get_timestamp,
}
use protostate.Pgstore.Nodes.{in_field, in_oneof, PathNode, NodePath}
use protostate.Pgstore.Find.{new_json_path}
use protostate.Pquery.Filter.{
  Parsers, FieldType, no_type, value_type, range_type, Filter, Filters, untyped, field_filter,
  and_filter, or_filter, no_filters, one_filter,
}
use protostate.Pquery.Filter.Value.{validate_filter_field_value}

-- Leaf(); `no_leaf` is a nil descriptor
pub data Leaf : Type 0 where
  no_leaf : Leaf
  leaf_field : Field → Leaf
  leaf_oneof : Oneof → Leaf

unfoldable pub leaf_of : NodePath → Leaf
leaf_of p = elim p.leaf_field [
  | some f ↦ leaf_field f
  | none ↦ elim p.leaf_oneof [ none ↦ no_leaf | some o ↦ leaf_oneof o ]
]

-- `path[len(path)-2].field`
unfoldable pub before_last : List PathNode → Result (Option Field)
before_last [] = err index_out_of_range
before_last (n ∷ []) = err index_out_of_range
before_last (n ∷ m ∷ []) = elim n.step [ in_field f ↦ ok (some f) | in_oneof o ↦ ok none ]
before_last (n ∷ m ∷ k ∷ ns) = before_last (m ∷ k ∷ ns)

unfoldable pub leaf_oneof_wrapper : NodePath → Result (Option Field)
unfolding before_last
leaf_oneof_wrapper p = elim p.leaf_oneof [
  | none ↦ ok none
  | some o ↦ if o.in_wrapper then before_last p.path else ok none
]

-- The rules on the field that holds the wrapper: only those that have a Filtering are taken.
abbrev pub wrapper_rules : Option Field → Option (Option Filtering)
wrapper_rules none = none
wrapper_rules (some f) = elim f.info.constraint [
  | none ↦ none
  | some c ↦ elim c [ oneof_rules g ↦ (elim g [ none ↦ none | some h ↦ some (some h) ]) | _ ↦ none ]
]

unfoldable pub oneof_filter_rules : NodePath → Oneof → Result (Option (Option Filtering))
unfolding leaf_oneof_wrapper
oneof_filter_rules p o = elim o.rules [
  | some r ↦ ok (some r)
  | none ↦ do wrapper ← leaf_oneof_wrapper p; ok (wrapper_rules wrapper)
]

-- The switch that sets `filterable` for a field: what it reads as the field's Filtering. It dereferences
-- nil where the constraint has rules of another type.
unfoldable pub filtering_of : Kind → FieldConstraint → Result (Option Filtering)
filtering_of (scalar_kind (number_kind t)) c = elim (get_number t c) [
  | none ↦ err nil_dereference
  | some r ↦ ok r.filtering
]
filtering_of (scalar_kind bool_kind) c = elim c [ bool_rules f ↦ ok f | _ ↦ err nil_dereference ]
filtering_of (scalar_kind (enum_kind first others)) c = elim c [
  | enum_rules f ↦ ok f
  | _ ↦ err nil_dereference
]
filtering_of (scalar_kind string_kind) c = elim c [
  | string_rules k ↦ elim k [
    | date_text f ↦ ok f
    | foreign_key j ↦ elim j [
      | unique_string f ↦ ok f
      | id62 f ↦ ok f
      | uuid_key f ↦ ok f
      | _ ↦ ok none
    ]
    | _ ↦ ok none
  ]
  | _ ↦ err nil_dereference
]
filtering_of (scalar_kind bytes_kind) c = ok none
filtering_of (message_kind flat m) c =
    if str_eq (info_of m).full_name "google.protobuf.Timestamp"
    then elim (get_timestamp c) [ none ↦ err nil_dereference | some r ↦ ok r.filtering ]
    else ok none

abbrev pub says_filterable : Option Filtering → Bool
says_filterable none = false
says_filterable (some f) = f.filterable

module _ {V : Type 0} (parsers : Parsers V) where
  -- `filterField.Type.Type`, on a Type that may be nil
  unfoldable pub check_oneof_type : Oneof → Option FieldType → Result (Unit {0})
  check_oneof_type o none = err nil_dereference
  check_oneof_type o (some no_type) = ok tt
  check_oneof_type o (some (value_type value)) =
      guard (any (λ name. parsers.equal_fold name value) o.members) not_in_oneof_values
  check_oneof_type o (some (range_type min max)) = err oneof_range

  unfoldable pub validate_oneof : NodePath → Oneof → Option FieldType → Result (Unit {0})
  unfolding oneof_filter_rules check_oneof_type
  validate_oneof p o type = do
    rules ← oneof_filter_rules p o
    elim rules [
      | none ↦ err not_filterable
      | some filtering ↦ elim filtering [
        | none ↦ err nil_dereference
        | some f ↦ if f.filterable then check_oneof_type o type else err not_filterable
      ]
    ]

  unfoldable pub check_field_type : Kind → FieldConstraint → Option FieldType → Result (Unit {0})
  unfolding validate_filter_field_value
  check_field_type k c none = err nil_dereference
  check_field_type k c (some no_type) = ok tt
  check_field_type k c (some (value_type value)) = validate_filter_field_value parsers k c value
  check_field_type k c (some (range_type min max)) = do
    _ ← validate_filter_field_value parsers k c min
    validate_filter_field_value parsers k c max

  unfoldable pub validate_field :
      Kind → Option FieldConstraint → Option FieldType → Result (Unit {0})
  unfolding filtering_of check_field_type
  validate_field k none type = err not_filterable
  validate_field k (some c) type = do
    filtering ← filtering_of k c
    if says_filterable filtering then check_field_type k c type else err not_filterable

  unfoldable pub validate_leaf : NodePath → Leaf → Option FieldType → Result (Unit {0})
  unfolding validate_field validate_oneof
  validate_leaf p no_leaf type = err unknown_leaf
  validate_leaf p (leaf_field f) type = validate_field f.kind f.info.constraint type
  validate_leaf p (leaf_oneof o) type = validate_oneof p o type

  -- validateQueryRequestFilterField
  unfoldable pub validate_filter_field : Message → String → Option FieldType → Result (Unit {0})
  unfolding validate_leaf leaf_of
  validate_filter_field m name type = do
    spec ← new_json_path m (split_dots name)
    validate_leaf spec (leaf_of spec) type

  -- validateQueryRequestFilters: it returns from the first round in which the filter has a type.
  unfoldable mutual
    unfolding validate_filter_field

    pub validate_filters : Message → Filters → Result (Unit {0})
    validate_filters m no_filters = ok tt
    validate_filters m (one_filter f fs) = validate_from m f (validate_filters m fs)

    pub validate_from : Message → Filter → Result (Unit {0}) → Result (Unit {0})
    validate_from m untyped later = later
    validate_from m (field_filter name type) later = validate_filter_field m name type
    validate_from m (and_filter fs) later = validate_filters m fs
    validate_from m (or_filter fs) later = validate_filters m fs
