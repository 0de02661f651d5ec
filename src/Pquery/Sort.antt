-- ===== src/Pquery/Sort.antt =====
-- Sorting: pquery/sort.go. The default sorts, which keep the paths of a walk, are not modelled.
pub mod Direction
pub mod Sortable
use protostate.Common.{
  String, Bool, true, false, Option, none, some, List, [], ◌∷◌, ◌++◌, str_eq, if◌then◌else◌,
  is_empty, Result, ok, err, ◌>>=◌, guard, split_dots, nil_dereference, conflicting_directions,
  no_leaf_field, not_sortable, repeated_sorted,
}
use protostate.Proto.{
  NumberType, NumberType-discrete, OrderedRules, Sorting, FieldConstraint, number_rules,
  timestamp_rules, Message, message, Fields, no_fields, scalar, nested, Field, FieldInfo,
  MessageInfo, Kind, scalar_kind, message_kind, number_kind, info_of, get_number, get_timestamp,
}
use protostate.Pgstore.Nodes.{NodePath}
use protostate.Pgstore.Find.{new_proto_path, new_json_path}
use protostate.Pgstore.Print.{NestedField}

pub record SortSpec : Type 0 where
  pub field : NestedField
  pub desc : Bool

-- list_j5pb.Sort
pub record Sort : Type 0 where
  pub field : String
  pub descending : Bool

-- ProtoField of pquery/lister.go
pub record ProtoField : Type 0 where
  pub path_in_root : List String
  pub value_column : Option String

-- `!annotated` or not: whether the rules that the constraint gives have a Sorting.
unfoldable pub is_sorting_annotated : Option FieldConstraint → Bool
is_sorting_annotated (some (number_rules t r)) = elim r.sorting [ none ↦ false | some s ↦ true ]
is_sorting_annotated (some (timestamp_rules r)) = elim r.sorting [ none ↦ false | some s ↦ true ]
is_sorting_annotated _ = false

abbrev pub is_repeated : FieldInfo → Bool
is_repeated info = if info.is_list then true else info.is_map

abbrev pub check_sorted : Bool → FieldInfo → Result (Unit {0})
check_sorted repeated info =
    if repeated
    then guard (if is_sorting_annotated info.constraint then false else true) repeated_sorted
    else ok tt

-- validateSortsAnnotations; the second function is its inner loop, for a field that is repeated or not.
unfoldable mutual
  pub validate_sorts_annotations : Fields → Result (Unit {0})
  validate_sorts_annotations no_fields = ok tt
  validate_sorts_annotations (scalar info k rest) =
      check_sorted (is_repeated info) info >>= λ _. validate_sorts_annotations rest
  validate_sorts_annotations (nested info flat (message _ subs) rest) =
      validate_sub_fields (is_repeated info) subs >>= λ _. validate_sorts_annotations rest

  pub validate_sub_fields : Bool → Fields → Result (Unit {0})
  validate_sub_fields repeated no_fields = ok tt
  validate_sub_fields repeated (scalar info k rest) =
      check_sorted repeated info >>= λ _. validate_sub_fields repeated rest
  validate_sub_fields repeated (nested info flat (message _ subs) rest) =
      validate_sorts_annotations subs >>= λ _. validate_sub_fields repeated rest

-- `GetSorting().Sortable` on rules that may be nil; it dereferences nil without a Sorting.
unfoldable pub sortable_of : Option OrderedRules → Result Bool
sortable_of none = err nil_dereference
sortable_of (some r) = elim r.sorting [ none ↦ err nil_dereference | some s ↦ ok s.sortable ]

-- The switch over the field's kind.
unfoldable pub is_sortable : Kind → FieldConstraint → Result Bool
unfolding sortable_of
is_sortable (scalar_kind (number_kind t)) c = sortable_of (get_number t c)
is_sortable (scalar_kind k) c = ok false
is_sortable (message_kind flat m) c =
    if str_eq (info_of m).full_name "google.protobuf.Timestamp"
    then sortable_of (get_timestamp c)
    else ok false

-- One round of validateQueryRequestSorts, from the leaf of the path on.
unfoldable pub check_sortable : Kind → Option FieldConstraint → Result (Unit {0})
check_sortable k none = err not_sortable
check_sortable k (some c) = do sortable ← is_sortable k c; guard sortable not_sortable

unfoldable pub check_leaf : Option Field → Result (Unit {0})
unfolding check_sortable
check_leaf none = err no_leaf_field
check_leaf (some f) = check_sortable f.kind f.info.constraint

unfoldable pub validate_sort : Message → Sort → Result (Unit {0})
unfolding check_leaf
validate_sort m sort = do spec ← new_json_path m (split_dots sort.field); check_leaf spec.leaf_field

unfoldable pub validate_query_request_sorts : Message → List Sort → Result (Unit {0})
unfolding validate_sort
validate_query_request_sorts m [] = ok tt
validate_query_request_sorts m (sort ∷ sorts) = do
  _ ← validate_sort m sort
  validate_query_request_sorts m sorts

-- `direction`: none for "", and whether it is "DESC".
unfoldable pub next_direction : Option Bool → Bool → Result (Option Bool)
next_direction none descending = ok (some descending)
next_direction (some true) descending =
    if descending then ok (some true) else err conflicting_directions
next_direction (some false) descending =
    if descending then err conflicting_directions else ok (some false)

module _ (array_message : Message) (data_column : String) where
  -- The loop of buildDynamicSortSpec.
  unfoldable pub dynamic_sorts_from : Option Bool → List Sort → Result (List SortSpec)
  unfolding next_direction
  dynamic_sorts_from direction [] = ok []
  dynamic_sorts_from direction (sort ∷ sorts) = do
    spec ← new_json_path array_message (split_dots sort.field)
    next ← next_direction direction sort.descending
    rest ← dynamic_sorts_from next sorts
    ok (
        record {
          field = record { root_column = data_column; path = spec; value_column = none };
          desc = sort.descending;
        }
        ∷ rest)

  unfoldable pub build_dynamic_sort_spec : List Sort → Result (List SortSpec)
  unfolding dynamic_sorts_from
  build_dynamic_sort_spec sorts = dynamic_sorts_from none sorts

  -- The loops of buildTieBreakerFields over the annotated names and over the fallback.
  unfoldable pub annotated_tie_breakers : List String → Result (List SortSpec)
  annotated_tie_breakers [] = ok []
  annotated_tie_breakers (name ∷ names) = do
    spec ← new_proto_path array_message (split_dots name)
    rest ← annotated_tie_breakers names
    ok (
        record {
          field = record { root_column = data_column; path = spec; value_column = none };
          desc = false;
        }
        ∷ rest)

  unfoldable pub fallback_tie_breakers : List ProtoField → Result (List SortSpec)
  fallback_tie_breakers [] = ok []
  fallback_tie_breakers (f ∷ fs) = do
    spec ← new_proto_path array_message f.path_in_root
    rest ← fallback_tie_breakers fs
    ok (
        record {
          field = record { root_column = data_column; path = spec; value_column = f.value_column };
          desc = false;
        }
        ∷ rest)

  -- `annotated` is the SortTiebreaker of the request's annotation, empty if there is none.
  unfoldable pub build_tie_breaker_fields : List String → List ProtoField → Result (List SortSpec)
  unfolding annotated_tie_breakers fallback_tie_breakers
  build_tie_breaker_fields annotated fallback =
      if is_empty annotated
      then fallback_tie_breakers fallback
      else annotated_tie_breakers annotated
