-- ===== src/Pquery/Filter/Query.antt =====
-- The conditions of requested filters: buildDynamicFilter of pquery/filter.go.
use protostate.Common.{
  String, Option, none, some, List, [], ◌∷◌, str_eq, if◌then◌else◌, Result, ok, err, ◌>>=◌,
  split_dots, nil_dereference, oneof_range, unknown_leaf,
}
use protostate.Proto.{Message, Field, Kind, scalar_kind, enum_kind}
use protostate.Pgstore.Nodes.{NodePath}
use protostate.Pgstore.Find.{new_json_path}
use protostate.Pgstore.Print.{NestedField, concat, json_path_query}
use protostate.Pquery.Filter.{
  FieldType, no_type, value_type, range_type, Filter, Filters, untyped, field_filter, and_filter,
  or_filter, no_filters, one_filter,
}
use protostate.Pquery.Filter.Value.{enum_name}
use protostate.Pquery.Filter.Request.{Leaf, no_leaf, leaf_field, leaf_oneof, leaf_of}

-- An argument of a query: a text, or a text that pg.JSONB encodes.
pub data Argument : Type 0 where
  text_argument json_argument : String → Argument

-- sq.Sqlizer: sq.Expr, sq.And and sq.Or
mutual
  pub data Condition : Type 0 where
    expr : String → List Argument → Condition
    and_of or_of : Conditions → Condition

  pub data Conditions : Type 0 where
    no_conditions : Conditions
    one_condition : Condition → Conditions → Conditions

abbrev pub single : Condition → Condition
single c = and_of (one_condition c no_conditions)

abbrev pub query_array : String → NestedField → List String → String
query_array table_alias spec after = concat (
    "jsonb_path_query_array("
    ∷ table_alias
    ∷ "."
    ∷ spec.root_column
    ∷ ", '"
    ∷ json_path_query spec.path
    ∷ concat after
    ∷ [])

-- The value to look for: the name of an enum value is completed.
unfoldable pub filter_value : (String → String) → Kind → String → String
unfolding enum_name
filter_value to_title (scalar_kind (enum_kind first others)) value = enum_name to_title first value
filter_value to_title k value = value

unfoldable pub range_condition : String → NestedField → String → String → Condition
range_condition table_alias spec min max =
    if str_eq min ""
    then (if str_eq max ""
        then and_of no_conditions
        else single (
            expr
              (query_array table_alias spec
                (" ?? (@ <= $max)', jsonb_build_object('max', ?::text)) <> '[]'::jsonb" ∷ []))
              (text_argument max ∷ [])))
    else (if str_eq max ""
        then single (
            expr
              (query_array table_alias spec
                (" ?? (@ >= $min)', jsonb_build_object('min', ?::text)) <> '[]'::jsonb" ∷ []))
              (text_argument min ∷ []))
        else single (
            expr
              (query_array table_alias spec (
                " ?? (@ >= $min && @ <= $max)', jsonb_build_object('min', ?::text, 'max', ?::text)) <> '[]'::jsonb"
                ∷ []))
              (text_argument min ∷ text_argument max ∷ [])))

-- buildDynamicFilterField
unfoldable pub field_condition :
    (String → String) → String → NestedField → Field → Option FieldType → Result Condition
unfolding filter_value range_condition json_path_query
field_condition to_title table_alias spec f none = err nil_dereference
field_condition to_title table_alias spec f (some no_type) = ok (and_of no_conditions)
field_condition to_title table_alias spec f (some (value_type value)) = ok (
    single (
      expr (query_array table_alias spec ("') @> ?" ∷ []))
        (json_argument (filter_value to_title f.kind value) ∷ [])))
field_condition to_title table_alias spec f (some (range_type min max)) =
    ok (range_condition table_alias spec min max)

-- The SQL of a oneof's filter: the value stands in the text.
unfoldable pub oneof_expr : String → NestedField → String → String
unfolding json_path_query
oneof_expr table_alias spec value = concat (
    "jsonb_array_length("
    ∷ query_array table_alias spec (" ?? (exists(@." ∷ value ∷ "))')" ∷ [])
    ∷ ") > 0"
    ∷ [])

-- buildDynamicFilterOneof
unfoldable pub oneof_condition : String → NestedField → Option FieldType → Result Condition
unfolding oneof_expr
oneof_condition table_alias spec none = err nil_dereference
oneof_condition table_alias spec (some no_type) = ok (and_of no_conditions)
oneof_condition table_alias spec (some (value_type value)) =
    ok (single (expr (oneof_expr table_alias spec value) []))
oneof_condition table_alias spec (some (range_type min max)) = err oneof_range

module _ (to_title : String → String) (array_message : Message)
    (data_column table_alias : String) where
  abbrev pub nested_at : NodePath → NestedField
  nested_at path = record { root_column = data_column; path = path; value_column = none }

  unfoldable pub leaf_condition : NodePath → Leaf → Option FieldType → Result Condition
  unfolding field_condition oneof_condition
  leaf_condition path no_leaf type = err unknown_leaf
  leaf_condition path (leaf_oneof o) type = oneof_condition table_alias (nested_at path) type
  leaf_condition path (leaf_field f) type =
      field_condition to_title table_alias (nested_at path) f type

  -- A field filter in buildDynamicFilter
  unfoldable pub name_condition : String → Option FieldType → Result Condition
  unfolding leaf_condition leaf_of
  name_condition name type = do
    path ← new_json_path array_message (split_dots name)
    leaf_condition path (leaf_of path) type

  -- buildDynamicFilter
  unfoldable mutual
    unfolding name_condition

    pub build_dynamic_filter : Filters → Result Conditions
    build_dynamic_filter no_filters = ok no_conditions
    build_dynamic_filter (one_filter f fs) = build_before f (build_dynamic_filter fs)

    -- One filter, and what the later ones give
    pub build_before : Filter → Result Conditions → Result Conditions
    build_before untyped later = later
    build_before (field_filter name type) later = do
      c ← name_condition name type
      rest ← later
      ok (one_condition c rest)
    build_before (and_filter fs) later = do
      cs ← build_dynamic_filter fs
      rest ← later
      ok (one_condition (and_of cs) rest)
    build_before (or_filter fs) later = do
      cs ← build_dynamic_filter fs
      rest ← later
      ok (one_condition (or_of cs) rest)
