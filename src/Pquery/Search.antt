-- ===== src/Pquery/Search.antt =====
-- Requested searches: validateQueryRequestSearches, buildTsvColumnMap and buildDynamicSearches of
-- pquery/search.go, and camelToSnake of pquery/lister.go.
use Prim.Native.Char.{Char}
use Prim.Native.String.{String, [], ◌∷◌}
use Prim.Native.String.{◌++◌ as str_append}
use protostate.Common.{
  Bool, false, Option, none, some, List, [], ◌∷◌, ◌++◌, lookup, if◌then◌else◌, Result, ok, err,
  ◌>>=◌, guard, split_dots, nil_dereference, no_leaf_field, not_searchable, unknown_search,
}
use protostate.Proto.{
  Message, message, Fields, no_fields, scalar, nested, Field, FieldConstraint, string_rules,
  open_text, Kind, ScalarKind, scalar_kind, string_kind,
}
use protostate.Pgstore.Find.{new_json_path}
use protostate.Pgstore.Print.{concat}
use protostate.Pquery.Filter.Query.{Condition, single, expr, text_argument}

-- list_j5pb.Search
pub record Search : Type 0 where
  pub field : String
  pub value : String

-- `searchOpts.GetString_().WellKnown` dereferences nil on other rules, and GetSearching().Searchable
-- without a Searching.
unfoldable pub searchable_of : FieldConstraint → Result Bool
searchable_of c = elim c [
  | string_rules k ↦ elim k [
    | open_text s ↦ elim s [ none ↦ err nil_dereference | some o ↦ ok o.searchable ]
    | _ ↦ ok false
  ]
  | _ ↦ err nil_dereference
]

unfoldable pub is_searchable : Kind → Option FieldConstraint → Result Bool
unfolding searchable_of
is_searchable k none = ok false
is_searchable (scalar_kind string_kind) (some c) = searchable_of c
is_searchable k (some c) = ok false

unfoldable pub check_search : Option Field → Result (Unit {0})
unfolding is_searchable
check_search none = err no_leaf_field
check_search (some f) = do
  searchable ← is_searchable f.kind f.info.constraint
  guard searchable not_searchable

unfoldable pub validate_query_request_searches : Message → List Search → Result (Unit {0})
unfolding check_search
validate_query_request_searches m [] = ok tt
validate_query_request_searches m (s ∷ ss) = do
  path ← new_json_path m (split_dots s.field)
  _ ← check_search path.leaf_field
  validate_query_request_searches m ss

-- The column of a text field that can be searched.
unfoldable pub tsv_column : ScalarKind → Option FieldConstraint → Option String
tsv_column string_kind (some (string_rules (open_text (some o)))) =
    if o.searchable then some o.field_identifier else none
tsv_column k c = none

-- `fmt.Sprintf("%s.%s", field.TextName(), nk)` for each entry
abbrev pub below : String → List (String × String) → List (String × String)
below name [] = []
below name ((k, v) ∷ rest) = (concat (name ∷ "." ∷ k ∷ []), v) ∷ below name rest

-- buildTsvColumnMap; the text name of a field is its name.
unfoldable mutual
  unfolding tsv_column

  pub build_tsv_column_map : Message → List (String × String)
  build_tsv_column_map (message info fields) = tsv_columns fields

  pub tsv_columns : Fields → List (String × String)
  tsv_columns no_fields = []
  tsv_columns (scalar info k rest) = elim (tsv_column k info.constraint) [
    | none ↦ tsv_columns rest
    | some column ↦ (info.name, column) ∷ tsv_columns rest
  ]
  tsv_columns (nested info flat m rest) =
      below info.name (build_tsv_column_map m) ++ tsv_columns rest

module _ (is_upper : Char → Bool) (to_lower : Char → Char) where
  -- The loop of camelToSnake behind the first character
  unfoldable pub snake_from : String → String
  snake_from [] = ""
  snake_from (c ∷ s) =
      let rest = snake_from s in
      if is_upper c then (str_append "_" (to_lower c ∷ rest)) else (c ∷ rest)

  unfoldable pub camel_to_snake : String → String
  unfolding snake_from
  camel_to_snake [] = ""
  camel_to_snake (c ∷ s) = if is_upper c then (to_lower c ∷ snake_from s) else (c ∷ snake_from s)

  unfoldable pub build_dynamic_searches :
      List (String × String) → String → List Search → Result (List Condition)
  unfolding camel_to_snake
  build_dynamic_searches columns table_alias [] = ok []
  build_dynamic_searches columns table_alias (s ∷ ss) =
      let later = build_dynamic_searches columns table_alias ss in
      elim (lookup (camel_to_snake s.field) columns) [
        | none ↦ err unknown_search
        | some column ↦ do
          rest ← later
          ok (
              single (
                expr (concat (table_alias ∷ "." ∷ column ∷ " @@ phraseto_tsquery(?)" ∷ []))
                  (text_argument s.value ∷ []))
              ∷ rest)
      ]
