-- ===== src/Pquery/Build.antt =====
-- The query of List: BuildQuery and validateQueryRequest of pquery/lister.go.
pub mod Keyset
pub mod Ordered
pub mod Clauses
use Prim.Native.Char.{Char}
use protostate.Common.{
  ℕ, ◌+◌, String, Bool, true, false, Option, none, some, List, [], ◌∷◌, ◌++◌, map, is_empty,
  if◌then◌else◌, Result, ok, err, ◌>>=◌,
}
use protostate.Proto.{Message}
use protostate.Pgstore.Print.{NestedField, concat, selector, json_path_query}
use protostate.Pgstore.Value.{Reflect, Value, get_value}
use protostate.Pquery.Sort.{Sort, SortSpec, build_dynamic_sort_spec, validate_query_request_sorts}
use protostate.Pquery.Filter.{Parsers, Filters, no_filters, one_filter}
use protostate.Pquery.Filter.Request.{validate_filters}
use protostate.Pquery.Filter.Query.{
  Condition, Conditions, no_conditions, one_condition, build_dynamic_filter,
}
use protostate.Pquery.Search.{Search, validate_query_request_searches, build_dynamic_searches}
use protostate.Pquery.Join.{LeftJoin, join_sql, next_alias}
use protostate.Pquery.Build.Keyset.{KeysetTerm, Scalar, keyset_term}
use protostate.Pquery.Page.{limit_of}

-- list_j5pb.QueryRequest
pub record QueryRequest : Type 0 where
  pub searches : List Search
  pub sorts : List Sort
  pub filters : Filters

pub record FilterSpec (V : Type 0) : Type 0 where
  pub field : NestedField
  pub filter_vals : List V

-- What BuildQuery reads of a Lister. The results of the callbacks requestFilter and AuthFilter, which
-- may be nil, are given for the request.
pub record Lister (V : Type 0) : Type 0 where
  pub array_message : Message
  pub data_column : String
  pub default_sort_fields : List SortSpec
  pub tie_breaker_fields : List SortSpec
  pub default_filter_fields : List (FilterSpec V)
  pub tsv_column_map : List (String × String)
  pub table_name : String
  pub request_filter : Option (Result (List (String × V)))
  pub auth : Option (Result (List (String × String)))
  pub auth_join : List LeftJoin

-- The arguments of Where.
pub data Clause (V F : Type 0) : Type 0 where
  request_equals : List (String × V) → Clause V F  -- `"%s = ?"` for each pair
  requested : Condition → Clause V F
  one_of_defaults : List (String × List V) → Clause V F  -- `"%s @> ?"` for one of the values of each pair
  claims : List (String × String) → Clause V F
  row_at_least : List (KeysetTerm F) → Clause V F  -- `(…) >= (…)`, term by term

-- sq.SelectBuilder
pub record SelectQuery (V F : Type 0) : Type 0 where
  pub column : String
  pub from : String
  pub joins : List String
  pub wheres : List (Clause V F)
  pub order_by : List String
  pub limit : ℕ

abbrev pub qualify : {A : Type 0} → String → List (String × A) → List (String × A)
qualify table_alias [] = []
qualify table_alias ((k, v) ∷ kvs) =
    (concat (table_alias ∷ "." ∷ k ∷ []), v) ∷ qualify table_alias kvs

abbrev pub requested_all : {V F : Type 0} → Conditions → List (Clause V F)
requested_all no_conditions = []
requested_all (one_condition c cs) = requested c ∷ requested_all cs

abbrev pub unless_empty : {A V F : Type 0} → (List A → Clause V F) → List A → List (Clause V F)
unless_empty clause xs = if is_empty xs then [] else clause xs ∷ []

-- The loop that orders the query.
unfoldable pub order_terms : String → List SortSpec → Result (List String)
unfolding selector
order_terms table_alias [] = ok []
order_terms table_alias (s ∷ ss) = do
  column ← selector s.field table_alias
  rest ← order_terms table_alias ss
  ok (concat (column ∷ " " ∷ (if s.desc then "DESC" else "ASC") ∷ []) ∷ rest)

abbrev pub default_clause : {V : Type 0} → String → String → FilterSpec V → String × List V
default_clause table_alias data_column spec = (
  concat (
      "jsonb_path_query_array("
      ∷ table_alias
      ∷ "."
      ∷ data_column
      ∷ ", '"
      ∷ json_path_query spec.field.path
      ∷ "')"
      ∷ []),
  spec.filter_vals,
)

-- The loop over the joins: the clauses, and the alias of the last table.
unfoldable pub join_tables : (ℕ → String) → ℕ → String → List LeftJoin → List String × String
unfolding join_sql next_alias
join_tables decimal count table_alias [] = ([], table_alias)
join_tables decimal count table_alias (j ∷ js) =
    let joined = next_alias decimal j.table_name count in
    let later = join_tables decimal (count + 1) joined js in
    (
      concat (j.table_name ∷ " AS " ∷ joined ∷ " ON " ∷ join_sql j.on table_alias joined ∷ [])
          ∷ later.0,
      later.1,
    )

module _ {V : Type 0} where
  unfoldable pub validate_query_request : Parsers V → Message → QueryRequest → Result (Unit {0})
  unfolding validate_query_request_sorts validate_filters validate_query_request_searches
  validate_query_request parsers m query = do
    _ ← validate_query_request_sorts m query.sorts
    _ ← validate_filters parsers m query.filters
    validate_query_request_searches m query.searches

  -- The sort fields: the requested ones in place of the default ones and the tie breakers.
  unfoldable pub sort_fields : Lister V → List Sort → Result (List SortSpec)
  unfolding build_dynamic_sort_spec
  sort_fields ll sorts =
      if is_empty sorts
      then ok (ll.default_sort_fields ++ ll.tie_breaker_fields)
      else build_dynamic_sort_spec ll.array_message ll.data_column sorts

  -- The joins, which are made only for an AuthProvider, and the alias of the last table
  unfoldable pub auth_joins : (ℕ → String) → Lister V → String → List String × String
  unfolding join_tables
  auth_joins decimal ll table_alias = elim ll.auth [
    | none ↦ ([], table_alias)
    | some a ↦ join_tables decimal 1 table_alias ll.auth_join
  ]

module _ {V F : Type 0} where
  unfoldable pub request_clauses : Lister V → String → Result (List (Clause V F))
  request_clauses ll table_alias = elim ll.request_filter [
    | none ↦ ok []
    | some outcome ↦ do
      pairs ← outcome
      ok (unless_empty request_equals (qualify table_alias pairs))
  ]

  unfoldable pub auth_clauses : Lister V → String → Result (List (Clause V F))
  auth_clauses ll auth_alias = elim ll.auth [
    | none ↦ ok []
    | some outcome ↦ do pairs ← outcome; ok (unless_empty claims (qualify auth_alias pairs))
  ]

  -- The default filters, if neither a filter nor a search is requested
  unfoldable pub default_clauses : Lister V → String → List (Clause V F) → List (Clause V F)
  default_clauses ll table_alias requests =
      if is_empty requests
      then unless_empty one_of_defaults
          (map (default_clause table_alias ll.data_column) ll.default_filter_fields)
      else []

-- `is_upper` and `to_lower` are those of package unicode, `decimal` is %d, `dynamic` the value that
-- Interface() has, and `negate_float` is `* -1` on a float.
module _ {V F : Type 0} (parsers : Parsers V) (is_upper : Char → Bool) (to_lower : Char → Char)
    (decimal : ℕ → String) (r : Reflect) (dynamic : Value r.Msg r.Other → Scalar F)
    (negate_float : F → F) where
  unfoldable pub filter_fields : Lister V → String → QueryRequest → Result (List (Clause V F))
  unfolding build_dynamic_filter build_dynamic_searches
  filter_fields ll table_alias query = do
    filters ←
        build_dynamic_filter parsers.to_title ll.array_message ll.data_column table_alias
          query.filters
    searches ← build_dynamic_searches is_upper to_lower ll.tsv_column_map table_alias query.searches
    ok (requested_all filters ++ map requested searches)

  -- The sort fields and the filters of a request, which may be nil
  unfoldable pub request_parts :
      Lister V → String → Option QueryRequest → Result (List SortSpec × List (Clause V F))
  unfolding validate_query_request sort_fields filter_fields
  request_parts ll table_alias none = ok (ll.default_sort_fields ++ ll.tie_breaker_fields, [])
  request_parts ll table_alias (some query) = do
    _ ← validate_query_request parsers ll.array_message query
    sorts ← sort_fields ll query.sorts
    filters ← filter_fields ll table_alias query
    ok (sorts, filters)

  -- The loop over the sort fields for the row of a token
  unfoldable pub keyset_terms : String → List SortSpec → r.Msg → Result (List (KeysetTerm F))
  unfolding selector get_value keyset_term
  keyset_terms table_alias [] row = ok []
  keyset_terms table_alias (s ∷ ss) row = do
    column ← selector s.field table_alias
    value ← get_value r s.field.path.path row
    term ← keyset_term negate_float s.desc column (dynamic value)
    rest ← keyset_terms table_alias ss row
    ok (term ∷ rest)

  unfoldable pub keyset_clauses : String → List SortSpec → Option r.Msg → Result (List (Clause V F))
  unfolding keyset_terms
  keyset_clauses table_alias sorts none = ok []
  keyset_clauses table_alias sorts (some row) = do
    terms ← keyset_terms table_alias sorts row
    ok (row_at_least terms ∷ [])

  -- BuildQuery behind the filters
  unfoldable pub build_from :
      Lister V
      → String
      → List (Clause V F)
      → List SortSpec × List (Clause V F)
      → ℕ
      → Option r.Msg
      → Result (SelectQuery V F)
  unfolding order_terms auth_joins auth_clauses default_clauses keyset_clauses
  build_from ll table_alias equals parts size start = do
    order ← order_terms table_alias parts.0
    let joined = auth_joins decimal ll table_alias
    claimed ← auth_clauses ll joined.1
    keyset ← keyset_clauses table_alias parts.0 start
    ok (record {
      column = concat (table_alias ∷ "." ∷ ll.data_column ∷ []);
      from = concat (ll.table_name ∷ " AS " ∷ table_alias ∷ []);
      joins = joined.0;
      wheres =
          equals ++ (parts.1 ++ (default_clauses ll table_alias parts.1 ++ (claimed ++ keyset)));
      order_by = order;
      limit = limit_of size;
    })

  -- BuildQuery, for a page size and the row of the token.
  unfoldable pub build_query :
      Lister V → Option QueryRequest → ℕ → Option r.Msg → Result (SelectQuery V F)
  unfolding request_clauses request_parts build_from next_alias
  build_query ll query size start = do
    let table_alias = next_alias decimal ll.table_name 0
    equals ← request_clauses ll table_alias
    parts ← request_parts ll table_alias query
    build_from ll table_alias equals parts size start
