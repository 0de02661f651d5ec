-- ===== src/Pquery/Get.antt =====
-- The getter: Get of pquery/getter.go, and FieldsToEqMap of internal/dbconvert/dbconvert.go.
pub mod Asked
pub mod Answer
use protostate.Common.{
  ℕ, ◌+◌, String, Bool, true, false, Option, none, some, List, [], ◌∷◌, ◌++◌, length, map, is_empty,
  str_eq, if◌then◌else◌, Result, ok, err, ◌>>=◌, not_found,
}
use protostate.Pgstore.Print.{concat}
use protostate.Pquery.Join.{JoinField, LeftJoin, join_sql, next_alias}
use protostate.Pquery.Build.{qualify, join_tables}

-- getJoin
pub record GetJoin : Type 0 where
  pub table_name : String
  pub data_column : String
  pub on : List JoinField

-- What Get reads of a Getter. The result of the callback AuthFilter, which may be nil, is given for the
-- request.
pub record Getter : Type 0 where
  pub table_name : String
  pub data_column : String
  pub auth : Option (Result (List (String × String)))
  pub auth_join : List LeftJoin
  pub join : Option GetJoin

-- sq.SelectBuilder
pub record GetQuery (C : Type 0) : Type 0 where
  pub columns : List String
  pub from : String
  pub keys : List (String × C)
  pub group_by : List String
  pub joins : List String
  pub claims : List (String × String)

-- The columns that Scan reads: foundJSON, which may be nil, and joinedJSON.
pub record Found : Type 0 where
  pub found_json : Option String
  pub joined_json : List String

abbrev pub names_of : {C : Type 0} → List (String × C) → List String
names_of [] = []
names_of ((k, v) ∷ kvs) = k ∷ names_of kvs

-- FieldsToEqMap; `to_db_value` is interfaceToDBValue, a switch on types of the drivers.
unfoldable pub fields_to_eq_map :
    {V C : Type 0} → (V → Result C) → String → List (String × V) → Result (List (String × C))
fields_to_eq_map to_db_value table_alias [] = ok []
fields_to_eq_map to_db_value table_alias ((k, v) ∷ kvs) = do
  converted ← to_db_value v
  rest ← fields_to_eq_map to_db_value table_alias kvs
  ok ((concat (table_alias ∷ "." ∷ k ∷ []), converted) ∷ rest)

-- The joins for an AuthProvider, and the alias of the last table
unfoldable pub get_auth_joins : (ℕ → String) → Getter → String → List String × String
unfolding join_tables
get_auth_joins decimal gc root_alias = elim gc.auth [
  | none ↦ ([], root_alias)
  | some a ↦ join_tables decimal 1 root_alias gc.auth_join
]

unfoldable pub get_claims : Getter → String → Result (List (String × String))
get_claims gc auth_alias = elim gc.auth [
  | none ↦ ok []
  | some outcome ↦ do pairs ← outcome; ok (qualify auth_alias pairs)
]

-- How often Next is called for the tables in front of the join.
abbrev pub aliases_before : Getter → ℕ
aliases_before gc = elim gc.auth [ none ↦ 1 | some a ↦ length gc.auth_join + 1 ]

abbrev pub join_columns : (ℕ → String) → Getter → List String
join_columns decimal gc = elim gc.join [
  | none ↦ []
  | some j ↦
      concat (
        "ARRAY_AGG("
        ∷ next_alias decimal j.table_name (aliases_before gc)
        ∷ "."
        ∷ j.data_column
        ∷ ")"
        ∷ [])
      ∷ []
]

abbrev pub join_clauses : (ℕ → String) → Getter → String → List String
join_clauses decimal gc root_alias = elim gc.join [
  | none ↦ []
  | some j ↦
      let join_alias = next_alias decimal j.table_name (aliases_before gc) in
      concat
        (j.table_name ∷ " AS " ∷ join_alias ∷ " ON " ∷ join_sql j.on root_alias join_alias ∷ [])
      ∷ []
]

module _ {V C M : Type 0} (to_db_value : V → Result C) (decimal : ℕ → String)
    (decode decode_joined : String → Result M) where
  -- The query, for the result of the callback primaryKey.
  unfoldable pub get_query : Getter → List (String × V) → Result (GetQuery C)
  unfolding fields_to_eq_map get_auth_joins get_claims join_sql next_alias
  get_query gc primary_key_fields = do
    let root_alias = next_alias decimal gc.table_name 0
    root_filter ← fields_to_eq_map to_db_value root_alias primary_key_fields
    let joined = get_auth_joins decimal gc root_alias
    claimed ← get_claims gc joined.1
    ok (record {
      columns = concat (root_alias ∷ "." ∷ gc.data_column ∷ []) ∷ join_columns decimal gc;
      from = concat (gc.table_name ∷ " AS " ∷ root_alias ∷ []);
      keys = root_filter;
      group_by = names_of root_filter;
      joins = joined.0 ++ join_clauses decimal gc root_alias;
      claims = claimed;
    })

  -- The loop over joinedJSON
  unfoldable pub joined_messages : List String → Result (List M)
  joined_messages [] = ok []
  joined_messages (event_bytes ∷ rest) =
      let later = joined_messages rest in
      if str_eq event_bytes ""
      then later
      else (decode_joined event_bytes >>= λ message. later >>= λ messages. ok (message ∷ messages))

  -- What Get does with the two columns.
  unfoldable pub read_found : Getter → Option String → List String → Result (M × List M)
  unfolding joined_messages
  read_found gc none joined = err not_found
  read_found gc (some json) joined = do
    state ← decode json
    elements ← elim gc.join [ none ↦ ok [] | some j ↦ joined_messages joined ]
    ok (state, elements)

  -- What Get does with the row; no row is sql.ErrNoRows.
  unfoldable pub read_answer : Getter → Option Found → Result (M × List M)
  unfolding read_found
  read_answer gc none = err not_found
  read_answer gc (some found) = read_found gc found.found_json found.joined_json

  -- Get, with the results of the validator and of the callback primaryKey: the state and the list that
  -- it sets in the response. `database` answers the query.
  unfoldable pub get :
      Getter
      → Result (Unit {0})
      → Result (List (String × V))
      → (GetQuery C → Result (Option Found))
      → Result (M × List M)
  unfolding get_query read_answer
  get gc validated primary_key database = do
    _ ← validated
    primary_key_fields ← primary_key
    query ← get_query gc primary_key_fields
    answer ← database query
    read_answer gc answer
