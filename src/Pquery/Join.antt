-- ===== src/Pquery/Join.antt =====
-- Joins and table aliases: JoinFields of pquery/getter.go and aliasSet of pquery/query.go.
use protostate.Common.{ℕ, ◌+◌, String, List, [], ◌∷◌, join}
use protostate.Pgstore.Print.{concat}

pub record JoinField : Type 0 where
  pub join_column : String
  pub root_column : String

pub record LeftJoin : Type 0 where
  pub table_name : String
  pub on : List JoinField

unfoldable pub reverse_join : List JoinField → List JoinField
reverse_join [] = []
reverse_join (c ∷ cs) =
    record { join_column = c.root_column; root_column = c.join_column } ∷ reverse_join cs

abbrev pub join_conditions : String → String → List JoinField → List String
join_conditions root_alias join_alias [] = []
join_conditions root_alias join_alias (c ∷ cs) =
    concat (join_alias ∷ "." ∷ c.join_column ∷ " = " ∷ root_alias ∷ "." ∷ c.root_column ∷ [])
    ∷ join_conditions root_alias join_alias cs

-- JoinFields.SQL
unfoldable pub join_sql : List JoinField → String → String → String
unfolding join
join_sql on root_alias join_alias = join " AND " (join_conditions root_alias join_alias on)

-- aliasSet.Next, from the count before it; `decimal` is %d.
unfoldable pub next_alias : (decimal : ℕ → String) → String → ℕ → String
next_alias decimal name count = concat ("_" ∷ name ∷ "__a" ∷ decimal (count + 1) ∷ [])
