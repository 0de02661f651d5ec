-- ===== src/Migrate/Statement.antt =====
-- The SQL of a table and of a search index: Table.ToSQL and DownSQL of builder.go, and searchSpec of
-- psm.go, in internal/pgstore/pgmigrate.
use protostate.Common.{String, List, [], ◌∷◌, ◌++◌, map, is_empty, if◌then◌else◌, join}
use protostate.Pgstore.Nodes.{NodePath}
use protostate.Pgstore.Print.{concat, json_path_query}
use protostate.Migrate.Build.{Table, Column, ForeignKey, ColumnPair}

abbrev pub locals : List ColumnPair → List String
locals [] = []
locals (p ∷ ps) = p.local ∷ locals ps

abbrev pub foreigns : List ColumnPair → List String
foreigns [] = []
foreigns (p ∷ ps) = p.foreign ∷ foreigns ps

unfoldable pub column_clause : Column → String
column_clause c = join " " (c.name ∷ c.type_name ∷ c.flags)

unfoldable pub primary_clause : Table → String
primary_clause t =
    concat ("CONSTRAINT " ∷ t.name ∷ "_pk PRIMARY KEY (" ∷ join ", " t.primary_key ∷ ")" ∷ [])

unfoldable pub foreign_clause : Table → ForeignKey → String
foreign_clause t k = concat (
    "CONSTRAINT "
    ∷ t.name
    ∷ "_fk_"
    ∷ k.name
    ∷ " FOREIGN KEY ("
    ∷ join ", " (locals k.columns)
    ∷ ") REFERENCES "
    ∷ k.table_name
    ∷ "("
    ∷ join ", " (foreigns k.columns)
    ∷ ")"
    ∷ [])

unfoldable pub clauses : Table → List String
unfolding column_clause primary_clause foreign_clause
clauses t =
    map column_clause t.columns
    ++ ((if is_empty t.primary_key then [] else primary_clause t ∷ [])
        ++ map (foreign_clause t) t.foreign_keys)

-- The loop that ends every line but the last with a comma.
unfoldable pub clause_lines : List String → List String
clause_lines [] = []
clause_lines (c ∷ cs) =
    let rest = clause_lines cs in concat ("  " ∷ c ∷ (if is_empty cs then "" else ",") ∷ []) ∷ rest

unfoldable pub to_sql : Table → String
unfolding clauses clause_lines join
to_sql t =
    join "\n"
      (concat ("CREATE TABLE " ∷ t.name ∷ " (" ∷ []) ∷ (clause_lines (clauses t) ++ ");" ∷ []))

unfoldable pub down_sql : Table → String
down_sql t = concat ("DROP TABLE " ∷ t.name ∷ ";" ∷ [])

pub record SearchSpec : Type 0 where
  pub tsv_column : String
  pub table_name : String
  pub column_name : String
  pub path : NodePath

unfoldable pub tsv_statement : SearchSpec → String
unfolding json_path_query
tsv_statement ss = concat (
    "to_tsvector('english', jsonb_path_query_array("
    ∷ ss.column_name
    ∷ ", '"
    ∷ json_path_query ss.path
    ∷ "'))"
    ∷ [])

abbrev pub index_name : SearchSpec → String
index_name ss = concat (ss.table_name ∷ "_" ∷ ss.tsv_column ∷ "_idx" ∷ [])

unfoldable pub search_to_sql : SearchSpec → String
unfolding tsv_statement join
search_to_sql ss = join "\n" (
    concat (
      "ALTER TABLE " ∷ ss.table_name ∷ " ADD COLUMN " ∷ ss.tsv_column ∷ " tsvector GENERATED ALWAYS"
      ∷ [])
    ∷ concat ("  AS (" ∷ tsv_statement ss ∷ ") STORED;" ∷ [])
    ∷ ""
    ∷ concat (
        "CREATE INDEX "
        ∷ index_name ss
        ∷ " ON "
        ∷ ss.table_name
        ∷ " USING GIN ("
        ∷ ss.tsv_column
        ∷ ");"
        ∷ [])
    ∷ [])

unfoldable pub search_down_sql : SearchSpec → String
search_down_sql ss = concat (
    "DROP INDEX "
    ∷ index_name ss
    ∷ ";\nALTER TABLE "
    ∷ ss.table_name
    ∷ " DROP COLUMN "
    ∷ ss.tsv_column
    ∷ ";"
    ∷ [])
