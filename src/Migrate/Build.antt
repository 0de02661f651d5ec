-- ===== src/Migrate/Build.antt =====
-- The builder of a table: internal/pgstore/pgmigrate/builder.go.
use protostate.Common.{
  ℕ, zero, suc, String, Bool, true, false, List, [], ◌∷◌, ◌++◌, map, length, if◌then◌else◌,
}

pub record ColumnPair : Type 0 where
  pub local : String
  pub foreign : String

pub record ForeignKeyBuilder : Type 0 where
  pub name : String
  pub table_name : String
  pub columns : List ColumnPair

-- `column`, less its flags, which nothing sets.
pub record ColumnDef : Type 0 where
  pub name : String
  pub primary_key : Bool
  pub not_null : Bool
  pub type_name : String

pub record CreateTableBuilder : Type 0 where
  pub name : String
  pub columns : List ColumnDef
  pub foreign_keys : List ForeignKeyBuilder

-- The options PrimaryKey and NotNull
abbrev pub primary_key : ColumnDef → ColumnDef
primary_key c = record c { primary_key = true }

abbrev pub not_null : ColumnDef → ColumnDef
not_null c = record c { not_null = true }

abbrev pub apply_options : List (ColumnDef → ColumnDef) → ColumnDef → ColumnDef
apply_options [] c = c
apply_options (opt ∷ opts) c = apply_options opts (opt c)

unfoldable pub create_table : String → CreateTableBuilder
create_table name = record { name = name; columns = []; foreign_keys = [] }

-- CreateTableBuilder.Column
unfoldable pub add_column :
    String → String → List (ColumnDef → ColumnDef) → CreateTableBuilder → CreateTableBuilder
add_column name typ options t =
    let added =
      apply_options options
        (record { name = name; primary_key = false; not_null = false; type_name = typ }) in
    record t { columns = t.columns ++ added ∷ [] }

-- CreateTableBuilder.ForeignKey: it returns a pointer to what it adds to the table, here the index.
unfoldable pub add_foreign_key : String → String → CreateTableBuilder → ℕ × CreateTableBuilder
add_foreign_key name table_name t = (
  length t.foreign_keys,
  record t {
    foreign_keys =
        t.foreign_keys ++ record { name = name; table_name = table_name; columns = [] } ∷ [];
  },
)

abbrev pub modify_at : {A : Type 0} → (A → A) → ℕ → List A → List A
modify_at f n [] = []
modify_at f zero (x ∷ xs) = f x ∷ xs
modify_at f (suc n) (x ∷ xs) = x ∷ modify_at f n xs

-- ForeignKeyBuilder.Column through that pointer.
unfoldable pub add_pair : ℕ → String → String → CreateTableBuilder → CreateTableBuilder
add_pair fk local_name remote_name t =
    let pair : ColumnPair = record { local = local_name; foreign = remote_name } in
    record t {
      foreign_keys =
          modify_at (λ (k : ForeignKeyBuilder). record k { columns = k.columns ++ pair ∷ [] }) fk
            t.foreign_keys;
    }

pub record Column : Type 0 where
  pub name : String
  pub type_name : String
  pub flags : List String

pub record ForeignKey : Type 0 where
  pub name : String
  pub table_name : String
  pub columns : List ColumnPair

pub record Table : Type 0 where
  pub name : String
  pub columns : List Column
  pub primary_key : List String
  pub foreign_keys : List ForeignKey

abbrev pub build_column : ColumnDef → Column
build_column c = record {
  name = c.name;
  type_name = c.type_name;
  flags = if c.not_null then "NOT NULL" ∷ [] else [];
}

abbrev pub primary_names : List ColumnDef → List String
primary_names [] = []
primary_names (c ∷ cs) =
    let rest = primary_names cs in if c.primary_key then c.name ∷ rest else rest

abbrev pub build_foreign_key : ForeignKeyBuilder → ForeignKey
build_foreign_key k = record { name = k.name; table_name = k.table_name; columns = k.columns }

-- Build, whose error is always nil.
unfoldable pub build : CreateTableBuilder → Table
build t = record {
  name = t.name;
  columns = map build_column t.columns;
  primary_key = primary_names t.columns;
  foreign_keys = map build_foreign_key t.foreign_keys;
}
