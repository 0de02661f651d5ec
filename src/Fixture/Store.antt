-- ===== src/Fixture/Store.antt =====
-- The database of the fixture: a table of states, a table of events with a primary key, and an outbox.
use mathlib.Core.List.{Memᴰ}
use native.Mathlib.Decide.{ℕ_discrete}
use protostate.Common.{
  String, ◌≡◌, ◌≢◌, refl, Bool, true, false, inl, inr, ◌⊎◌, Option, none, some, List, [], ◌∷◌, ◌++◌,
  lookup, str_eq, str_eq_iff, if◌then◌else◌, Result, ok, err, arith, scan_columns,
  duplicate_event_id,
}
use protostate.Psm.Host.{Cell, Row, Select, Insert, upsert, insert}
use protostate.Psm.Storage.{zip_row, Meets, Projects, Answers}
use protostate.Fixture.Shop.{shop}

pub str_differ : (a b : String) → str_eq a b ≡ false → a ≢ b
str_differ a b n q = ground (arith, str_eq_iff a b)

abbrev pub same_text : (a b : String) (same : Bool) → str_eq a b ≡ same → Dec (a ≡ b)
same_text a b true p = yes ((str_eq_iff a b).0 p)
same_text a b false n = no (str_differ a b n)

abbrev pub String-discrete : Discrete String
String-discrete a b = same_text a b (str_eq a b) refl

abbrev pub Cell-discrete : Discrete (Cell shop)
Cell-discrete = hlevel (ℕ_discrete, String-discrete)

abbrev pub found-discrete : Discrete (Option (Cell shop))
found-discrete = hlevel (Cell-discrete)

pub record Db : Type 0 where
  pub state_rows : List (Row shop)
  pub event_rows : List (Row shop)
  pub outbox : List String

abbrev pub rows : Db → String → List (Row shop)
rows db t =
    if str_eq t "foo" then db.state_rows else if str_eq t "foo_event" then db.event_rows else []

abbrev pub meets : (wheres row : Row shop) → Dec (Meets wheres row)
meets [] row = yes tt
meets ((c, v) ∷ wheres) row = elim (found-discrete (lookup c row) (some v)) [
  | no n ↦ no (λ m. n m.0)
  | yes p ↦ elim (meets wheres row) [ yes q ↦ yes (p, q) | no n ↦ no (λ m. n m.1) ]
]

pub search_miss :
    (r : Row shop) (table : List (Row shop)) (wheres : Row shop)
    → ¬ Meets wheres r
    → ((row : Row shop) → Memᴰ row table → ¬ Meets wheres row)
    → (row : Row shop) → Memᴰ row (r ∷ table)
    → ¬ Meets wheres row
search_miss r table wheres n none_there row (Memᴰ.head p) met = n (rw (← p) met)
search_miss r table wheres n none_there row (Memᴰ.tail m) met = none_there row m met

-- The first row that meets the conditions, or none does.
abbrev pub search_rows :
    (table : List (Row shop)) (wheres : Row shop)
    → ((row : Row shop) × Memᴰ row table × Meets wheres row)
      ⊎ ((row : Row shop) → Memᴰ row table → ¬ Meets wheres row)
search_rows [] wheres = inr (λ row m. elim m [ ])
search_rows (r ∷ table) wheres = elim (meets wheres r) [
  | yes p ↦ inl (r, Memᴰ.head refl, p)
  | no n ↦ elim (search_rows table wheres) [
    | inl (row, m, p) ↦ inl (row, Memᴰ.tail m, p)
    | inr none_there ↦ inr (search_miss r table wheres n none_there)
  ]
]

pub lacks_column :
    (c : String) (columns : List String) (row : Row shop)
    → lookup c row ≡ none
    → (all : List (Cell shop)) → ¬ Projects (c ∷ columns) row all
lacks_column c columns row q [] r = r
lacks_column c columns row q (v ∷ vs) r = ground (arith, q, r.0)

abbrev pub project_first :
    (c : String) (columns : List String) (row : Row shop) (cells : List (Cell shop))
    → Projects columns row cells
    → (found : Option (Cell shop)) → lookup c row ≡ found
    → Dec ((all : List (Cell shop)) × Projects (c ∷ columns) row all)
project_first c columns row cells p none q = no (λ all. lacks_column c columns row q all.0 all.1)
project_first c columns row cells p (some v) q = yes (v ∷ cells, (q, p))

pub project_rest :
    (c : String) (columns : List String) (row : Row shop)
    → ¬ ((cells : List (Cell shop)) × Projects columns row cells)
    → (all : List (Cell shop)) → ¬ Projects (c ∷ columns) row all
project_rest c columns row n [] r = r
project_rest c columns row n (v ∷ vs) r = n (vs, r.1)

abbrev pub project :
    (columns : List String) (row : Row shop)
    → Dec ((cells : List (Cell shop)) × Projects columns row cells)
project [] row = yes ([], tt)
project (c ∷ columns) row = elim (project columns row) [
  | yes (cells, p) ↦ project_first c columns row cells p (lookup c row) refl
  | no n ↦ no (λ q. project_rest c columns row n q.0 q.1)
]

abbrev pub answer :
    (table : List (Row shop)) (q : Select shop)
    → (r : Result (Option (List (Cell shop)))) × Answers table q r
answer table q = elim (search_rows table q.wheres) [
  | inr n ↦ (ok none, n)
  | inl (row, m, met) ↦ elim (project q.columns row) [
    | yes (cells, p) ↦ (ok (some cells), (row, m, met, p))
    | no n ↦ (err scan_columns, (row, m, met, λ cells p. n (cells, p)))
  ]
]

-- A row without the primary key is refused, and so is a second row with the same.
abbrev pub insert_keyed : Db → Row shop → Option (Cell shop) → Result Db
insert_keyed db row none = err scan_columns
insert_keyed db row (some v) = elim (search_rows db.event_rows (("id", v) ∷ [])) [
  | inl found ↦ err duplicate_event_id
  | inr n ↦ ok (record db { event_rows = db.event_rows ++ row ∷ [] })
]

abbrev pub without_rows : Row shop → List (Row shop) → List (Row shop)
without_rows wheres [] = []
without_rows wheres (row ∷ table) = elim (meets wheres row) [
  | yes p ↦ without_rows wheres table
  | no n ↦ row ∷ without_rows wheres table
]

abbrev pub exec_db : Db → Insert shop → Result Db
exec_db db (upsert t keys sets) =
    if str_eq t "foo"
    then ok (record db { state_rows = without_rows keys db.state_rows ++ (keys ++ sets) ∷ [] })
    else err scan_columns
exec_db db (insert t columns cells) =
    let row = zip_row columns cells in
    if str_eq t "foo_event" then insert_keyed db row (lookup "id" row) else err scan_columns

abbrev pub Unique : Db → Type 0
Unique db =
    (a b : Row shop) (v : Cell shop)
    → Memᴰ a db.event_rows
    → Memᴰ b db.event_rows
    → lookup "id" a ≡ some v
    → lookup "id" b ≡ some v
    → a ≡ b
