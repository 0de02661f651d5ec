-- ===== src/Psm/Storage.antt =====
-- What the state machine relies on of the database and of the codecs, as hypotheses: the documented
-- behaviour of SELECT, INSERT and UPSERT on tables with the primary keys that the migrations of
-- internal/pgstore/pgmigrate create, and of protojson and proto.Equal.
use mathlib.Core.List.{Memᴰ}
use protostate.Common.{
  String, ◌≡◌, ◌≢◌, true, Option, none, some, List, [], ◌∷◌, ◌++◌, lookup, Result, ok, err,
}
use protostate.Psm.Model.{Entity, State, Event}
use protostate.Psm.Host.{Host, Cell, Row, Select, Insert, upsert, insert}
use protostate.Psm.Tables.{KeyColumn, Tables}

module _ {e : Entity} where
  -- The row that an INSERT with these columns and values adds.
  abbrev pub zip_row : List String → List (Cell e) → Row e
  zip_row [] cells = []
  zip_row (c ∷ columns) [] = []
  zip_row (c ∷ columns) (v ∷ cells) = (c, v) ∷ zip_row columns cells

  -- A row meets the conditions of a query.
  abbrev pub Meets : Row e → Row e → Type 0
  Meets [] row = Unit
  Meets ((c, v) ∷ wheres) row = (lookup c row ≡ some v) × Meets wheres row

  -- The cells are what the row has in these columns.
  abbrev pub Projects : List String → Row e → List (Cell e) → Type 0
  Projects [] row [] = Unit
  Projects [] row (v ∷ cells) = ⊥
  Projects (c ∷ columns) row [] = ⊥
  Projects (c ∷ columns) row (v ∷ cells) = (lookup c row ≡ some v) × Projects columns row cells

  -- A SELECT of one row answers with some row of the table that meets the conditions if there is one,
  -- and fails only on a row that lacks a column.
  abbrev pub Answers : List (Row e) → Select e → Result (Option (List (Cell e))) → Type 0
  Answers rows q (err x) =
      (row : Row e) × Memᴰ row rows
      × Meets q.wheres row
      × ((cells : List (Cell e)) → ¬ Projects q.columns row cells)
  Answers rows q (ok none) = (row : Row e) → Memᴰ row rows → ¬ Meets q.wheres row
  Answers rows q (ok (some cells)) =
      (row : Row e) × Memᴰ row rows × Meets q.wheres row × Projects q.columns row cells

-- `Valid` says of a database that it answers reads and keeps the primary key of the event table.
pub record Storage {e : Entity} (h : Host e) (tables : Tables) : Type 1 where
  pub rows : h.Db → String → List (Row e)
  pub Valid : h.Db → Type 0
  pub unique_id :
      {db : h.Db} {v : Cell e} (a b : Row e)
      → Valid db
      → Memᴰ a (rows db tables.event_table)
      → Memᴰ b (rows db tables.event_table)
      → lookup tables.event_id a ≡ some v
      → lookup tables.event_id b ≡ some v
      → a ≡ b
  pub select_answers :
      (db : h.Db) (q : Select e) → Valid db → Answers (rows db q.table) q (h.select_row db q)
  pub exec_valid :
      (db : h.Db) (s : Insert e) {db' : h.Db} → h.exec db s ≡ ok db' → Valid db → Valid db'
  pub insert_rows :
      (db : h.Db) (t : String) (columns : List String) (cells : List (Cell e)) {db' : h.Db}
      → h.exec db (insert t columns cells) ≡ ok db'
      → rows db' t ≡ rows db t ++ zip_row columns cells ∷ []
  pub upsert_elsewhere :
      (db : h.Db) (t u : String) (keys sets : Row e) {db' : h.Db}
      → h.exec db (upsert t keys sets) ≡ ok db'
      → t ≢ u
      → rows db' u ≡ rows db u
  -- the outbox has a table of its own
  pub send_valid :
      (db : h.Db) (m : e.Message) {db' : h.Db} → h.send db m ≡ ok db' → Valid db → Valid db'
  pub send_events :
      (db : h.Db) (m : e.Message) {db' : h.Db}
      → h.send db m ≡ ok db'
      → rows db' tables.event_table ≡ rows db tables.event_table
  pub send_delayed_valid :
      (db : h.Db) (d : e.Duration) (m : e.Message) {db' : h.Db}
      → h.send_delayed db d m ≡ ok db'
      → Valid db
      → Valid db'
  pub send_delayed_events :
      (db : h.Db) (d : e.Duration) (m : e.Message) {db' : h.Db}
      → h.send_delayed db d m ≡ ok db'
      → rows db' tables.event_table ≡ rows db tables.event_table

-- protojson reads back what it wrote, and a message equals itself.
pub record Codec {e : Entity} (h : Host e) : Type 0 where
  pub read_state :
      (s : State e) {j : e.Json} → h.marshal_state s ≡ ok j → h.unmarshal_state j ≡ ok s
  pub read_event :
      (v : Event e) {j : e.Json} → h.marshal_event v ≡ ok j → h.unmarshal_event j ≡ ok v
  pub equal_self : (inner : e.Inner) → h.inner_equal inner inner ≡ true

-- The names in a table map do not collide.
pub record IsNamed (tables : Tables) : Type 0 where
  pub tables_differ : tables.state_table ≢ tables.event_table
  pub root_not_id : tables.event_id ≢ tables.event_root
  pub snapshot_not_id : tables.event_id ≢ tables.event_snapshot
  pub root_not_timestamp : tables.event_timestamp ≢ tables.event_root
  pub snapshot_not_timestamp : tables.event_timestamp ≢ tables.event_snapshot
  pub root_not_sequence : tables.event_sequence ≢ tables.event_root
  pub snapshot_not_sequence : tables.event_sequence ≢ tables.event_snapshot
  pub snapshot_not_root : tables.event_root ≢ tables.event_snapshot
  pub keys_not_root :
      (c : KeyColumn) → Memᴰ c tables.key_columns → c.column_name ≢ tables.event_root
  pub keys_not_snapshot :
      (c : KeyColumn) → Memᴰ c tables.key_columns → c.column_name ≢ tables.event_snapshot
