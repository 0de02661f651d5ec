-- ===== src/Fixture/Storage.antt =====
-- The database and the codec of the fixture are as the machine relies on.
use mathlib.Core.List.{Memᴰ}
use protostate.Common.{
  String, ◌≡◌, ◌≢◌, refl, sym, ap, ◌∙◌, true, false, Bool-cases, ◌⊎◌, inl, inr, Option, none, some,
  List, [], ◌∷◌, ◌++◌, lookup, str_eq, str_eq_iff, ok, err, arith, duplicate_event_id,
}
use protostate.Psm.Host.{Cell, Row, Insert, upsert, insert}
use protostate.Psm.Tables.{KeyColumn}
use protostate.Psm.Storage.{Storage, Codec, IsNamed, zip_row}
use protostate.Fixture.Shop.{shop, Step, Doc, read-write_cause, Step-discrete}
use protostate.Fixture.Store.{
  Db, rows, answer, exec_db, insert_keyed, search_rows, without_rows, Unique, str_differ,
}
use protostate.Fixture.Machine.{same_step, host, order_id, tables}

only_key :
    (c : KeyColumn)
    → Memᴰ c (order_id ∷ [])
    → (s : String) → str_eq "order_id" s ≡ false
    → c.column_name ≢ s
only_key c (Memᴰ.head p) s n q = str_differ "order_id" s n (sym (ap (λ k. k.column_name) p) ∙ q)
only_key c (Memᴰ.tail m) s n q = elim m [ ]

pub named : IsNamed tables
named = record {
  tables_differ = str_differ "foo" "foo_event" refl;
  root_not_id = str_differ "id" "data" refl;
  snapshot_not_id = str_differ "id" "state" refl;
  root_not_timestamp = str_differ "timestamp" "data" refl;
  snapshot_not_timestamp = str_differ "timestamp" "state" refl;
  root_not_sequence = str_differ "sequence" "data" refl;
  snapshot_not_sequence = str_differ "sequence" "state" refl;
  snapshot_not_root = str_differ "data" "state" refl;
  keys_not_root = λ c m. only_key c m "data" refl;
  keys_not_snapshot = λ c m. only_key c m "state" refl;
}

step-same : (i : Step) → same_step i i ≡ true
step-same i = elim (Step-discrete i i) as (λ x. (elim x [ yes p ↦ true | no n ↦ false ]) ≡ true) [
  | yes p ↦ refl
  | no n ↦ absurd (n refl)
]

written : {a j : Doc} → ok a ≡ ok j → a ≡ j
written q = cc

pub codec : Codec host
codec = record {
  read_state = λ s q. rw (← written q) refl;
  read_event = λ v q. rw (← written q) (rw (read-write_cause v.metadata.cause) refl);
  equal_self = step-same;
}

pub stored : {a b : Db} → ok a ≡ ok b → a ≡ b
stored q = cc

mem_last :
    (rows : List (Row shop)) (row r : Row shop)
    → Memᴰ r (rows ++ row ∷ [])
    → Memᴰ r rows ⊎ (r ≡ row)
mem_last [] row r (Memᴰ.head p) = inr p
mem_last [] row r (Memᴰ.tail m) = elim m [ ]
mem_last (x ∷ rows) row r (Memᴰ.head p) = inl (Memᴰ.head p)
mem_last (x ∷ rows) row r (Memᴰ.tail m) = elim (mem_last rows row r m) [
  | inl k ↦ inl (Memᴰ.tail k)
  | inr q ↦ inr q
]

-- What a successful insert did.
record Inserted (db : Db) (row : Row shop) (id : Option (Cell shop)) (db' : Db) : Type 0 where
  value : Cell shop
  has : id ≡ some value
  fresh : (r : Row shop) → Memᴰ r db.event_rows → lookup "id" r ≢ some value
  same : record db { event_rows = db.event_rows ++ row ∷ [] } ≡ db'

insert_keyed-ok :
    (db : Db) (row : Row shop) (id : Option (Cell shop)) {db' : Db}
    → insert_keyed db row id ≡ ok db'
    → Inserted db row id db'
insert_keyed-ok db row none q = absurd (ground (arith, q))
insert_keyed-ok db row (some v) {db'} q =
    (elim (search_rows db.event_rows (("id", v) ∷ []))
        as (λ x.
          (elim x [
            | inl found ↦ err duplicate_event_id
            | inr n ↦ ok (record db { event_rows = db.event_rows ++ row ∷ [] })
          ])
            ≡ ok db'
          → Inserted db row (some v) db') [
            | inl found ↦ λ r. absurd (ground (arith, r))
            | inr n ↦ λ r. record {
              value = v;
              has = refl;
              fresh = λ a m p. n a m (p, tt);
              same = stored r;
            }
          ])
      q

insert_keyed-Unique :
    (db : Db) (row : Row shop) {db' : Db}
    → Inserted db row (lookup "id" row) db'
    → Unique db
    → Unique db'
insert_keyed-Unique db row i valid = rw (← i.same) (λ a b v m k p q.
    same_row a b v p q (mem_last db.event_rows row a m) (mem_last db.event_rows row b k))
  where
    new_id : (v : Cell shop) (r : Row shop) → r ≡ row → lookup "id" r ≡ some v → v ≡ i.value
    new_id v r q p = ground (arith, ap (λ x. lookup "id" x) q, i.has, p)

    same_row :
        (a b : Row shop) (v : Cell shop)
        → lookup "id" a ≡ some v
        → lookup "id" b ≡ some v
        → Memᴰ a db.event_rows ⊎ (a ≡ row)
        → Memᴰ b db.event_rows ⊎ (b ≡ row)
        → a ≡ b
    same_row a b v p q (inl m) (inl k) = valid a b v m k p q
    same_row a b v p q (inl m) (inr b_new) = absurd (i.fresh a m (p ∙ ap some (new_id v b b_new q)))
    same_row a b v p q (inr a_new) (inl k) = absurd (i.fresh b k (q ∙ ap some (new_id v a a_new p)))
    same_row a b v p q (inr a_new) (inr b_new) = a_new ∙ sym b_new

-- A successful upsert changes the table of states.
exec_db-states :
    (db : Db) (t : String) (keys sets : Row shop) {db' : Db}
    → exec_db db (upsert t keys sets) ≡ ok db'
    → (t ≡ "foo") × (table : List (Row shop)) × (record db { state_rows = table } ≡ db')
exec_db-states db t keys sets q = elim (Bool-cases (str_eq t "foo")) [
  | inl p ↦ (
    (str_eq_iff t "foo").0 p,
    without_rows keys db.state_rows ++ (keys ++ sets) ∷ [],
    stored (rw p at q),
  )
  | inr n ↦ absurd (ground (arith, q, n))
]

pub exec_db-Unique :
    (db : Db) (s : Insert shop) {db' : Db} → exec_db db s ≡ ok db' → Unique db → Unique db'
exec_db-Unique db (upsert t keys sets) q valid =
    let (p, table, same) = exec_db-states db t keys sets q in rw (← same) valid
exec_db-Unique db (insert t columns cells) q valid = elim (Bool-cases (str_eq t "foo_event")) [
  | inl p ↦
      insert_keyed-Unique db (zip_row columns cells) (insert_keyed-ok db _ _ (rw p at q)) valid
  | inr n ↦ absurd (ground (arith, q, n))
]

pub exec_db-insert :
    (db : Db) (t : String) (columns : List String) (cells : List (Cell shop)) {db' : Db}
    → exec_db db (insert t columns cells) ≡ ok db'
    → rows db' t ≡ rows db t ++ zip_row columns cells ∷ []
exec_db-insert db t columns cells q = elim (Bool-cases (str_eq t "foo_event")) [
  | inl p ↦
      rw
        (
          ← (insert_keyed-ok db (zip_row columns cells) _ (rw p at q)).same,
          (str_eq_iff t "foo_event").0 p,
        )
        refl
  | inr n ↦ absurd (ground (arith, q, n))
]

pub exec_db-upsert :
    (db : Db) (t u : String) (keys sets : Row shop) {db' : Db}
    → exec_db db (upsert t keys sets) ≡ ok db'
    → t ≢ u
    → rows db' u ≡ rows db u
exec_db-upsert db t u keys sets q n =
    let (p, table, same) = exec_db-states db t keys sets q in
    rw (← same) (elim (Bool-cases (str_eq u "foo")) [
      | inl foo ↦ absurd (n (p ∙ sym ((str_eq_iff u "foo").0 foo)))
      | inr other_table ↦ rw other_table refl
    ])

unfoldable pub storage : Storage host tables
storage = record {
  rows = rows;
  Valid = Unique;
  unique_id = λ {v} a b valid m k p q. valid a b v m k p q;
  select_answers = λ db q valid. (answer (rows db q.table) q).1;
  exec_valid = exec_db-Unique;
  insert_rows = exec_db-insert;
  upsert_elsewhere = exec_db-upsert;
  send_valid = λ db m q valid. rw (← stored q) valid;
  send_events = λ db m q. rw (← stored q) refl;
  send_delayed_valid = λ db d m q valid. rw (← stored q) valid;
  send_delayed_events = λ db d m q. rw (← stored q) refl;
}
