-- ===== src/Psm/Tx.antt =====
-- Code that runs in a transaction: it reads and changes the world, or ends with an error, on which
-- the transaction is rolled back.
pub mod Moves
pub mod Ensures
use protostate.Common.{arith, ◌+◌, String, ◌≡◌, refl, Option, List, Result, ok, err}
use protostate.Psm.Model.{Entity}
use protostate.Psm.Host.{Host, World, Cell, Select, Insert}

abbrev pub Tx : {e : Entity} → Host e → Type 0 → Type 0
Tx h A = World h → Result (A × World h)

module _ {e : Entity} {h : Host e} {A : Type 0} where
  unfoldable pub pure : A → Tx h A
  pure a w = ok (a, w)

  abbrev pub with_world : Result A → World h → Result (A × World h)
  with_world (ok a) w = ok (a, w)
  with_world (err x) w = err x

  unfoldable pub lift : Result A → Tx h A
  lift r w = with_world r w

module _ {e : Entity} {h : Host e} where
  unfoldable pub select_row : Select e → Tx h (Option (List (Cell e)))
  select_row q w = with_world (h.select_row w.db q) w

  -- A call that only changes the database.
  abbrev pub in_db : Result h.Db → World h → Result (Unit {0} × World h)
  in_db (ok db) w = ok (tt, record w { db = db })
  in_db (err x) w = err x

  unfoldable pub exec : Insert e → Tx h (Unit {0})
  exec s w = in_db (h.exec w.db s) w

  unfoldable pub send : e.Message → Tx h (Unit {0})
  send m w = in_db (h.send w.db m) w

  unfoldable pub send_delayed : e.Duration → e.Message → Tx h (Unit {0})
  send_delayed d m w = in_db (h.send_delayed w.db d m) w

  -- uuid.NewString
  unfoldable pub new_uuid : Tx h String
  new_uuid w = ok (h.uuid w.draws, record w { draws = w.draws + 1 })

  -- time.Now and timestamppb.Now
  unfoldable pub read_clock : Tx h e.Time
  read_clock w = ok (h.now w.readings, record w { readings = w.readings + 1 })

module _ {e : Entity} {h : Host e} {A : Type 0} where
  pub with_world-ok :
      (r : Result A) {w w' : World h} {a : A} → with_world r w ≡ ok (a, w') → (r ≡ ok a) × (w' ≡ w)
  with_world-ok (ok a) p = (cc, cc)
  with_world-ok (err x) p = cc

module _ {e : Entity} {h : Host e} where
  pub in_db-ok :
      (r : Result h.Db) (w : World h) {w' : World h} {a : Unit {0}}
      → in_db r w ≡ ok (a, w')
      → (r ≡ ok w'.db) × (w' ≡ record w { db = w'.db })
  in_db-ok (ok db) w p = (ground arith, ground arith)
  in_db-ok (err x) w p = cc

module _ {e : Entity} {h : Host e} where
  -- A read changes nothing.
  pub select_row-world :
      (q : Select e) (w : World h) {a : Option (List (Cell e))} {v : World h}
      → select_row q w ≡ ok (a, v)
      → v ≡ w
  unfolding select_row
  select_row-world q w p = (with_world-ok (h.select_row w.db q) p).1

module _ {e : Entity} {h : Host e} {A B : Type 0} where
  abbrev pub continue : Result (A × World h) → (A → Tx h B) → Result (B × World h)
  continue (ok (a, w)) f = f a w
  continue (err x) f = err x

  infixl 5 ◌>>=◌
  -- opening this opens all the actions above
  unfoldable pub ◌>>=◌ : Tx h A → (A → Tx h B) → Tx h B
  unfolding pure lift select_row exec send send_delayed new_uuid read_clock
  ◌>>=◌ m f w = continue (m w) f

  -- Inversion of a successful block, at its first action.
  pub lift-bind-ok :
      (r : Result A) (f : A → Tx h B) (w : World h) {out : B × World h}
      → (lift r >>= f) w ≡ ok out
      → (a : A) × (r ≡ ok a) × (f a w ≡ ok out)
  unfolding ◌>>=◌
  lift-bind-ok (ok a) f w p = (a, refl, p)
  lift-bind-ok (err x) f w p = cc

  pub bind-ok :
      (r : Result (A × World h)) (f : A → Tx h B) {out : B × World h}
      → continue r f ≡ ok out
      → (a : A) × (w : World h) × (r ≡ ok (a, w)) × (f a w ≡ ok out)
  bind-ok (ok (a, w)) f p = (a, w, refl, p)
  bind-ok (err x) f p = cc

module _ {e : Entity} {h : Host e} {B : Type 0} where
  infixl 5 ◌>>◌
  abbrev pub ◌>>◌ : Tx h (Unit {0}) → Tx h B → Tx h B
  m >> k = m >>= λ _. k
