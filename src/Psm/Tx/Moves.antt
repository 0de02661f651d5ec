-- ===== src/Psm/Tx/Moves.antt =====
-- Actions that move the world only along a relation, with a rule for each way to build an action.
use protostate.Common.{arith, ◌≡◌, Bool, true, false, if◌then◌else◌, Result, ok, err}
use protostate.Psm.Model.{Entity}
use protostate.Psm.Host.{Host, World, Select}
use protostate.Psm.Tx.{Tx, pure, lift, bind-ok, ◌>>=◌, select_row, new_uuid, read_clock}

-- Every successful run of `m` ends in a world that `R` allows.
pub record Moves {e : Entity} {h : Host e} {A : Type 0} (R : World h → World h → Type 0)
    (m : Tx h A) : Type 0 where
  pub at : (w : World h) (a : A) (w' : World h) → m w ≡ ok (a, w') → R w w'

-- What a relation has to be for the rules: it allows what leaves the database alone, and composes.
pub record IsPath {e : Entity} {h : Host e} (R : World h → World h → Type 0) : Type 0 where
  pub same_db : (w w' : World h) → w'.db ≡ w.db → R w w'
  pub trans : (u v w : World h) → R u v → R v w → R u w

module _ {e : Entity} {h : Host e} {R : World h → World h → Type 0} (p : IsPath R)
    {A : Type 0} where
  pub Moves-pure : (a : A) → Moves R (pure {h = h} a)
  unfolding pure
  Moves-pure a = record { at = λ w b w' q. p.same_db w w' (ground arith) }

  pub Moves-lift : (r : Result A) → Moves R (lift {h = h} r)
  unfolding lift
  Moves-lift (ok a) = record { at = λ w b w' q. p.same_db w w' (ground arith) }
  Moves-lift (err x) = record { at = λ w b w' q. cc }

  pub Moves-bind :
      {B : Type 0} (m : Tx h A) (f : A → Tx h B)
      → Moves R m
      → ((a : A) → Moves R (f a))
      → Moves R (m >>= f)
  unfolding ◌>>=◌
  Moves-bind m f km kf = record {
    at = λ w b w' q.
        let (a, v, q1, q2) = bind-ok (m w) f q in
        p.trans w v w' (km.at w a v q1) ((kf a).at v b w' q2);
  }

  -- The rest of a block may use that the first action succeeded.
  pub Moves-bind_with :
      {B : Type 0} (m : Tx h A) (f : A → Tx h B)
      → Moves R m
      → ((w w' : World h) (a : A) → m w ≡ ok (a, w') → Moves R (f a))
      → Moves R (m >>= f)
  unfolding ◌>>=◌
  Moves-bind_with m f km kf = record {
    at = λ w b w' q.
        let (a, v, q1, q2) = bind-ok (m w) f q in
        p.trans w v w' (km.at w a v q1) ((kf w v a q1).at v b w' q2);
  }

module _ {e : Entity} {h : Host e} {R : World h → World h → Type 0} {A : Type 0} where
  pub Moves-if : (b : Bool) (m n : Tx h A) → Moves R m → Moves R n → Moves R (if b then m else n)
  Moves-if true m n km kn = km
  Moves-if false m n km kn = kn

module _ {e : Entity} {h : Host e} {R : World h → World h → Type 0} (p : IsPath R) where
  pub Moves-select : (q : Select e) → Moves R (select_row {h = h} q)
  unfolding select_row
  Moves-select q = record { at = λ w a w' r. p.same_db w w' (ground arith) }

  pub Moves-uuid : Moves R (new_uuid {h = h})
  unfolding new_uuid
  Moves-uuid = record { at = λ w a w' r. p.same_db w w' (ground arith) }

  pub Moves-clock : Moves R (read_clock {h = h})
  unfolding read_clock
  Moves-clock = record { at = λ w a w' r. p.same_db w w' (ground arith) }
