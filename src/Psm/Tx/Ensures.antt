-- ===== src/Psm/Tx/Ensures.antt =====
-- What a successful run of an action from a given world ends with, with a rule for each way to build
-- an action. A rule hands the rest of a block what the first action did.
use mathlib.Core.Path.{subst₂}
use protostate.Common.{◌≡◌, refl, Bool, true, false, if◌then◌else◌, Result, ok, err, arith}
use protostate.Psm.Model.{Entity}
use protostate.Psm.Host.{Host, World}
use protostate.Psm.Tx.{Tx, pure, lift, bind-ok, lift-bind-ok, ◌>>=◌}

pub record Ensures {e : Entity} {h : Host e} {A : Type 0} (w : World h) (m : Tx h A)
    (Q : A → World h → Type 0) : Type 0 where
  pub at : (a : A) (w' : World h) → m w ≡ ok (a, w') → Q a w'

module _ {e : Entity} {h : Host e} {A : Type 0} {Q : A → World h → Type 0} (w : World h) where
  pub Ensures-pure : (a : A) → Q a w → Ensures w (pure a) Q
  unfolding pure
  Ensures-pure a q = record { at = λ b w' p. subst₂ Q (first p) (second p) q }
    where
      first : {b : A} {w' : World h} → pure {h = h} a w ≡ ok (b, w') → a ≡ b
      first p = ground arith

      second : {b : A} {w' : World h} → pure {h = h} a w ≡ ok (b, w') → w ≡ w'
      second p = ground arith

  pub Ensures-lift : (r : Result A) → ((a : A) → r ≡ ok a → Q a w) → Ensures w (lift r) Q
  unfolding lift pure
  Ensures-lift (ok a) k = unfold pure in Ensures-pure a (k a refl)
  Ensures-lift (err x) k = record { at = λ b w' p. cc }

  pub Ensures-if :
      (b : Bool) (m n : Tx h A)
      → (b ≡ true → Ensures w m Q)
      → (b ≡ false → Ensures w n Q)
      → Ensures w (if b then m else n) Q
  Ensures-if true m n k l = k refl
  Ensures-if false m n k l = l refl

module _ {e : Entity} {h : Host e} {A B : Type 0} {Q : B → World h → Type 0} (w : World h) where
  pub Ensures-lift-bind :
      (r : Result A) (f : A → Tx h B)
      → ((a : A) → r ≡ ok a → Ensures w (f a) Q)
      → Ensures w (lift r >>= f) Q
  Ensures-lift-bind r f k = record {
    at = λ b w' p. let (a, p1, p2) = lift-bind-ok r f w p in (k a p1).at b w' p2;
  }

  pub Ensures-bind :
      (m : Tx h A) (f : A → Tx h B)
      → ((a : A) (v : World h) → m w ≡ ok (a, v) → Ensures v (f a) Q)
      → Ensures w (m >>= f) Q
  unfolding ◌>>=◌
  Ensures-bind m f k = record {
    at = λ b w' p. let (a, v, p1, p2) = bind-ok (m w) f p in (k a v p1).at b w' p2;
  }
