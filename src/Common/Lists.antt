-- ===== src/Common/Lists.antt =====
-- Lists measured by native numbers, predicates on all members, and association lists for Go maps.
use Prim.Native.Nat.{ℕ, zero, suc, ◌+◌, ◌-◌}
use Prim.Native.String.{String}
use mathlib.Core.Path.{◌≡◌, refl, sym, subst, ap}
use mathlib.Core.Logic.{◌⊎◌, inl, inr}
use mathlib.Core.Bool.{Bool, true, false}
use mathlib.Core.List.{List, [], ◌∷◌, ◌++◌, map, Memᴰ}
use mathlib.Core.Option.{Option, none, some}
use native.Mathlib.Omega.{arith}
use text.Mathlib.Text.{◌==◌ as str_eq}
use text.Mathlib.TextEquality.{eq_iff}
use protostate.Common.Tests.{if◌then◌else◌}

pub Option-cases {ℓ} : {A : Type ℓ} (x : Option A) → (x ≡ none) ⊎ ((a : A) × (x ≡ some a))
Option-cases none = inl refl
Option-cases (some a) = inr (a, refl)

module _ {ℓ} {A : Type ℓ} where
  abbrev pub length : List A → ℕ
  length [] = 0
  length (x ∷ xs) = suc (length xs)

  abbrev pub is_empty : List A → Bool
  is_empty [] = true
  is_empty (x ∷ xs) = false

  pub length-append : (xs ys : List A) → length (xs ++ ys) ≡ length xs + length ys
  length-append [] ys = omega arith
  length-append (x ∷ xs) ys = omega (arith, length-append xs ys)

  abbrev pub take : ℕ → List A → List A
  take zero xs = []
  take (suc n) [] = []
  take (suc n) (x ∷ xs) = x ∷ take n xs

  abbrev pub drop : ℕ → List A → List A
  drop zero xs = xs
  drop (suc n) [] = []
  drop (suc n) (x ∷ xs) = drop n xs

  abbrev pub filter : (A → Bool) → List A → List A
  filter p [] = []
  filter p (x ∷ xs) = let rest = filter p xs in if p x then x ∷ rest else rest

  pub take-drop : (n : ℕ) (xs : List A) → take n xs ++ drop n xs ≡ xs
  take-drop zero xs = refl
  take-drop (suc n) [] = refl
  take-drop (suc n) (x ∷ xs) = ap (λ ys. x ∷ ys) (take-drop n xs)

  pub length-drop : (n : ℕ) (xs : List A) → length (drop n xs) ≡ length xs - n
  length-drop zero xs = omega arith
  length-drop (suc n) [] = omega arith
  length-drop (suc n) (x ∷ xs) = omega (arith, length-drop n xs)

  -- `any` and `all` of the library do not run in tests.
  abbrev pub any : (A → Bool) → List A → Bool
  any p [] = false
  any p (x ∷ xs) = if p x then true else any p xs

  abbrev pub All {κ} : (A → Type κ) → List A → Type κ
  All P [] = Unit
  All P (x ∷ xs) = P x × All P xs

module _ {ℓ} {A : Type ℓ} where
  pub mem-append_left : {x : A} (xs ys : List A) → Memᴰ x xs → Memᴰ x (xs ++ ys)
  mem-append_left [] ys m = elim m [ ]
  mem-append_left (x ∷ xs) ys (Memᴰ.head q) = Memᴰ.head q
  mem-append_left (x ∷ xs) ys (Memᴰ.tail m) = Memᴰ.tail (mem-append_left xs ys m)

  pub mem-append_right : {x : A} (xs ys : List A) → Memᴰ x ys → Memᴰ x (xs ++ ys)
  mem-append_right [] ys m = m
  mem-append_right (x ∷ xs) ys m = Memᴰ.tail (mem-append_right xs ys m)

  pub mem-append_last : (xs : List A) (x : A) → Memᴰ x (xs ++ x ∷ [])
  mem-append_last [] x = Memᴰ.head refl
  mem-append_last (y ∷ xs) x = Memᴰ.tail (mem-append_last xs x)

-- What holds of every member of a list, for members of an append and of a map.
module _ {ℓ κ} {A : Type ℓ} (P : A → Type κ) where
  abbrev pub Every : List A → Type (ℓ ⊔ κ)
  Every xs = (x : A) → Memᴰ x xs → P x

  pub Every-cons : {x : A} (xs : List A) → P x → Every xs → Every (x ∷ xs)
  Every-cons xs h k y (Memᴰ.head q) = subst P (sym q) h
  Every-cons xs h k y (Memᴰ.tail m) = k y m

  pub Every-append : (xs ys : List A) → Every xs → Every ys → Every (xs ++ ys)
  Every-append [] ys h k = k
  Every-append (x ∷ xs) ys h k =
      Every-cons (xs ++ ys) (h x (Memᴰ.head refl)) (Every-append xs ys (λ y m. h y (Memᴰ.tail m)) k)

  pub Every-map {ι} :
      {B : Type ι} (f : B → A) (bs : List B) → ((b : B) → Memᴰ b bs → P (f b)) → Every (map f bs)
  Every-map f [] h = λ y m. elim m [ ]
  Every-map f (b ∷ bs) h =
      Every-cons (map f bs) (h b (Memᴰ.head refl)) (Every-map f bs (λ c m. h c (Memᴰ.tail m)))

module _ {ℓ} {V : Type ℓ} where
  -- `m[k]` with its `ok`.
  unfoldable pub lookup : String → List (String × V) → Option V
  lookup k [] = none
  lookup k ((j, v) ∷ m) = if str_eq j k then some v else lookup k m

  -- `delete(m, k)`.
  unfoldable pub without : String → List (String × V) → List (String × V)
  without k [] = []
  without k ((j, v) ∷ m) = let rest = without k m in if str_eq j k then rest else (j, v) ∷ rest

  pub lookup-without :
      (k j : String) (m : List (String × V))
      → lookup j (without k m) ≡ (if str_eq k j then none else lookup j m)
  unfolding lookup without
  lookup-without k j [] = ground arith
  lookup-without k j ((i, v) ∷ m) =
      ground (arith, lookup-without k j m, eq_iff i k, eq_iff i j, eq_iff k j)

  pub without-absent : (k : String) (m : List (String × V)) → lookup k m ≡ none → without k m ≡ m
  unfolding lookup without
  without-absent k [] p = refl
  without-absent k ((i, v) ∷ m) p = ground (arith, without-absent k m)
