-- ===== src/Pquery/Build/Ordered.antt =====
-- What the order and the row comparison of BuildQuery in pquery/lister.go have for each sort field,
-- described without its loops.
use Prim.Native.Char.{Char}
use mathlib.Core.Path.{subst}
use protostate.Common.{
  ℕ, zero, suc, ◌+◌, ◌*◌, ◌^◌, String, ◌≡◌, refl, sym, ◌∙◌, Bool, true, false, not, List, [], ◌∷◌,
  ok, >>=-eq-ok, ok_injective, if◌then◌else◌, arith,
}
use protostate.Pgstore.Print.{concat, selector}
use protostate.Pgstore.Value.{Reflect, Value, get_value}
use protostate.Pquery.Sort.{SortSpec}
use protostate.Pquery.Filter.{Parsers}
use protostate.Pquery.Page.{ℤ, pos, negsuc}
use protostate.Pquery.Build.Keyset.{
  KeysetTerm, Scalar, timestamp_scalar, int64_scalar, int32_scalar, text_scalar, float64_scalar,
  float32_scalar, bool_scalar, other_scalar, negate, keyset_term,
}
use protostate.Pquery.Build.{order_terms, keyset_terms}

-- Two integers of `2 * half` values whose sum is 0; the least one is its own opposite, as their sum
-- wraps around.
abbrev pub IsOpposite : ℕ → ℤ → ℤ → Type 0
IsOpposite half (pos a) (pos b) = a + b ≡ 0
IsOpposite half (pos a) (negsuc b) = a ≡ b + 1
IsOpposite half (negsuc a) (pos b) = a + 1 ≡ b
IsOpposite half (negsuc a) (negsuc b) = (a + 1) + (b + 1) ≡ 2 * half

negate-IsOpposite : (half : ℕ) (x : ℤ) → IsOpposite half x (negate half x)
negate-IsOpposite half (pos zero) = refl
negate-IsOpposite half (pos (suc n)) = omega arith
negate-IsOpposite half (negsuc n) = ground arith

abbrev pub ordered_by : Bool → String → String
ordered_by true column = concat (column ∷ " DESC" ∷ [])
ordered_by false column = concat (column ∷ " ASC" ∷ [])

abbrev pub microseconds : String → String
microseconds column =
    concat ("(EXTRACT(epoch FROM (" ∷ column ∷ ")::timestamp) * 1000000)::bigint" ∷ [])

module _ {F : Type 0} (negate_float : F → F) where
  -- One side of the comparison and its argument, for a column and the value in the row: the column and
  -- the value where the order ascends, and where it descends something that reverses the order of both.
  abbrev pub IsTerm : Bool → String → Scalar F → KeysetTerm F → Type 0
  IsTerm false column (timestamp_scalar x) t =
      (t.lhs ≡ microseconds column) × (t.value ≡ timestamp_scalar x)
  IsTerm true column (timestamp_scalar x) t =
      (t.lhs ≡ concat ("-1 * " ∷ microseconds column ∷ []))
      × ((y : ℤ) × IsOpposite (2 ^ 63) x y × (t.value ≡ timestamp_scalar y))
  IsTerm false column (int64_scalar x) t = (t.lhs ≡ column) × (t.value ≡ int64_scalar x)
  IsTerm true column (int64_scalar x) t =
      (t.lhs ≡ concat ("-1 * (" ∷ column ∷ ")::bigint" ∷ []))
      × ((y : ℤ) × IsOpposite (2 ^ 63) x y × (t.value ≡ int64_scalar y))
  IsTerm false column (int32_scalar x) t = (t.lhs ≡ column) × (t.value ≡ int32_scalar x)
  IsTerm true column (int32_scalar x) t =
      (t.lhs ≡ concat ("-1 * (" ∷ column ∷ ")::integer" ∷ []))
      × ((y : ℤ) × IsOpposite (2 ^ 31) x y × (t.value ≡ int32_scalar y))
  IsTerm false column (text_scalar s) t = (t.lhs ≡ column) × (t.value ≡ text_scalar s)
  IsTerm true column (text_scalar s) t = ⊥
  IsTerm false column (float64_scalar x) t = (t.lhs ≡ column) × (t.value ≡ float64_scalar x)
  IsTerm true column (float64_scalar x) t =
      (t.lhs ≡ concat ("-1 * (" ∷ column ∷ ")::double precision" ∷ []))
      × (t.value ≡ float64_scalar (negate_float x))
  IsTerm false column (float32_scalar x) t = (t.lhs ≡ column) × (t.value ≡ float32_scalar x)
  IsTerm true column (float32_scalar x) t =
      (t.lhs ≡ concat ("-1 * (" ∷ column ∷ ")::real" ∷ []))
      × (t.value ≡ float32_scalar (negate_float x))
  IsTerm false column (bool_scalar b) t = (t.lhs ≡ column) × (t.value ≡ bool_scalar b)
  IsTerm true column (bool_scalar b) t =
      (t.lhs ≡ concat ("NOT (" ∷ column ∷ ")::boolean" ∷ [])) × (t.value ≡ bool_scalar (not b))
  IsTerm _ column other_scalar t = ⊥

  keyset_term-IsTerm :
      (desc : Bool) (column : String) (v : Scalar F) {t : KeysetTerm F}
      → keyset_term negate_float desc column v ≡ ok t
      → IsTerm desc column v t
  unfolding keyset_term
  keyset_term-IsTerm false column (timestamp_scalar x) q =
      subst (IsTerm false column (timestamp_scalar x)) (ok_injective q) (refl, refl)
  keyset_term-IsTerm true column (timestamp_scalar x) q =
      subst (IsTerm true column (timestamp_scalar x)) (ok_injective q)
        (refl, (_, negate-IsOpposite (2 ^ 63) x, refl))
  keyset_term-IsTerm false column (int64_scalar x) q =
      subst (IsTerm false column (int64_scalar x)) (ok_injective q) (refl, refl)
  keyset_term-IsTerm true column (int64_scalar x) q =
      subst (IsTerm true column (int64_scalar x)) (ok_injective q)
        (refl, (_, negate-IsOpposite (2 ^ 63) x, refl))
  keyset_term-IsTerm false column (int32_scalar x) q =
      subst (IsTerm false column (int32_scalar x)) (ok_injective q) (refl, refl)
  keyset_term-IsTerm true column (int32_scalar x) q =
      subst (IsTerm true column (int32_scalar x)) (ok_injective q)
        (refl, (_, negate-IsOpposite (2 ^ 31) x, refl))
  keyset_term-IsTerm false column (text_scalar s) q =
      subst (IsTerm false column (text_scalar s)) (ok_injective q) (refl, refl)
  keyset_term-IsTerm true column (text_scalar s) q = absurd (ground arith)
  keyset_term-IsTerm false column (float64_scalar x) q =
      subst (IsTerm false column (float64_scalar x)) (ok_injective q) (refl, refl)
  keyset_term-IsTerm true column (float64_scalar x) q =
      subst (IsTerm true column (float64_scalar x)) (ok_injective q) (refl, refl)
  keyset_term-IsTerm false column (float32_scalar x) q =
      subst (IsTerm false column (float32_scalar x)) (ok_injective q) (refl, refl)
  keyset_term-IsTerm true column (float32_scalar x) q =
      subst (IsTerm true column (float32_scalar x)) (ok_injective q) (refl, refl)
  keyset_term-IsTerm false column (bool_scalar b) q =
      subst (IsTerm false column (bool_scalar b)) (ok_injective q) (refl, refl)
  keyset_term-IsTerm true column (bool_scalar b) q =
      subst (IsTerm true column (bool_scalar b)) (ok_injective q) (refl, refl)
  keyset_term-IsTerm desc column other_scalar q = absurd (ground arith)

-- `parsers`, `is_upper`, `to_lower` and `decimal` are those of BuildQuery.
module _ {V F : Type 0} (parsers : Parsers V) (is_upper : Char → Bool) (to_lower : Char → Char)
    (decimal : ℕ → String) (r : Reflect) (dynamic : Value r.Msg r.Other → Scalar F)
    (negate_float : F → F) (table_alias : String) (row : r.Msg) where
  -- A sort field, its term in ORDER BY, and its term in the comparison: both have the column that
  -- Selector writes for the field, in the direction of the sort, and the second one has the value that
  -- GetValue reads in the row.
  abbrev pub IsOrdered : SortSpec → String → KeysetTerm F → Type 0
  IsOrdered s order t =
      (column : String) × (value : Value r.Msg r.Other) × (selector s.field table_alias ≡ ok column)
      × (get_value r s.field.path.path row ≡ ok value)
      × (order ≡ ordered_by s.desc column)
      × IsTerm negate_float s.desc column (dynamic value) t

  -- One term in each of both for each of the sort fields, in the same order.
  abbrev pub AreOrdered : List SortSpec → List String → List (KeysetTerm F) → Type 0
  AreOrdered [] [] [] = Unit
  AreOrdered (s ∷ ss) (order ∷ orders) (t ∷ ts) = IsOrdered s order t × AreOrdered ss orders ts
  AreOrdered _ _ _ = ⊥

  ordered_by-concat :
      (desc : Bool) (column : String)
      → concat (column ∷ " " ∷ (if desc then "DESC" else "ASC") ∷ []) ≡ ordered_by desc column
  ordered_by-concat true column = refl
  ordered_by-concat false column = refl

  pub terms-AreOrdered :
      (sorts : List SortSpec) {orders : List String} {terms : List (KeysetTerm F)}
      → order_terms table_alias sorts ≡ ok orders
      → keyset_terms parsers is_upper to_lower decimal r dynamic negate_float table_alias sorts row
        ≡ ok terms
      → AreOrdered sorts orders terms
  unfolding order_terms keyset_terms
  terms-AreOrdered [] {orders} p q =
      subst (λ ts. AreOrdered [] orders ts) (ok_injective q)
        (subst (λ os. AreOrdered [] os []) (ok_injective p) tt)
  terms-AreOrdered (s ∷ ss) {orders} p q =
      let (column, p1, p2) = >>=-eq-ok (selector s.field table_alias) _ p in
      let (rest, p3, p4) = >>=-eq-ok (order_terms table_alias ss) _ p2 in
      let (same, q1, q2) = >>=-eq-ok (selector s.field table_alias) _ q in
      let (value, q3, q4) = >>=-eq-ok (get_value r s.field.path.path row) _ q2 in
      let (term, q5, q6) = >>=-eq-ok (keyset_term negate_float s.desc same (dynamic value)) _ q4 in
      let (later, q7, q8) =
        >>=-eq-ok
          (keyset_terms parsers is_upper to_lower decimal r dynamic negate_float table_alias ss row)
          _ q6 in
      let equal = ok_injective (sym q1 ∙ p1) in
      let is_term =
        subst (λ c. IsTerm negate_float s.desc c (dynamic value) term) equal
          (keyset_term-IsTerm negate_float s.desc same (dynamic value) q5) in
      subst (λ ts. AreOrdered (s ∷ ss) orders ts) (ok_injective q8)
        (subst (λ os. AreOrdered (s ∷ ss) os (term ∷ later)) (ok_injective p4)
          (
            (column, value, p1, q3, ordered_by-concat s.desc column, is_term),
            terms-AreOrdered ss p3 q7,
          ))
