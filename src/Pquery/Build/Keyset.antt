-- ===== src/Pquery/Build/Keyset.antt =====
-- The row comparison that List continues at: the loop over the sort fields in BuildQuery of
-- pquery/lister.go.
use protostate.Common.{
  ℕ, zero, suc, ◌+◌, ◌^◌, ◌==◌, String, Bool, not, [], ◌∷◌, if◌then◌else◌, Result, ok, err,
  unsupported_sort,
}
use protostate.Pgstore.Print.{concat}
use protostate.Pquery.Page.{ℤ, pos, negsuc}

-- The dynamic value of a field in a row: a float of a type F, the microseconds of a timestamp, which is
-- the only message that is supported.
pub data Scalar (F : Type 0) : Type 0 where
  timestamp_scalar int64_scalar int32_scalar : ℤ → Scalar F
  text_scalar : String → Scalar F
  float64_scalar float32_scalar : F → Scalar F
  bool_scalar : Bool → Scalar F
  other_scalar : Scalar F

-- One of the left-hand sides with its argument
pub record KeysetTerm (F : Type 0) : Type 0 where
  pub lhs : String
  pub value : Scalar F

-- `x * -1` on an integer of `2 * half` values
abbrev pub negate : ℕ → ℤ → ℤ
negate half (pos zero) = pos zero
negate half (pos (suc n)) = negsuc n
negate half (negsuc n) = if n + 1 == half then negsuc n else pos (suc n)

abbrev pub cast_negated : String → String → String
cast_negated column type = concat ("-1 * (" ∷ column ∷ ")::" ∷ type ∷ [])

abbrev pub epoch : String → String
epoch column = concat ("(EXTRACT(epoch FROM (" ∷ column ∷ ")::timestamp) * 1000000)::bigint" ∷ [])

unfoldable pub keyset_term :
    {F : Type 0} → (F → F) → Bool → String → Scalar F → Result (KeysetTerm F)
keyset_term negate_float desc column (timestamp_scalar x) = ok (
    if desc
    then record {
      lhs = concat ("-1 * " ∷ epoch column ∷ []);
      value = timestamp_scalar (negate (2 ^ 63) x);
    }
    else record { lhs = epoch column; value = timestamp_scalar x })
keyset_term negate_float desc column (text_scalar s) =
    if desc then err unsupported_sort else ok (record { lhs = column; value = text_scalar s })
keyset_term negate_float desc column (int64_scalar x) = ok (
    if desc
    then record { lhs = cast_negated column "bigint"; value = int64_scalar (negate (2 ^ 63) x) }
    else record { lhs = column; value = int64_scalar x })
keyset_term negate_float desc column (int32_scalar x) = ok (
    if desc
    then record { lhs = cast_negated column "integer"; value = int32_scalar (negate (2 ^ 31) x) }
    else record { lhs = column; value = int32_scalar x })
keyset_term negate_float desc column (float32_scalar x) = ok (
    if desc
    then record { lhs = cast_negated column "real"; value = float32_scalar (negate_float x) }
    else record { lhs = column; value = float32_scalar x })
keyset_term negate_float desc column (float64_scalar x) = ok (
    if desc
    then record {
      lhs = cast_negated column "double precision";
      value = float64_scalar (negate_float x);
    }
    else record { lhs = column; value = float64_scalar x })
keyset_term negate_float desc column (bool_scalar b) = ok (
    if desc
    then record { lhs = concat ("NOT (" ∷ column ∷ ")::boolean" ∷ []); value = bool_scalar (not b) }
    else record { lhs = column; value = bool_scalar b })
keyset_term negate_float desc column other_scalar = err unsupported_sort
