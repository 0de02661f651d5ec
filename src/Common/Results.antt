-- ===== src/Common/Results.antt =====
-- Errors as values: the errors that package psm returns, and those handed on from elsewhere.
use Prim.Native.String.{String}
use mathlib.Core.Path.{◌≡◌, refl, subst}
use mathlib.Core.List.{List}
use mathlib.Core.Bool.{Bool}
use native.Mathlib.Omega.{arith}
use protostate.Common.Tests.{if◌then◌else◌}

-- Context that `fmt.Errorf` adds with %w is left out: it keeps the identity that `errors.Is` tests.
pub data Error : Type 0 where
  duplicate_event_id duplicate_chained_event_id : Error
  keys_required event_required cause_exclusive cause_missing cause_unsupported : Error
  no_transition conflicting_status zero_status : Error
  unexpected_event_type unknown_event : Error
  primary_key_missing : String → Error
  unexpected_keys : List String → Error
  missing_required : List String → Error
  key_not_present key_mismatch : String → Error
  event_differs : Error
  -- `Scan` with another number of destinations than the row has columns
  scan_columns : Error
  -- a call of a method on a nil interface value
  nil_dereference : Error
  -- an error of code outside the repository, or of a callback
  external : String → Error
  out_of_fuel : Error
  -- errors of internal/pgstore
  empty_path not_in_oneof map_in_path not_a_message list_in_path : Error
  index_out_of_range oneof_at_leaf wrong_value : Error
  no_such_field : String → Error
  -- errors of pgmigrate
  unsupported_key : Error
  -- errors of pquery
  no_leaf_field not_sortable repeated_sorted conflicting_directions : Error
  bad_filter_value not_filterable not_in_oneof_values oneof_range unknown_rules unknown_leaf : Error
  not_searchable no_identifier identifier_used unknown_search : Error
  page_too_large unsupported_sort not_found : Error

-- What fallible code returns: one of the errors, or a value.
pub data Result {ℓ} (Value : Type ℓ) : Type ℓ where
  err : (why : Error) → Result Value
  ok : (value : Value) → Result Value

-- The early return `if err != nil { return nil, err }`.
infixl 5 ◌>>=◌
abbrev pub ◌>>=◌ {ℓ κ} : {V : Type ℓ} {W : Type κ} → Result V → (V → Result W) → Result W
m >>= next = elim m [ err why ↦ err why | ok value ↦ next value ]

-- A check of one condition, with the error to return where it does not hold.
abbrev pub guard : (holds : Bool) → (otherwise : Error) → Result (Unit {0})
guard holds otherwise = if holds then ok tt else err otherwise

pub ok_injective {ℓ} : {V : Type ℓ} {a b : V} → ok a ≡ ok b → a ≡ b
ok_injective q = cc

module _ {ℓ κ} {V : Type ℓ} {W : Type κ} where
  -- What a block that succeeded did first.
  pub >>=-eq-ok :
      (first : Result V) (next : V → Result W) {out : W}
      → (first >>= next) ≡ ok out
      → (value : V) × (first ≡ ok value) × (next value ≡ ok out)
  >>=-eq-ok (err why) next q = cc
  >>=-eq-ok (ok value) next q = (value, refl, q)

  pub >>=-cong :
      (m : Result V) (f g : V → Result W)
      → ((value : V) → f value ≡ g value)
      → (m >>= f) ≡ (m >>= g)
  >>=-cong (err why) f g k = refl
  >>=-cong (ok value) f g k = k value

pub >>=-assoc {ℓ κ ι} :
    {U : Type ℓ} {V : Type κ} {W : Type ι} (m : Result U) (f : U → Result V) (g : V → Result W)
    → ((m >>= f) >>= g) ≡ (m >>= λ u. f u >>= g)
>>=-assoc (err why) f g = refl
>>=-assoc (ok value) f g = refl

-- Whatever is returned without an error has the property.
module _ {ℓ κ} {V : Type ℓ} (P : V → Type κ) where
  abbrev pub Returns : Result V → Type κ
  Returns (err why) = Unit
  Returns (ok value) = P value

  pub Returns-at : (r : Result V) {value : V} → Returns r → r ≡ ok value → P value
  Returns-at (err why) h q = absurd (err_not_ok q)
    where
      err_not_ok : {x : Error} {a : V} → err x ≡ ok a → ⊥
      err_not_ok q = ground arith
  Returns-at (ok value) h q = subst P (ok_injective q) h

  pub Returns-bind {ι} :
      {U : Type ι} (m : Result U) (f : U → Result V)
      → ((u : U) → m ≡ ok u → Returns (f u))
      → Returns (m >>= f)
  Returns-bind (err why) f k = tt
  Returns-bind (ok u) f k = k u refl
