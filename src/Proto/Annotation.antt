-- ===== src/Proto/Annotation.antt =====
-- The annotations j5.list.v1 on the fields of a message, as the generated Go types hold them: a nil
-- pointer is `none`.
use protostate.Common.{String, Bool, Option, none, some, List, ◌≡◌, ◌↔◌, arith}

pub record Filtering : Type 0 where
  pub filterable : Bool
  pub default_filters : List String

pub record Sorting : Type 0 where
  pub sortable : Bool
  pub default_sort : Bool

pub record Searching : Type 0 where
  pub searchable : Bool
  pub field_identifier : String

-- The numeric types, which are both kinds of fields and members of the oneof of a constraint.
pub data NumberType : Type 0 where
  double fixed32 fixed64 float int32 int64 sfixed32 sfixed64 sint32 sint64 uint32 uint64 :
      NumberType

-- The twelve messages of numeric rules, and the one for timestamps, have these two fields.
pub record OrderedRules : Type 0 where
  pub filtering : Option Filtering
  pub sorting : Option Sorting

-- ForeignKeyRules.Type
pub data ForeignKey : Type 0 where
  no_key : ForeignKey
  unique_string id62 uuid_key : Option Filtering → ForeignKey

-- StringRules.WellKnown
pub data WellKnown : Type 0 where
  not_known : WellKnown
  date_text : Option Filtering → WellKnown
  foreign_key : ForeignKey → WellKnown
  open_text : Option Searching → WellKnown

-- FieldConstraint.Type; `no_type` is nil, and `other_type` a member that the code does not name.
pub data FieldConstraint : Type 0 where
  no_type other_type : FieldConstraint
  number_rules : NumberType → OrderedRules → FieldConstraint
  bool_rules enum_rules date_rules oneof_rules : Option Filtering → FieldConstraint
  string_rules : WellKnown → FieldConstraint
  timestamp_rules : OrderedRules → FieldConstraint

pub NumberType-discrete : Discrete NumberType
NumberType-discrete = hlevel

-- GetDouble() and its like, nil for a constraint of another type.
unfoldable pub get_number : NumberType → FieldConstraint → Option OrderedRules
get_number t (number_rules u r) = elim (NumberType-discrete t u) [
  | yes same ↦ some r
  | no other ↦ none
]
get_number t _ = none

-- GetTimestamp()
abbrev pub get_timestamp : FieldConstraint → Option OrderedRules
get_timestamp (timestamp_rules r) = some r
get_timestamp _ = none

pub get_number_lem :
    (t : NumberType) (c : FieldConstraint) (r : OrderedRules)
    → (get_number t c ≡ some r) ↔ (c ≡ number_rules t r)
unfolding get_number
get_number_lem t (number_rules u s) r = elim (NumberType-discrete t u) [
  | yes p ↦ (λ q. ground (arith, p), λ q. ground (arith, p))
  | no n ↦ (λ q. ground arith, λ q. absurd (n (cc)))
]
get_number_lem t no_type r = (λ q. absurd (ground arith), λ q. absurd (ground arith))
get_number_lem t other_type r = (λ q. absurd (ground arith), λ q. absurd (ground arith))
get_number_lem t (bool_rules f) r = (λ q. absurd (ground arith), λ q. absurd (ground arith))
get_number_lem t (enum_rules f) r = (λ q. absurd (ground arith), λ q. absurd (ground arith))
get_number_lem t (date_rules f) r = (λ q. absurd (ground arith), λ q. absurd (ground arith))
get_number_lem t (oneof_rules f) r = (λ q. absurd (ground arith), λ q. absurd (ground arith))
get_number_lem t (string_rules f) r = (λ q. absurd (ground arith), λ q. absurd (ground arith))
get_number_lem t (timestamp_rules f) r = (λ q. absurd (ground arith), λ q. absurd (ground arith))

pub get_timestamp_lem :
    (c : FieldConstraint) (r : OrderedRules) → (get_timestamp c ≡ some r) ↔ (c ≡ timestamp_rules r)
get_timestamp_lem c r = ground arith
