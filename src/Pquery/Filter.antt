-- ===== src/Pquery/Filter.antt =====
-- Requested filters and the default filters of a field: pquery/filter.go. The walk that collects the
-- default filters of a message is not modelled.
pub mod Value
pub mod Request
pub mod Query
pub mod Accepted
use protostate.Common.{ℕ, String, Bool, Option}

-- FieldType.Type of list_j5pb; `no_type` is nil.
pub data FieldType : Type 0 where
  no_type : FieldType
  value_type : String → FieldType
  range_type : String → String → FieldType  -- min, max

-- list_j5pb.Filter. The field filter holds the field's name and its type, a pointer that may be nil.
mutual
  pub data Filter : Type 0 where
    untyped : Filter
    field_filter : String → Option FieldType → Filter
    and_filter or_filter : Filters → Filter

  pub data Filters : Type 0 where
    no_filters : Filters
    one_filter : Filter → Filters → Filters

-- The parsers of package strconv, time and google/uuid that the code calls, each with the value that it
-- returns, or none on an error; and the two functions of package strings that look at case.
pub record Parsers (V : Type 0) : Type 0 where
  pub parse_float : (bits : ℕ) → String → Option V
  pub parse_int : (bits : ℕ) → String → Option V
  pub parse_uint : (bits : ℕ) → String → Option V
  pub parse_bool : String → Option V
  pub parse_uuid : String → Option V
  pub parse_time : (layout : String) → String → Option V
  pub date_matches : String → Bool  -- dateRegex
  pub from_text : String → V
  pub to_title : String → String
  pub equal_fold : String → String → Bool
