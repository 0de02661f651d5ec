-- ===== src/Pquery/Filter/Value.antt =====
-- Filter values: filtersForField and validateFilterFieldValue of pquery/filter.go.
use Prim.Native.String.{◌++◌ as str_append}
use protostate.Common.{
  String, Bool, true, false, Option, none, some, List, [], ◌∷◌, any, str_eq, if◌then◌else◌, Result,
  ok, err, ◌>>=◌, guard, has_prefix, trim_suffix, nil_dereference, bad_filter_value, unknown_rules,
}
use protostate.Proto.{
  NumberType, double, float, int32, int64, sfixed32, sfixed64, sint32, sint64, uint32, uint64,
  fixed32, fixed64, FieldConstraint, no_type, other_type, number_rules, bool_rules, enum_rules,
  date_rules, oneof_rules, string_rules, timestamp_rules, WellKnown, not_known, date_text,
  foreign_key, open_text, no_key, unique_string, id62, uuid_key, Filtering, OrderedRules, Kind,
  scalar_kind, message_kind, number_kind, bool_kind, string_kind, bytes_kind, enum_kind, info_of,
  get_number, get_timestamp,
}
use protostate.Pquery.Filter.{Parsers}

abbrev pub is_some : {A : Type 0} → Option A → Bool
is_some none = false
is_some (some a) = true

abbrev pub filtering_in : Option OrderedRules → Option Filtering
filtering_in none = none
filtering_in (some r) = r.filtering

-- GetBool() and GetEnum(), and their GetFiltering()
abbrev pub bool_filtering : FieldConstraint → Option Filtering
bool_filtering (bool_rules f) = f
bool_filtering _ = none

abbrev pub enum_filtering : FieldConstraint → Option Filtering
enum_filtering (enum_rules f) = f
enum_filtering _ = none

-- The name of the enum value that the text stands for.
unfoldable pub enum_name : (String → String) → String → String → String
unfolding has_prefix trim_suffix
enum_name to_title first value =
    let prefix = trim_suffix first "_UNSPECIFIED" in
    if has_prefix value prefix
    then to_title value
    else str_append prefix (str_append "_" (to_title value))

module _ {V : Type 0} (parsers : Parsers V) where
  -- ParseFloat, ParseInt or ParseUint with the size of the type
  unfoldable pub parse_number : NumberType → String → Option V
  parse_number double = parsers.parse_float 64
  parse_number float = parsers.parse_float 32
  parse_number int32 = parsers.parse_int 32
  parse_number int64 = parsers.parse_int 64
  parse_number sfixed32 = parsers.parse_int 32
  parse_number sfixed64 = parsers.parse_int 64
  parse_number sint32 = parsers.parse_int 32
  parse_number sint64 = parsers.parse_int 64
  parse_number uint32 = parsers.parse_uint 32
  parse_number uint64 = parsers.parse_uint 64
  parse_number fixed32 = parsers.parse_uint 32
  parse_number fixed64 = parsers.parse_uint 64

  abbrev pub parse_text : String → Option V
  parse_text value = some (parsers.from_text value)

  abbrev pub parse_date_text : String → Option V
  parse_date_text value =
      if parsers.date_matches value then some (parsers.from_text value) else none

  abbrev pub parse_uuid_text : String → Option V
  parse_uuid_text value =
      if is_some (parsers.parse_uuid value) then some (parsers.from_text value) else none

  -- One of the loops over DefaultFilters.
  unfoldable pub parse_all : (String → Option V) → List String → Result (List V)
  parse_all parse [] = ok []
  parse_all parse (s ∷ ss) =
      let later = parse_all parse ss in
      elim (parse s) [ none ↦ err bad_filter_value | some v ↦ do rest ← later; ok (v ∷ rest) ]

  unfoldable pub default_values : (String → Option V) → Option Filtering → Result (List V)
  unfolding parse_all
  default_values parse none = ok []
  default_values parse (some f) = if f.filterable then parse_all parse f.default_filters else ok []

  abbrev pub known_values : WellKnown → Result (List V)
  known_values not_known = ok []
  known_values (date_text f) = default_values parse_date_text f
  known_values (open_text s) = ok []
  known_values (foreign_key no_key) = ok []
  known_values (foreign_key (unique_string f)) = default_values parse_text f
  known_values (foreign_key (id62 f)) = default_values parse_text f
  known_values (foreign_key (uuid_key f)) = default_values parse_uuid_text f

  -- filtersForField
  unfoldable pub filters_for_field : Option FieldConstraint → Result (List V)
  unfolding default_values parse_number
  filters_for_field none = ok []
  filters_for_field (some no_type) = ok []
  filters_for_field (some other_type) = err unknown_rules
  filters_for_field (some (number_rules t r)) = default_values (parse_number t) r.filtering
  filters_for_field (some (bool_rules f)) = default_values parsers.parse_bool f
  filters_for_field (some (enum_rules f)) = default_values parse_text f
  filters_for_field (some (date_rules f)) = default_values (parsers.parse_time "2006-01-02") f
  filters_for_field (some (oneof_rules f)) = default_values parse_text f
  filters_for_field (some (string_rules k)) = known_values k
  filters_for_field (some (timestamp_rules r)) =
      default_values (parsers.parse_time "2006-01-02T15:04:05Z07:00") r.filtering

  -- `if ….Filtering.Filterable { … }`, which dereferences nil without a Filtering
  unfoldable pub when_filterable : Option Filtering → Bool → Result (Unit {0})
  when_filterable none valid = err nil_dereference
  when_filterable (some f) valid = if f.filterable then guard valid bad_filter_value else ok tt

  abbrev pub is_date : String → Bool
  is_date value =
      if is_some (parsers.parse_time "2006-01-02" value)
      then true
      else if is_some (parsers.parse_time "2006-01" value)
      then true
      else is_some (parsers.parse_time "2006" value)

  abbrev pub known_value : FieldConstraint → String → Result (Unit {0})
  known_value (string_rules (date_text f)) value = when_filterable f (is_date value)
  known_value (string_rules (foreign_key (uuid_key f))) value =
      when_filterable f (is_some (parsers.parse_uuid value))
  known_value (string_rules k) value = ok tt
  known_value _ value = err nil_dereference

  -- The switch of validateFilterFieldValue
  unfoldable pub validate_kind : Kind → FieldConstraint → String → Result (Unit {0})
  unfolding when_filterable parse_number enum_name
  validate_kind (scalar_kind (number_kind t)) c value =
      when_filterable (filtering_in (get_number t c)) (is_some (parse_number t value))
  validate_kind (scalar_kind bool_kind) c value =
      when_filterable (bool_filtering c) (is_some (parsers.parse_bool value))
  validate_kind (scalar_kind (enum_kind first others)) c value =
      when_filterable (enum_filtering c)
        (any (str_eq (enum_name parsers.to_title first value)) (first ∷ others))
  validate_kind (scalar_kind string_kind) c value = known_value c value
  validate_kind (scalar_kind bytes_kind) c value = ok tt
  validate_kind (message_kind flat m) c value =
      if str_eq (info_of m).full_name "google.protobuf.Timestamp"
      then when_filterable (filtering_in (get_timestamp c))
          (is_some (parsers.parse_time "2006-01-02T15:04:05Z07:00" value))
      else ok tt

  unfoldable pub validate_filter_field_value : Kind → FieldConstraint → String → Result (Unit {0})
  unfolding validate_kind
  validate_filter_field_value k c value = if str_eq value "" then ok tt else validate_kind k c value
