-- ===== src/Examples/Lists.antt =====
-- Examples of sorting, filtering and paging.
use protostate.Common.{
  ℕ, ◌≤◌, String, Bool, true, false, ◌≡◌, ◌≢◌, refl, Option, none, some, List, [], ◌∷◌, Result, ok,
  err, arith, any, split_dots, out_of_fuel, str_eq,
}
use protostate.Proto.{OrderedRules, int64, get_number_lem, by_json_name, oneof_by_name, Filtering}
use protostate.Pgstore.Find.{new_json_path}
use protostate.Pgstore.Print.{concat, json_path_query}
use protostate.Pquery.Sort.{Sort, SortSpec, build_dynamic_sort_spec, validate_query_request_sorts}
use protostate.Pquery.Sort.Direction.{build_dynamic_sort_spec_lem}
use protostate.Pquery.Sort.Sortable.{validate_query_request_sorts_iff}
use protostate.Pquery.Filter.{Parsers, Filters, value_type, field_filter, no_filters, one_filter}
use protostate.Pquery.Filter.Request.{
  leaf_of, leaf_oneof, filtering_of, validate_filter_field, validate_filters, oneof_filter_rules,
}
use protostate.Pquery.Filter.Query.{
  Condition, no_conditions, one_condition, single, expr, name_condition, build_dynamic_filter,
}
use protostate.Pquery.Filter.Accepted.{
  name_condition-ok, validate_filters-oneof, validate_filters-later,
}
use protostate.Pquery.Page.{pos, get_page_size, list, list_all, page_request}
use protostate.Pquery.Page.Size.{get_page_size-bound}
use protostate.Pquery.Page.Rows.{run, RoundTrips}
use protostate.Pquery.Page.All.{list_all_complete}
use protostate.Pquery.Page.Ties.{list_all-ties}
use protostate.Fixture.{
  str_differ, item, count_path, count_field, sortable_rules, size_path, size_type,
}

abbrev by_count : List Sort
by_count = record { field = "count"; descending = true } ∷ []

abbrev count_specs : List SortSpec
count_specs =
    record {
      field = record { root_column = "state"; path = count_path; value_column = none };
      desc = true;
    }
    ∷ []

count_found : new_json_path item ("count" ∷ []) ≡ ok count_path
unfolding new_json_path by_json_name
count_found = refl

build_dynamic_sort_spec_lem_example : build_dynamic_sort_spec item "state" by_count ≡ ok count_specs
unfolding split_dots
build_dynamic_sort_spec_lem_example =
    (build_dynamic_sort_spec_lem item "state" by_count count_specs).1
      ((count_path, count_found, refl, tt), (true, (refl, tt)))

validate_query_request_sorts_iff_example : validate_query_request_sorts item by_count ≡ ok tt
unfolding split_dots
validate_query_request_sorts_iff_example = (validate_query_request_sorts_iff item by_count).1 (
  (count_path, count_field, sortable_rules, count_found, refl, refl, (_, refl, (_, refl, refl))),
  tt,
)

-- Parsers that take every text.
abbrev parsers : Parsers String
parsers = record {
  parse_float = λ bits s. some s;
  parse_int = λ bits s. some s;
  parse_uint = λ bits s. some s;
  parse_bool = λ s. some s;
  parse_uuid = λ s. some s;
  parse_time = λ layout s. some s;
  date_matches = λ s. true;
  from_text = λ s. s;
  to_title = λ s. s;
  equal_fold = λ a b. str_eq a b;
}

abbrev number_only : OrderedRules
number_only = record {
  filtering = some (record { filterable = true; default_filters = [] });
  sorting = some (record { sortable = true; default_sort = false });
}

count_accepted : validate_filter_field parsers item "count" (some (value_type "3")) ≡ ok tt
unfolding validate_filter_field new_json_path by_json_name split_dots
count_accepted = rw ((get_number_lem int64 sortable_rules number_only).1 refl, filtering_of) refl

size_found : new_json_path item ("size" ∷ "type" ∷ []) ≡ ok size_path
unfolding new_json_path by_json_name oneof_by_name
size_found = refl

name_condition-ok_example :
    (d : Condition) × (name_condition parsers.to_title item "state" "item" "count"
        (some (value_type "3"))
      ≡ ok d)
name_condition-ok_example =
    name_condition-ok parsers item "state" "item" "count" (some (value_type "3")) count_accepted

abbrev size_is : String → Filters
size_is value = one_filter (field_filter "size.type" (some (value_type value))) no_filters

abbrev size_condition : String → Condition
size_condition value = single (
    expr
      (concat (
        "jsonb_array_length(jsonb_path_query_array(item.state, '$.size ?? (exists(@." ∷ value
        ∷ "))')) > 0" ∷ []))
      [])

size_named : new_json_path item (split_dots "size.type") ≡ ok size_path
unfolding split_dots
size_named = size_found

size_leaf : leaf_of size_path ≡ leaf_oneof size_type
unfolding leaf_of
size_leaf = refl

size_accepted : validate_filters parsers item (size_is "small") ≡ ok tt
unfolding validate_filters new_json_path by_json_name oneof_by_name split_dots
size_accepted = refl

validate_filters-oneof_example :
    ((g : Filtering) × (oneof_filter_rules size_path size_type ≡ ok (some (some g)))
      × (g.filterable ≡ true))
    × (any (λ member. str_eq member "small") ("small" ∷ "large" ∷ []) ≡ true)
    × (build_dynamic_filter parsers.to_title item "state" "item" (size_is "small")
        ≡ ok (one_condition (size_condition "small") no_conditions))
unfolding json_path_query
validate_filters-oneof_example =
    validate_filters-oneof parsers item "state" "item" "size.type" "small" size_path size_type
      size_named size_leaf size_accepted

abbrev count_then_size : String → Filters
count_then_size value =
    one_filter (field_filter "count" (some (value_type "3")))
      (one_filter (field_filter "size.type" (some (value_type value))) no_filters)

count_alone :
    validate_filters parsers item
      (one_filter (field_filter "count" (some (value_type "3"))) no_filters)
    ≡ ok tt
unfolding validate_filters
count_alone = count_accepted

validate_filters-later_example :
    (validate_filters parsers item (size_is "x) || true") ≢ ok tt)
    × (validate_filters parsers item (count_then_size "x) || true") ≡ ok tt)
    × ((d : Condition) × (build_dynamic_filter parsers.to_title item "state" "item"
            (count_then_size "x) || true")
          ≡ ok (one_condition d (one_condition (size_condition "x) || true") no_conditions))))
unfolding json_path_query
validate_filters-later_example =
    validate_filters-later parsers item "state" "item" "count" (some (value_type "3")) "size.type"
      "x) || true" size_path size_type count_alone size_named size_leaf refl

get_page_size-bound_example : ◌≤◌ 7 20
unfolding get_page_size
get_page_size-bound_example =
    get_page_size-bound 20 (some (record { token = ""; page_size = some (pos 7) })) seven
  where
    seven : get_page_size 20 (some (record { token = ""; page_size = some (pos 7) })) ≡ ok 7
    seven = refl

-- A table of two rows, whose tokens are two letters.
abbrev letter : Bool → String
letter false = "f"
letter true = "t"

abbrev read_letter : String → Result Bool
read_letter s = ok (str_eq s "t")

abbrev ordered : Bool → Bool → Bool
ordered false true = false
ordered _ _ = true

abbrev tied : Bool → Bool → Bool
tied a b = true

letters :
    (at_least : Bool → Bool → Bool) (rows : List Bool)
    → RoundTrips {Row = Bool} {Json = Bool}
        (λ b. ok b)
        (λ b. ok (letter b))
        read_letter
        (λ b. b)
        letter
        at_least
        rows
letters at_least rows false = (refl, refl, refl, str_differ "f" "" refl)
letters at_least rows true = (refl, refl, refl, str_differ "t" "" refl)

abbrev two_rows : List Bool
two_rows = false ∷ true ∷ []

list_all_complete_example :
    list_all {Row = Bool} {Json = Bool}
      (λ b. ok b)
      (λ b. ok (letter b))
      read_letter
      (run {Row = Bool} {Json = Bool}
        (λ b. ok b)
        (λ b. ok (letter b))
        read_letter
        (λ b. b)
        letter
        ordered
        two_rows)
      3
      20
      1
      none
    ≡ ok two_rows
list_all_complete_example =
    list_all_complete (λ b. ok b) (λ b. ok (letter b)) read_letter (λ b. b) letter ordered two_rows
      (letters ordered two_rows) (((refl, refl), tt), refl, (tt, refl, tt)) 20 1 3 (omega arith)
      (omega arith) (omega arith) (omega arith)

abbrev database_of : (Bool → Bool → Bool) → List Bool → Option Bool → ℕ → Result (List Bool)
database_of at_least rows =
    run {Row = Bool} {Json = Bool} (λ b. ok b) (λ b. ok (letter b)) read_letter (λ b. b) letter
      at_least rows

list_all-ties_example :
    (list {Row = Bool} {Json = Bool}
        (λ b. ok b)
        (λ b. ok (letter b))
        read_letter
        (database_of tied two_rows)
        20
        (some (
          page_request {Row = Bool} {Json = Bool}
            (λ b. ok b)
            (λ b. ok (letter b))
            read_letter
            (database_of tied two_rows)
            1
            (some "t")))
      ≡ list {Row = Bool} {Json = Bool}
          (λ b. ok b)
          (λ b. ok (letter b))
          read_letter
          (database_of tied two_rows)
          20
          (some (
            page_request {Row = Bool} {Json = Bool}
              (λ b. ok b)
              (λ b. ok (letter b))
              read_letter
              (database_of tied two_rows)
              1
              none)))
    × ((fuel : ℕ)
        → list_all {Row = Bool} {Json = Bool}
            (λ b. ok b)
            (λ b. ok (letter b))
            read_letter
            (database_of tied two_rows)
            fuel
            20
            1
            none
          ≡ err out_of_fuel)
list_all-ties_example =
    list_all-ties {Row = Bool} {Json = Bool} (λ b. ok b) (λ b. ok (letter b)) read_letter (λ b. b)
      letter tied (false ∷ []) true [] (letters tied two_rows) (refl, tt) refl 20 (omega arith)
      (omega arith)
