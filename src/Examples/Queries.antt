-- ===== src/Examples/Queries.antt =====
-- Examples of the query of List.
use mathlib.Core.List.{Memᴰ}
use protostate.Common.{ℕ, String, ◌≡◌, refl, true, false, none, some, List, [], ◌∷◌, ok, str_eq}
use protostate.Pgstore.Value.{Value, message_value, other_value}
use protostate.Pquery.Sort.{SortSpec}
use protostate.Pquery.Filter.{Parsers, no_filters}
use protostate.Pquery.Page.{pos, negsuc}
use protostate.Pquery.Build.Keyset.{KeysetTerm, Scalar, int64_scalar, other_scalar}
use protostate.Pquery.Build.{QueryRequest, Lister, row_at_least, SelectQuery, build_query}
use protostate.Pquery.Build.Ordered.{AreOrdered}
use protostate.Pquery.Build.Clauses.{build_query_ties, build_query_continues}
use protostate.Fixture.{item, numbers, count_path}

abbrev texts : Parsers String
texts = record {
  parse_float = λ bits s. some s;
  parse_int = λ bits s. some s;
  parse_uint = λ bits s. some s;
  parse_bool = λ s. some s;
  parse_uuid = λ s. some s;
  parse_time = λ layout s. some s;
  date_matches = λ s. true;
  from_text = λ s. s;
  to_title = λ s. s;
  equal_fold = λ a b. str_eq a b;
}

abbrev dynamic : Value numbers.Msg numbers.Other → Scalar ℕ
dynamic (message_value m) = other_scalar
dynamic (other_value v) = int64_scalar (pos v)

abbrev by_count_desc : SortSpec
by_count_desc = record {
  field = record { root_column = "state"; path = count_path; value_column = none };
  desc = true;
}

abbrev items : Lister String
items = record {
  array_message = item;
  data_column = "state";
  default_sort_fields = [];
  tie_breaker_fields = by_count_desc ∷ [];
  default_filter_fields = [];
  tsv_column_map = [];
  table_name = "item";
  request_filter = none;
  auth = none;
  auth_join = [];
}

abbrev counted : QueryRequest
counted = record {
  searches = [];
  sorts = record { field = "count"; descending = false } ∷ [];
  filters = no_filters;
}

build_query_ties_example :
    build_query {F = ℕ} texts
      (λ c. false)
      (λ c. c)
      (λ n. "1")
      numbers
      dynamic
      (λ x. x)
      (record items { default_sort_fields = []; tie_breaker_fields = [] })
      (some counted)
      20
      none
    ≡ build_query {F = ℕ} texts
        (λ c. false)
        (λ c. c)
        (λ n. "1")
        numbers
        dynamic
        (λ x. x)
        items
        (some counted)
        20
        none
build_query_ties_example =
    build_query_ties {F = ℕ} texts (λ c. false) (λ c. c) (λ n. "1") numbers dynamic (λ x. x) items
      [] [] counted 20 none refl

abbrev built : SelectQuery String ℕ
built = record {
  column = "_item__a1.state";
  from = "item AS _item__a1";
  joins = [];
  wheres =
      row_at_least (
        record { lhs = "-1 * (_item__a1.state->>'count')::bigint"; value = int64_scalar (negsuc 4) }
        ∷ [])
      ∷ [];
  order_by = "_item__a1.state->>'count' DESC" ∷ [];
  limit = 21;
}

items_built :
    build_query {F = ℕ} texts
      (λ c. false)
      (λ c. c)
      (λ n. "1")
      numbers
      dynamic
      (λ x. x)
      items
      none
      20
      (some 5)
    ≡ ok built
unfolding build_query
items_built = refl

build_query_continues_example :
    (sorts : List SortSpec) × (terms : List (KeysetTerm ℕ)) × (sorts ≡ by_count_desc ∷ [])
    × AreOrdered {V = String} texts
        (λ c. false)
        (λ c. c)
        (λ n. "1")
        numbers
        dynamic
        (λ x. x)
        "_item__a1"
        5
        sorts
        ("_item__a1.state->>'count' DESC" ∷ [])
        terms
    × Memᴰ (row_at_least terms) built.wheres
    × (built.limit ≡ 21)
build_query_continues_example =
    build_query_continues texts (λ c. false) (λ c. c) (λ n. "1") numbers dynamic (λ x. x) items none
      20 5 items_built
