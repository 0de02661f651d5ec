-- ===== src/Pquery/Build/Clauses.antt =====
-- What BuildQuery of pquery/lister.go orders by and continues at.
use Prim.Native.Char.{Char}
use mathlib.Core.List.{Memᴰ}
use mathlib.Core.Path.{subst}
use protostate.Common.{
  ℕ, ◌+◌, ◌%◌, ◌^◌, ◌++◌, none, [], ◌∷◌, String, ◌≡◌, refl, sym, ◌∙◌, ap, Bool, false, Option, some,
  List, is_empty, Result, ok, ◌>>=◌, >>=-eq-ok, >>=-cong, ok_injective, mem-append_right,
}
use protostate.Pgstore.Value.{Reflect, Value}
use protostate.Pgstore.Print.{concat}
use protostate.Pquery.Sort.{Sort, SortSpec, build_dynamic_sort_spec}
use protostate.Pquery.Filter.{Parsers}
use protostate.Pquery.Join.{next_alias}
use protostate.Pquery.Page.{limit_of}
use protostate.Pquery.Build.Ordered.{AreOrdered, terms-AreOrdered}
use protostate.Pquery.Build.Keyset.{KeysetTerm, Scalar}
use protostate.Pquery.Build.{
  QueryRequest, Lister, Clause, row_at_least, SelectQuery, sort_fields, request_parts,
  request_clauses, order_terms, auth_joins, auth_clauses, keyset_terms, keyset_clauses, build_from,
  build_query, filter_fields, validate_query_request, default_clauses,
}

module _ {V F : Type 0} (parsers : Parsers V) (is_upper : Char → Bool) (to_lower : Char → Char)
    (decimal : ℕ → String) (r : Reflect) (dynamic : Value r.Msg r.Other → Scalar F)
    (negate_float : F → F) where
  -- A list that a Lister could have in place of its tie breakers and its default sorts.
  abbrev pub with_sorts : Lister V → List SortSpec → List SortSpec → Lister V
  with_sorts ll defaults ties = record ll {
    default_sort_fields = defaults;
    tie_breaker_fields = ties;
  }

  sort_fields-ties :
      (ll : Lister V) (defaults ties : List SortSpec) (sorts : List Sort)
      → is_empty sorts ≡ false
      → sort_fields (with_sorts ll defaults ties) sorts ≡ sort_fields ll sorts
  unfolding sort_fields
  sort_fields-ties ll defaults ties sorts q = rw q refl

  request_parts-ties :
      (ll : Lister V) (defaults ties : List SortSpec) (table_alias : String) (query : QueryRequest)
      → is_empty query.sorts ≡ false
      → request_parts parsers is_upper to_lower decimal r dynamic negate_float
          (with_sorts ll defaults ties)
          table_alias
          (some query)
        ≡ request_parts parsers is_upper to_lower decimal r dynamic negate_float ll table_alias
            (some query)
  unfolding request_parts filter_fields
  request_parts-ties ll defaults ties table_alias query q =
      >>=-cong (validate_query_request parsers ll.array_message query) _ _ (λ u.
        ap
          (λ m. m >>= λ sorts.
            filter_fields parsers is_upper to_lower decimal r dynamic negate_float ll table_alias
              query
            >>= λ filters. ok (sorts, filters))
          (sort_fields-ties ll defaults ties query.sorts q))

  -- For a request with sorts, BuildQuery makes the same query, or the same error, whatever the default
  -- sorts and the tie breakers are: rows with equal requested values have no order.
  pub build_query_ties :
      (ll : Lister V) (defaults ties : List SortSpec) (query : QueryRequest) (size : ℕ)
      (start : Option r.Msg)
      → is_empty query.sorts ≡ false
      → build_query parsers is_upper to_lower decimal r dynamic negate_float
          (with_sorts ll defaults ties)
          (some query)
          size
          start
        ≡ build_query parsers is_upper to_lower decimal r dynamic negate_float ll
            (some query)
            size
            start
  unfolding build_query build_from request_clauses auth_joins auth_clauses default_clauses
  build_query_ties ll defaults ties query size start q =
      >>=-cong (request_clauses ll (next_alias decimal ll.table_name 0)) _ _ (λ equals.
        ap
          (λ (m : Result (List SortSpec × List (Clause V F))). m >>= λ parts.
            build_from parsers is_upper to_lower decimal r dynamic negate_float ll
              (next_alias decimal ll.table_name 0) equals parts size start)
          (request_parts-ties ll defaults ties (next_alias decimal ll.table_name 0) query q))

  from_parts :
      (ll : Lister V) (table_alias : String) (equals : List (Clause V F))
      (parts : List SortSpec × List (Clause V F)) (size : ℕ) (row : r.Msg) {out : SelectQuery V F}
      → build_from parsers is_upper to_lower decimal r dynamic negate_float ll table_alias equals
          parts size
          (some row)
        ≡ ok out
      → (terms : List (KeysetTerm F)) × (order_terms table_alias parts.0 ≡ ok out.order_by)
        × (keyset_terms parsers is_upper to_lower decimal r dynamic negate_float table_alias parts.0
              row
            ≡ ok terms)
        × Memᴰ (row_at_least terms) out.wheres
        × (out.limit ≡ limit_of size)
  unfolding build_from keyset_clauses
  from_parts ll table_alias equals parts size row q =
      let (order, p1, q1) = >>=-eq-ok (order_terms table_alias parts.0) _ q in
      let (claimed, p2, q2) =
        >>=-eq-ok (auth_clauses ll (auth_joins decimal ll table_alias).1) _ q1 in
      let (keyset, p3, q3) =
        >>=-eq-ok
          (keyset_clauses parsers is_upper to_lower decimal r dynamic negate_float table_alias
            parts.0 (some row))
          _ q2 in
      let (terms, p4, q4) =
        >>=-eq-ok
          (keyset_terms parsers is_upper to_lower decimal r dynamic negate_float table_alias parts.0
            row)
          _ p3 in
      let same = ok_injective q3 in
      let last = subst (λ ks. Memᴰ (row_at_least terms) ks) (ok_injective q4) (Memᴰ.head refl) in
      (
        terms,
        p1 ∙ ap ok (ap (λ (o : SelectQuery V F). o.order_by) same),
        p4,
        subst (λ (o : SelectQuery V F). Memᴰ (row_at_least terms) o.wheres) same
            (mem-append_right equals _ (
              mem-append_right parts.1 _ (
                mem-append_right (default_clauses ll table_alias parts.1) _
                  (mem-append_right claimed _ last)))),
        sym (ap (λ (o : SelectQuery V F). o.limit) same),
      )

  -- The sort fields for the requested sorts: those that buildDynamicSortSpec makes, and for none the
  -- default ones with the tie breakers.
  abbrev pub AreSorts : Lister V → List Sort → List SortSpec → Type 0
  AreSorts ll [] specs = specs ≡ ll.default_sort_fields ++ ll.tie_breaker_fields
  AreSorts ll (s ∷ sorts) specs =
      build_dynamic_sort_spec ll.array_message ll.data_column (s ∷ sorts) ≡ ok specs

  abbrev pub sorts_of : Option QueryRequest → List Sort
  sorts_of none = []
  sorts_of (some query) = query.sorts

  sort_fields-AreSorts :
      (ll : Lister V) (sorts : List Sort) {specs : List SortSpec}
      → sort_fields ll sorts ≡ ok specs
      → AreSorts ll sorts specs
  unfolding sort_fields
  sort_fields-AreSorts ll [] q = sym (ok_injective q)
  sort_fields-AreSorts ll (s ∷ sorts) q = q

  request_parts-AreSorts :
      (ll : Lister V) (table_alias : String) (query : Option QueryRequest)
      {parts : List SortSpec × List (Clause V F)}
      → request_parts parsers is_upper to_lower decimal r dynamic negate_float ll table_alias query
        ≡ ok parts
      → AreSorts ll (sorts_of query) parts.0
  unfolding request_parts
  request_parts-AreSorts ll table_alias none q =
      sym (ap (λ (o : List SortSpec × List (Clause V F)). o.0) (ok_injective q))
  request_parts-AreSorts ll table_alias (some query) q =
      let (u, p, q1) = >>=-eq-ok (validate_query_request parsers ll.array_message query) _ q in
      let (sorts, p1, q2) = >>=-eq-ok (sort_fields ll query.sorts) _ q1 in
      let (filters, p2, q3) =
        >>=-eq-ok
          (filter_fields parsers is_upper to_lower decimal r dynamic negate_float ll table_alias
            query)
          _ q2 in
      subst (λ specs. AreSorts ll query.sorts specs)
        (ap (λ (o : List SortSpec × List (Clause V F)). o.0) (ok_injective q3))
        (sort_fields-AreSorts ll query.sorts p1)

  -- A query that BuildQuery makes for the row of a token orders by the sort fields: the requested ones,
  -- or for none the default ones with the tie breakers. It continues at a row comparison with one term
  -- for each of them, in the same order: the column that is in ORDER BY, as microseconds for a
  -- timestamp, and the value that GetValue reads in that row. Where the order ascends these are compared
  -- as they are; where it descends both are negated, integers to their opposite in words and floats by
  -- the negation that is given, and no value is a text. The limit is one row more than the page size, as
  -- a uint64.
  pub build_query_continues :
      (ll : Lister V) (query : Option QueryRequest) (size : ℕ) (row : r.Msg) {out : SelectQuery V F}
      → build_query parsers is_upper to_lower decimal r dynamic negate_float ll query size
          (some row)
        ≡ ok out
      → (sorts : List SortSpec) × (terms : List (KeysetTerm F)) × AreSorts ll (sorts_of query) sorts
        × AreOrdered parsers is_upper to_lower decimal r dynamic negate_float
            (concat ("_" ∷ ll.table_name ∷ "__a" ∷ decimal 1 ∷ []))
            row
            sorts
            out.order_by
            terms
        × Memᴰ (row_at_least terms) out.wheres
        × (out.limit ≡ (size + 1) % 2 ^ 64)
  unfolding build_query next_alias
  build_query_continues ll query size row q =
      let root_alias = next_alias decimal ll.table_name 0 in
      let (equals, p1, q1) = >>=-eq-ok (request_clauses ll root_alias) _ q in
      let (parts, p2, q2) =
        >>=-eq-ok
          (request_parts parsers is_upper to_lower decimal r dynamic negate_float ll root_alias
            query)
          _ q1 in
      let (terms, order, keyset, member, limit) =
        from_parts ll root_alias equals parts size row q2 in
      (
        parts.0,
        terms,
        request_parts-AreSorts ll root_alias query p2,
        terms-AreOrdered parsers is_upper to_lower decimal r dynamic negate_float root_alias row
            parts.0 order keyset,
        member,
        limit,
      )
