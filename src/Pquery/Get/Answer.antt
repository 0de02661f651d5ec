-- ===== src/Pquery/Get/Answer.antt =====
-- What Get of pquery/getter.go asks and answers.
use mathlib.Core.List.{Memᴰ}
use mathlib.Core.Path.{subst}
use protostate.Common.{
  ℕ, String, sym, ◌≡◌, refl, ◌∙◌, ap, Option, none, some, List, [], ◌∷◌, Result, ok, >>=-eq-ok,
  ok_injective, Every, Every-cons, arith,
}
use protostate.Pgstore.Print.{concat}
use protostate.Pquery.Join.{next_alias}
use protostate.Pquery.Get.Asked.{alias_at, AreAsked, get_claims-AreAsked}
use protostate.Pquery.Get.{
  Getter, GetQuery, Found, fields_to_eq_map, get_auth_joins, get_claims, join_clauses, get_query,
  joined_messages, read_found, read_answer, get,
}

module _ {V C : Type 0} (to_db_value : V → Result C) (table_alias : String) where
  -- The condition on a key field.
  abbrev pub IsKey : List (String × C) → String × V → Type 0
  IsKey conditions (k, v) =
      (c : C) × (to_db_value v ≡ ok c) × Memᴰ (concat (table_alias ∷ "." ∷ k ∷ []), c) conditions

  pub fields_to_eq_map-IsKey :
      (kvs : List (String × V)) {out : List (String × C)}
      → fields_to_eq_map to_db_value table_alias kvs ≡ ok out
      → Every (IsKey out) kvs
  unfolding fields_to_eq_map
  fields_to_eq_map-IsKey [] q = λ kv m. elim m [ ]
  fields_to_eq_map-IsKey ((k, v) ∷ kvs) q =
      let (c, p, q1) = >>=-eq-ok (to_db_value v) _ q in
      let (rest, p1, q2) = >>=-eq-ok (fields_to_eq_map to_db_value table_alias kvs) _ q1 in
      subst (λ out. Every (IsKey out) ((k, v) ∷ kvs)) (ok_injective q2)
        (Every-cons _ kvs (c, p, Memᴰ.head refl)
          (λ kv m. let (d, r, i) = fields_to_eq_map-IsKey kvs p1 kv m in (d, r, Memᴰ.tail i)))

module _ {V C M : Type 0} (to_db_value : V → Result C) (decimal : ℕ → String)
    (decode decode_joined : String → Result M) where
  read_found-json :
      (gc : Getter) (column : Option String) (joined : List String) {state : M} {elements : List M}
      → read_found to_db_value decimal decode decode_joined gc column joined ≡ ok (state, elements)
      → (json : String) × (column ≡ some json) × (decode json ≡ ok state)
  unfolding read_found
  read_found-json gc none joined q = absurd (ground arith)
  read_found-json gc (some json) joined q =
      let (state, p, q1) = >>=-eq-ok (decode json) _ q in
      let (elements, p1, q2) =
        >>=-eq-ok
          (elim gc.join [
            | none ↦ ok []
            | some j ↦ joined_messages to_db_value decimal decode decode_joined joined
          ])
          _ q1 in
      (json, refl, p ∙ ap ok (ap (λ (o : M × List M). o.0) (ok_injective q2)))

  read_answer-found :
      (gc : Getter) (answer : Option Found) {state : M} {elements : List M}
      → read_answer to_db_value decimal decode decode_joined gc answer ≡ ok (state, elements)
      → (found : Found) × (json : String) × (answer ≡ some found)
        × (found.found_json ≡ some json)
        × (decode json ≡ ok state)
  unfolding read_answer
  read_answer-found gc none q = absurd (ground arith)
  read_answer-found gc (some found) q =
      let (json, a, b) = read_found-json gc found.found_json found.joined_json q in
      (found, json, refl, a, b)

  -- A state that Get answers is decoded from a row that the database has for a query of the getter's
  -- table, with a condition for each field of the primary key. With an AuthProvider, it has answered;
  -- the query joins the tables of its chain, each to the one before it, and has a condition for each of
  -- its claims, on the last of these tables.
  pub get_guarded :
      (gc : Getter) (validated : Result (Unit {0})) (primary_key : Result (List (String × V)))
      (database : GetQuery C → Result (Option Found)) {state : M} {elements : List M}
      → get to_db_value decimal decode decode_joined gc validated primary_key database
        ≡ ok (state, elements)
      → (fields : List (String × V)) × (query : GetQuery C) × (found : Found) × (json : String)
        × (primary_key ≡ ok fields)
        × (query.from ≡ concat (gc.table_name ∷ " AS " ∷ alias_at decimal gc.table_name 1 ∷ []))
        × Every (IsKey to_db_value (alias_at decimal gc.table_name 1) query.keys) fields
        × AreAsked decimal gc gc.auth query.joins query.claims
        × (database query ≡ ok (some found))
        × (found.found_json ≡ some json)
        × (decode json ≡ ok state)
  unfolding get get_query next_alias
  get_guarded gc validated primary_key database q =
      let (u, p, q1) = >>=-eq-ok validated _ q in
      let (fields, p1, q2) = >>=-eq-ok primary_key _ q1 in
      let (query, p2, q3) =
        >>=-eq-ok (get_query to_db_value decimal decode decode_joined gc fields) _ q2 in
      let (answer, p3, q4) = >>=-eq-ok (database query) _ q3 in
      let (found, json, a, b, c) = read_answer-found gc answer q4 in
      let root_alias = next_alias decimal gc.table_name 0 in
      let (keys, k, q5) = >>=-eq-ok (fields_to_eq_map to_db_value root_alias fields) _ p2 in
      let (claimed, l, q6) =
        >>=-eq-ok (get_claims gc (get_auth_joins decimal gc root_alias).1) _ q5 in
      let same = ok_injective q6 in
      (
        fields,
        query,
        found,
        json,
        p1,
        sym (ap (λ (o : GetQuery C). o.from) same),
        subst (λ (o : GetQuery C). Every (IsKey to_db_value root_alias o.keys) fields) same
            (fields_to_eq_map-IsKey to_db_value root_alias fields k),
        subst (λ (o : GetQuery C). AreAsked decimal gc gc.auth o.joins o.claims) same
            (get_claims-AreAsked decimal gc (join_clauses decimal gc root_alias) l),
        p3 ∙ ap ok a,
        b,
        c,
      )
