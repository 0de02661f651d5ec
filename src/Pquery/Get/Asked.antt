-- ===== src/Pquery/Get/Asked.antt =====
-- The tables and the claims that Get of pquery/getter.go asks for an AuthProvider, described without its
-- loops.
use mathlib.Core.List.{Memᴰ}
use protostate.Common.{
  ℕ, ◌+◌, String, ◌++◌, map, join, ◌≡◌, refl, ap, Option, none, some, List, [], ◌∷◌, Result, ok,
  ◌>>=◌, >>=-eq-ok, ok_injective, Every, Every-cons, mem-append_left,
}
use mathlib.Core.Path.{subst}
use protostate.Pgstore.Print.{concat}
use protostate.Pquery.Join.{JoinField, LeftJoin, join_conditions, join_sql, next_alias}
use protostate.Pquery.Build.{qualify, join_tables}
use protostate.Pquery.Get.{Getter, get_auth_joins, get_claims}

-- The alias of the n-th table of a query
abbrev pub alias_at : (ℕ → String) → String → ℕ → String
alias_at decimal name n = concat ("_" ∷ name ∷ "__a" ∷ decimal n ∷ [])

-- The alias of the last table of a chain, of which the n-th has the given name.
abbrev pub last_alias : (ℕ → String) → String → ℕ → List LeftJoin → String
last_alias decimal name n [] = alias_at decimal name n
last_alias decimal name n (j ∷ js) = last_alias decimal j.table_name (n + 1) js

abbrev pub column_text : String → String → JoinField → String
column_text prior joined c =
    concat (joined ∷ "." ∷ c.join_column ∷ " = " ∷ prior ∷ "." ∷ c.root_column ∷ [])

-- "<table> AS <alias> ON <alias>.<column> = <prior>.<column> AND …"
abbrev pub join_text : String → String → LeftJoin → String
join_text prior joined j = concat (
    j.table_name
    ∷ " AS "
    ∷ joined
    ∷ " ON "
    ∷ join " AND " (map (column_text prior joined) j.on)
    ∷ [])

-- Every table of the chain behind the n-th is joined to the one before it.
abbrev pub AreJoined : (ℕ → String) → String → ℕ → List LeftJoin → List String → Type 0
AreJoined decimal name n [] clauses = Unit
AreJoined decimal name n (j ∷ js) clauses =
    Memᴰ (join_text (alias_at decimal name n) (alias_at decimal j.table_name (n + 1)) j) clauses
    × AreJoined decimal j.table_name (n + 1) js clauses

-- The condition on a claim
abbrev pub IsClaim : String → List (String × String) → String × String → Type 0
IsClaim table_alias conditions (k, v) = Memᴰ (concat (table_alias ∷ "." ∷ k ∷ []), v) conditions

-- The claims of an AuthProvider, if there is one, are all conditions on the last of the tables that it
-- is joined by; a provider that fails has none.
abbrev pub AreAsked :
    (ℕ → String)
    → Getter
    → Option (Result (List (String × String)))
    → List String
    → List (String × String)
    → Type 0
AreAsked decimal gc none clauses conditions = Unit
AreAsked decimal gc (some outcome) clauses conditions =
    AreJoined decimal gc.table_name 1 gc.auth_join clauses
    × ((pairs : List (String × String)) × (outcome ≡ ok pairs)
        × Every (IsClaim (last_alias decimal gc.table_name 1 gc.auth_join) conditions) pairs)

join_conditions-map :
    (prior joined : String) (on : List JoinField)
    → join_conditions prior joined on ≡ map (column_text prior joined) on
join_conditions-map prior joined [] = refl
join_conditions-map prior joined (c ∷ on) =
    ap (λ rest. column_text prior joined c ∷ rest) (join_conditions-map prior joined on)

join_tables-alias :
    (decimal : ℕ → String) (name : String) (n : ℕ) (js : List LeftJoin)
    → (join_tables decimal n (alias_at decimal name n) js).1 ≡ last_alias decimal name n js
unfolding join_tables next_alias
join_tables-alias decimal name n [] = refl
join_tables-alias decimal name n (j ∷ js) = join_tables-alias decimal j.table_name (n + 1) js

AreJoined-more :
    (decimal : ℕ → String) (name : String) (n : ℕ) (js : List LeftJoin) (clauses more : List String)
    → ((s : String) → Memᴰ s clauses → Memᴰ s more)
    → AreJoined decimal name n js clauses
    → AreJoined decimal name n js more
AreJoined-more decimal name n [] clauses more kept a = tt
AreJoined-more decimal name n (j ∷ js) clauses more kept a =
    (kept _ a.0, AreJoined-more decimal j.table_name (n + 1) js clauses more kept a.1)

join_tables-AreJoined :
    (decimal : ℕ → String) (name : String) (n : ℕ) (js : List LeftJoin)
    → AreJoined decimal name n js (join_tables decimal n (alias_at decimal name n) js).0
unfolding join_tables next_alias join_sql
join_tables-AreJoined decimal name n [] = tt
join_tables-AreJoined decimal name n (j ∷ js) =
    let joined = alias_at decimal j.table_name (n + 1) in
    (
      Memᴰ.head (rw (join_conditions-map (alias_at decimal name n) joined j.on) refl),
      AreJoined-more decimal j.table_name (n + 1) js (join_tables decimal (n + 1) joined js).0
          (join_tables decimal n (alias_at decimal name n) (j ∷ js)).0 (λ s m. Memᴰ.tail m)
          (join_tables-AreJoined decimal j.table_name (n + 1) js),
    )

qualify-IsClaim :
    (table_alias : String) (pairs : List (String × String))
    → Every (IsClaim table_alias (qualify table_alias pairs)) pairs
qualify-IsClaim table_alias [] = λ claim m. elim m [ ]
qualify-IsClaim table_alias ((k, v) ∷ pairs) =
    Every-cons _ pairs (Memᴰ.head refl)
      (λ claim m. Memᴰ.tail (qualify-IsClaim table_alias pairs claim m))

module _ (decimal : ℕ → String) where
  abbrev joins_of : Getter → Option (Result (List (String × String))) → List String × String
  joins_of gc auth = elim auth [
    | none ↦ ([], alias_at decimal gc.table_name 1)
    | some a ↦ join_tables decimal 1 (alias_at decimal gc.table_name 1) gc.auth_join
  ]

  -- The joins and the claims for the outcome of an AuthProvider
  asked_of :
      (gc : Getter) (auth : Option (Result (List (String × String)))) (later : List String)
      {conditions : List (String × String)}
      → (let joined = joins_of gc auth in
          let out : Result (List (String × String)) = elim auth [
            | none ↦ ok []
            | some outcome ↦ outcome >>= λ pairs. ok (qualify joined.1 pairs)
          ] in
          out)
        ≡ ok conditions
      → AreAsked decimal gc auth ((joins_of gc auth).0 ++ later) conditions
  asked_of gc none later q = tt
  asked_of gc (some outcome) later {conditions} q =
      let (pairs, p, q1) = >>=-eq-ok outcome _ q in
      let name = gc.table_name in
      let joined = join_tables decimal 1 (alias_at decimal name 1) gc.auth_join in
      (
        AreJoined-more decimal name 1 gc.auth_join joined.0 (joined.0 ++ later)
            (λ s m. mem-append_left joined.0 later m)
            (join_tables-AreJoined decimal name 1 gc.auth_join),
        (
          pairs,
          p,
          subst (λ a. Every (IsClaim a conditions) pairs)
              (join_tables-alias decimal name 1 gc.auth_join)
              (subst (λ cs. Every (IsClaim joined.1 cs) pairs) (ok_injective q1)
                (qualify-IsClaim joined.1 pairs)),
        ),
      )

  pub get_claims-AreAsked :
      (gc : Getter) (later : List String) {conditions : List (String × String)}
      → get_claims gc (get_auth_joins decimal gc (next_alias decimal gc.table_name 0)).1
        ≡ ok conditions
      → AreAsked decimal gc gc.auth
          ((get_auth_joins decimal gc (next_alias decimal gc.table_name 0)).0 ++ later)
          conditions
  unfolding get_claims get_auth_joins next_alias
  get_claims-AreAsked gc later q = asked_of gc gc.auth later q
