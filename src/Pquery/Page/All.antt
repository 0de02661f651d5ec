-- ===== src/Pquery/Page/All.antt =====
-- Reading a table page by page: List of pquery/lister.go, called until there is no next token.
use mathlib.Core.Path.{subst}
use protostate.Common.{
  ℕ, zero, suc, ◌^◌, ◌<◌, ◌≤◌, String, ◌≡◌, refl, sym, ap, ◌∙◌, Bool, true, false, Option, none,
  some, List, [], ◌∷◌, ◌++◌, take, drop, filter, take-drop, length, length-drop, append_assoc,
  append-nil, All, Result, ok, ◌>>=◌, arith,
}
use protostate.Pquery.Page.{list_all}
use protostate.Pquery.Page.Rows.{RoundTrips, rows_from, run, next_token, Starts, list_lem}

module _ {Row : Type 0} (at_least : Row → Row → Bool) where
  -- The rows are in the order of the query, which distinguishes any two of them.
  abbrev pub IsStrict : List Row → Type 0
  IsStrict [] = Unit
  IsStrict (r ∷ rs) =
      All (λ (s : Row). (at_least s r ≡ true) × (at_least r s ≡ false)) rs
      × (at_least r r ≡ true)
      × IsStrict rs

  filter_kept :
      (r : Row) (ys : List Row)
      → All (λ (s : Row). (at_least s r ≡ true) × (at_least r s ≡ false)) ys
      → filter (λ s. at_least s r) ys ≡ ys
  filter_kept r [] a = refl
  filter_kept r (y ∷ ys) ((k, n), a) = rw k (ap (λ zs. y ∷ zs) (filter_kept r ys a))

  before :
      (x r : Row) (xs ys : List Row)
      → All (λ (s : Row). (at_least s x ≡ true) × (at_least x s ≡ false)) (xs ++ r ∷ ys)
      → at_least x r ≡ false
  before x r [] ys ((k, n), a) = n
  before x r (z ∷ xs) ys (h, a) = before x r xs ys a

  filter-from :
      (xs : List Row) (r : Row) (ys : List Row)
      → IsStrict (xs ++ r ∷ ys)
      → filter (λ s. at_least s r) (xs ++ r ∷ ys) ≡ r ∷ ys
  filter-from [] r ys (a, same, s) = rw same (ap (λ zs. r ∷ zs) (filter_kept r ys a))
  filter-from (x ∷ xs) r ys (a, same, s) = rw (before x r xs ys a) (filter-from xs r ys s)

module _ {Row Json : Type 0} (unmarshal : Json → Result Row) (encode : Row → Result String)
    (decode : String → Result Row) (json_of : Row → Json) (token_of : Row → String)
    (at_least : Row → Row → Bool) (table : List Row) where
  abbrev database : Option Row → ℕ → Result (List Json)
  database = run unmarshal encode decode json_of token_of at_least table

  -- One page more, if all that is left after it is read.
  after_page :
      IsStrict at_least table
      → (default_page_size size fuel : ℕ) (xs rest : List Row) → 1 ≤ size
      → table ≡ xs ++ rest
      → length rest < suc fuel
      → ((token : Option String) (ys later : List Row)
          → table ≡ ys ++ later
          → Starts unmarshal encode decode json_of token_of at_least table token later
          → length later < fuel
          → list_all unmarshal encode decode database fuel default_page_size size token ≡ ok later)
      → (d : List Row) → drop size rest ≡ d
      → (let out : Result (List Row) =
            elim (next_token unmarshal encode decode json_of token_of at_least table d) [
              | none ↦ ok (take size rest)
              | some t ↦
                  list_all unmarshal encode decode database fuel default_page_size size (some t)
                  >>= λ more. ok (take size rest ++ more)
            ] in
          out)
        ≡ ok rest
  after_page strict default_page_size size fuel xs rest some_size split l later [] q =
      ap ok (sym (append-nil (take size rest)) ∙ (rw (← q) (take-drop size rest)))
  after_page strict default_page_size size fuel xs rest some_size split l later (r ∷ ds) q =
      let whole = take-drop size rest in
      let parts : table ≡ (xs ++ take size rest) ++ r ∷ ds =
        split
        ∙ (ap (λ zs. xs ++ zs) (sym whole)
            ∙ (sym (append_assoc xs (take size rest) (drop size rest))
                ∙ ap (λ zs. (xs ++ take size rest) ++ zs) q)) in
      let start : rows_from unmarshal encode decode json_of token_of at_least table (some r)
          ≡ r ∷ ds =
        subst (λ t. filter (λ s. at_least s r) t ≡ r ∷ ds) (sym parts)
          (filter-from at_least (xs ++ take size rest) r ds
            (subst (IsStrict at_least) parts strict)) in
      let fewer : length (r ∷ ds) < fuel =
        omega (arith, length-drop size rest, ap length q, l, some_size) in
      rw (later (some (token_of r)) (xs ++ take size rest) (r ∷ ds) parts (r, refl, start) fewer)
        (ap ok (ap (λ zs. take size rest ++ zs) (sym q) ∙ whole))

  -- A client that asks for pages until there is no next token, in a table of which no two rows are equal
  -- in the order of the query, gets each row once and in that order. It asks for at most one page more
  -- than there are rows; the page size is at least 1 and at most the default, which is an int64. The
  -- codecs read back what they write, and no row has the empty token.
  pub list_all_complete :
      RoundTrips unmarshal encode decode json_of token_of at_least table
      → IsStrict at_least table
      → (default_page_size size fuel : ℕ) → 1 ≤ size
      → size ≤ default_page_size
      → default_page_size < 2 ^ 63
      → length table < fuel
      → list_all unmarshal encode decode database fuel default_page_size size none ≡ ok table
  unfolding list_all
  list_all_complete h strict default_page_size size fuel some_size fits b enough =
      from fuel none [] table refl refl enough
    where
      from :
          (fuel : ℕ) (token : Option String) (xs rest : List Row)
          → table ≡ xs ++ rest
          → Starts unmarshal encode decode json_of token_of at_least table token rest
          → length rest < fuel
          → list_all unmarshal encode decode database fuel default_page_size size token ≡ ok rest
      from zero token xs rest split starts l = absurd (omega (arith, l))
      from (suc fuel) token xs rest split starts l =
          rw
            (list_lem unmarshal encode decode json_of token_of at_least table h default_page_size
              size token rest fits b starts)
            (after_page strict default_page_size size fuel xs rest some_size split l
              (λ t ys later e st m. from fuel t ys later e st m) (drop size rest) refl)
