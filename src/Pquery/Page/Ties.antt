-- ===== src/Pquery/Page/Ties.antt =====
-- Paging where the order of the query does not tell rows apart: List of pquery/lister.go.
use protostate.Common.{
  ℕ, zero, suc, ◌^◌, ◌<◌, ◌≤◌, String, ◌≡◌, refl, sym, ap, ◌∙◌, Bool, true, Option, none, some,
  List, [], ◌∷◌, ◌++◌, take, drop, filter, length, All, Result, ok, err, out_of_fuel,
}
use protostate.Pquery.Page.{list, list_all, page_request}
use protostate.Pquery.Page.Rows.{RoundTrips, rows_from, run, Starts, list_lem}

filter-ties :
    {Row : Type 0} (at_least : Row → Row → Bool) (t : Row) (xs zs : List Row)
    → All (λ (s : Row). at_least s t ≡ true) xs
    → filter (λ s. at_least s t) (xs ++ zs) ≡ xs ++ filter (λ s. at_least s t) zs
filter-ties at_least t [] zs a = refl
filter-ties at_least t (x ∷ xs) zs (k, a) =
    rw k (ap (λ ys. x ∷ ys) (filter-ties at_least t xs zs a))

take-front : {Row : Type 0} (xs zs : List Row) → take (length xs) (xs ++ zs) ≡ xs
take-front [] zs = refl
take-front (x ∷ xs) zs = ap (λ ys. x ∷ ys) (take-front xs zs)

drop-front : {Row : Type 0} (xs zs : List Row) → drop (length xs) (xs ++ zs) ≡ zs
drop-front [] zs = refl
drop-front (x ∷ xs) zs = drop-front xs zs

module _ {Row Json : Type 0} (unmarshal : Json → Result Row) (encode : Row → Result String)
    (decode : String → Result Row) (json_of : Row → Json) (token_of : Row → String)
    (at_least : Row → Row → Bool) (xs : List Row) (t : Row) (ys : List Row) where
  abbrev table : List Row
  table = xs ++ t ∷ ys

  abbrev database : Option Row → ℕ → Result (List Json)
  database = run unmarshal encode decode json_of token_of at_least table

  -- From the row of the token on, the rows begin with the first page again.
  from_tie :
      All (λ (s : Row). at_least s t ≡ true) xs
      → at_least t t ≡ true
      → rows_from unmarshal encode decode json_of token_of at_least table (some t)
        ≡ xs ++ t ∷ filter (λ s. at_least s t) ys
  from_tie ties same = filter-ties at_least t xs (t ∷ ys) ties ∙ rw same refl

  page_lem :
      RoundTrips unmarshal encode decode json_of token_of at_least table
      → (default_page_size : ℕ) (token : Option String) (zs : List Row)
      → length xs ≤ default_page_size
      → default_page_size < 2 ^ 63
      → Starts unmarshal encode decode json_of token_of at_least table token (xs ++ t ∷ zs)
      → list unmarshal encode decode database default_page_size
          (some (page_request unmarshal encode decode database (length xs) token))
        ≡ ok (xs, some (token_of t))
  page_lem h default_page_size token zs fits b starts =
      list_lem unmarshal encode decode json_of token_of at_least table h default_page_size
        (length xs) token (xs ++ t ∷ zs) fits b starts
      ∙ rw (take-front xs (t ∷ zs)) (rw (drop-front xs (t ∷ zs)) refl)

  -- Once the token is the tie's, no number of further pages is enough.
  endless :
      RoundTrips unmarshal encode decode json_of token_of at_least table
      → All (λ (s : Row). at_least s t ≡ true) xs
      → at_least t t ≡ true
      → (default_page_size fuel : ℕ) → length xs ≤ default_page_size
      → default_page_size < 2 ^ 63
      → list_all unmarshal encode decode database fuel default_page_size
          (length xs)
          (some (token_of t))
        ≡ err out_of_fuel
  unfolding list_all
  endless h ties same default_page_size zero fits b = refl
  endless h ties same default_page_size (suc fuel) fits b =
      rw
        (page_lem h default_page_size (some (token_of t)) (filter (λ s. at_least s t) ys) fits b
          (t, refl, from_tie ties same))
        (rw (endless h ties same default_page_size fuel fits b) refl)

  endless_from_start :
      RoundTrips unmarshal encode decode json_of token_of at_least table
      → All (λ (s : Row). at_least s t ≡ true) xs
      → at_least t t ≡ true
      → (default_page_size fuel : ℕ) → length xs ≤ default_page_size
      → default_page_size < 2 ^ 63
      → list_all unmarshal encode decode database fuel default_page_size (length xs) none
        ≡ err out_of_fuel
  unfolding list_all
  endless_from_start h ties same default_page_size zero fits b = refl
  endless_from_start h ties same default_page_size (suc fuel) fits b =
      rw (page_lem h default_page_size none ys fits b refl)
        (rw (endless h ties same default_page_size fuel fits b) refl)

  -- If the row after a first full page is not less than any row of that page in the order of the query,
  -- then a client that asks for pages until there is no next token never comes to an end: the page after
  -- the first is the first page again, with the same token. In particular a page size of 0 does this for
  -- every table that is not empty.
  pub list_all-ties :
      RoundTrips unmarshal encode decode json_of token_of at_least table
      → All (λ (s : Row). at_least s t ≡ true) xs
      → at_least t t ≡ true
      → (default_page_size : ℕ) → length xs ≤ default_page_size
      → default_page_size < 2 ^ 63
      → (list unmarshal encode decode database default_page_size
            (some (page_request unmarshal encode decode database (length xs) (some (token_of t))))
          ≡ list unmarshal encode decode database default_page_size
              (some (page_request unmarshal encode decode database (length xs) none)))
        × ((fuel : ℕ)
            → list_all unmarshal encode decode database fuel default_page_size (length xs) none
              ≡ err out_of_fuel)
  list_all-ties h ties same default_page_size fits b = (
    page_lem h default_page_size (some (token_of t)) (filter (λ s. at_least s t) ys) fits b
          (t, refl, from_tie ties same)
        ∙ sym (page_lem h default_page_size none ys fits b refl),
    λ fuel. endless_from_start h ties same default_page_size fuel fits b,
  )
