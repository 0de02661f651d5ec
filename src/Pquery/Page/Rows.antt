-- ===== src/Pquery/Page/Rows.antt =====
-- A page of a table whose rows can be written and read back: List of pquery/lister.go.
use protostate.Common.{
  ℕ, zero, suc, ◌+◌, ◌^◌, ◌<◌, ◌≤◌, String, ◌≡◌, ◌≢◌, refl, sym, Bool, true, false, Option, none,
  some, List, [], ◌∷◌, map, take, drop, filter, Result, ok, arith, str_eq, str_eq_iff, ltb,
}
use protostate.Pquery.Page.{list_rows, list, start_row, page_request, is_full, as_token, limit_of}
use protostate.Pquery.Page.Size.{get_page_size-pos}

is_full-false : (size idx : ℕ) → idx < size → size < 2 ^ 63 → is_full size idx ≡ false
is_full-false size idx l b = ground arith

is_full-true : (size idx : ℕ) → size ≤ idx → is_full size idx ≡ true
is_full-true size idx l = ground arith

as_token-some : (s : String) → s ≢ "" → as_token s ≡ some s
as_token-some s n = ground (arith, str_eq_iff s "")

module _ {Row Json : Type 0} (unmarshal : Json → Result Row) (encode : Row → Result String)
    (decode : String → Result Row) (json_of : Row → Json) (token_of : Row → String)
    (at_least : Row → Row → Bool) (table : List Row) where
  -- The codecs read back what they write, and no row is written as the empty token.
  abbrev pub RoundTrips : Type 0
  RoundTrips =
      (r : Row)
      → (unmarshal (json_of r) ≡ ok r)
        × (encode r ≡ ok (token_of r))
        × (decode (token_of r) ≡ ok r)
        × (token_of r ≢ "")

  -- The rows from a row on, in the order of the query, whose `>=` condition compares with that row.
  abbrev pub rows_from : Option Row → List Row
  rows_from none = table
  rows_from (some t) = filter (λ r. at_least r t) table

  abbrev pub run : Option Row → ℕ → Result (List Json)
  run start limit = ok (map json_of (take limit (rows_from start)))

  abbrev pub next_token : List Row → Option String
  next_token [] = none
  next_token (r ∷ rs) = some (token_of r)

  list_rows_lem :
      RoundTrips
      → (size idx n : ℕ) (rows : List Row) → size ≡ idx + n
      → size < 2 ^ 63
      → list_rows unmarshal encode decode run size idx (map json_of (take (suc n) rows))
        ≡ ok (take n rows, next_token (drop n rows))
  unfolding list_rows
  list_rows_lem h size idx zero [] e b = refl
  list_rows_lem h size idx zero (r ∷ rs) e b =
      let (u, en, de, ne) = h r in
      rw u
        (rw (is_full-true size idx (omega arith)) (rw en (rw (as_token-some (token_of r) ne) refl)))
  list_rows_lem h size idx (suc n) [] e b = refl
  list_rows_lem h size idx (suc n) (r ∷ rs) e b =
      let (u, en, de, ne) = h r in
      rw u (
        rw (is_full-false size idx (omega arith) b)
          (rw (list_rows_lem h size (suc idx) n rs (omega arith) b) refl))

  -- Where the rows that are left start: at the row of the token, or at the first row.
  abbrev pub Starts : Option String → List Row → Type 0
  Starts none rest = rest ≡ table
  Starts (some s) rest = (r : Row) × (s ≡ token_of r) × (rows_from (some r) ≡ rest)

  limit_lem : (size : ℕ) → size < 2 ^ 63 → limit_of size ≡ suc size
  limit_lem size b = omega arith

  start_lem :
      RoundTrips
      → (size : ℕ) (token : Option String) (rest : List Row) → Starts token rest
      → (start : Option Row) × (start_row unmarshal encode decode run
            (some (page_request unmarshal encode decode run size token))
          ≡ ok start)
        × (rows_from start ≡ rest)
  unfolding start_row
  start_lem h size none rest q = (none, refl, sym q)
  start_lem h size (some s) rest (r, same, from) =
      let (u, en, de, ne) = h r in (some r, rw same (rw (blank (token_of r) ne) (rw de refl)), from)
    where
      blank : (s : String) → s ≢ "" → str_eq s "" ≡ false
      blank s n = ground (arith, str_eq_iff s "")

  -- A page holds as many of the rows that are left as fit, and the token of the row after them.
  pub list_lem :
      RoundTrips
      → (default_page_size size : ℕ) (token : Option String) (rest : List Row)
      → size ≤ default_page_size
      → default_page_size < 2 ^ 63
      → Starts token rest
      → list unmarshal encode decode run default_page_size
          (some (page_request unmarshal encode decode run size token))
        ≡ ok (take size rest, next_token (drop size rest))
  unfolding list
  list_lem h default_page_size size token rest fits b starts =
      let (start, read, from) = start_lem h size token rest starts in
      rw
        (get_page_size-pos default_page_size size
          (page_request unmarshal encode decode run size token) (omega arith) refl)
        (rw (within default_page_size size fits) (
          rw read (
            rw (limit_lem size (omega arith))
              (rw from (list_rows_lem h size 0 size rest (omega arith) (omega arith))))))
    where
      within : (d s : ℕ) → s ≤ d → ltb d s ≡ false
      within d s l = ground arith
