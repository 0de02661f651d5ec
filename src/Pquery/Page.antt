-- ===== src/Pquery/Page.antt =====
-- Paging: getPageSize of pquery/lister.go, and List from the rows that the database answers on.
pub mod Size
pub mod Rows
pub mod All
pub mod Ties
use protostate.Common.{
  ℕ, suc, ◌+◌, ◌-◌, ◌%◌, ◌^◌, ltb, String, Bool, true, false, Option, none, some, List, [], ◌∷◌,
  str_eq, if◌then◌else◌, Result, ok, err, ◌>>=◌, page_too_large, zero, ◌++◌, out_of_fuel,
}

-- An int64
pub data ℤ : Type 0 where
  pos negsuc : ℕ → ℤ

-- uint64(x)
abbrev pub to_uint64 : ℤ → ℕ
to_uint64 (pos n) = n % 2 ^ 64
to_uint64 (negsuc n) = 2 ^ 64 - 1 - n % 2 ^ 64

-- list_j5pb.PageRequest
pub record PageRequest : Type 0 where
  pub token : String
  pub page_size : Option ℤ

abbrev pub check_size : ℕ → ℕ → Result ℕ
check_size default_page_size size =
    if ltb default_page_size size then err page_too_large else ok size

-- getPageSize, for a message that may be nil
unfoldable pub get_page_size : ℕ → Option PageRequest → Result ℕ
get_page_size default_page_size none = ok default_page_size
get_page_size default_page_size (some req) = elim req.page_size [
  | none ↦ ok default_page_size
  | some size ↦ check_size default_page_size (to_uint64 size)
]

-- `idx >= int(pageSize)`: a size above the largest int is a negative int.
abbrev pub is_full : ℕ → ℕ → Bool
is_full size idx = if ltb size (2 ^ 63) then (if ltb idx size then false else true) else true

-- `uint64` of the limit, `pageSize + 1`
abbrev pub limit_of : ℕ → ℕ
limit_of size = (size + 1) % 2 ^ 64

-- A token that is "" is not set in the response.
abbrev pub as_token : String → Option String
as_token s = if str_eq s "" then none else some s

-- protojson.Unmarshal of a row, proto.Marshal and base64 to a token and back, and what the database
-- answers, or how it fails, to the query that BuildQuery builds for the row of a token and a limit.
module _ {Row Json : Type 0} (unmarshal : Json → Result Row) (encode : Row → Result String)
    (decode : String → Result Row) (run : Option Row → ℕ → Result (List Json)) where
  -- The loop over the rows in List
  unfoldable pub list_rows : ℕ → ℕ → List Json → Result (List Row × Option String)
  list_rows size idx [] = ok ([], none)
  list_rows size idx (json ∷ rest) =
      let later = list_rows size (suc idx) rest in
      unmarshal json >>= λ row.
      if is_full size idx
      then (encode row >>= λ token. ok ([], as_token token))
      else (later >>= λ out. ok (row ∷ out.0, out.1))

  -- `reqPage.GetToken() != ""`
  unfoldable pub start_row : Option PageRequest → Result (Option Row)
  start_row none = ok none
  start_row (some req) =
      if str_eq req.token "" then ok none else do row ← decode req.token; ok (some row)

  -- List, behind the validation of the request: the rows of the page, and the token of the next one. The
  -- transaction runs once; the rows that List would keep from an attempt that failed are left out.
  unfoldable pub list : ℕ → Option PageRequest → Result (List Row × Option String)
  unfolding get_page_size start_row list_rows
  list default_page_size req = do
    size ← get_page_size default_page_size req
    start ← start_row req
    answered ← run start (limit_of size)
    list_rows size 0 answered

  abbrev pub page_request : ℕ → Option String → PageRequest
  page_request size token = record {
    token = elim token [ none ↦ "" | some t ↦ t ];
    page_size = some (pos size);
  }

  -- A client that asks for pages of one size until there is no next token; it is out of fuel if there
  -- are more pages than the first number.
  unfoldable pub list_all : ℕ → ℕ → ℕ → Option String → Result (List Row)
  unfolding list
  list_all zero default_page_size size token = err out_of_fuel
  list_all (suc fuel) default_page_size size token = do
    (rows, next) ← list default_page_size (some (page_request size token))
    elim next [
      | none ↦ ok rows
      | some t ↦ do more ← list_all fuel default_page_size size (some t); ok (rows ++ more)
    ]
