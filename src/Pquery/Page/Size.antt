-- ===== src/Pquery/Page/Size.antt =====
-- The page sizes that getPageSize of pquery/lister.go accepts.
use protostate.Common.{
  ℕ, ◌%◌, ◌^◌, ◌<◌, ◌≤◌, ◌≡◌, refl, Option, none, some, Result, ok, err, arith, ltb, if◌then◌else◌,
  page_too_large,
}
use protostate.Pquery.Page.{ℤ, pos, negsuc, PageRequest, get_page_size, check_size, to_uint64}

-- Whatever is requested, a page size that is returned is at most the default size.
pub get_page_size-bound :
    (default_page_size : ℕ) (req : Option PageRequest) {size : ℕ}
    → get_page_size default_page_size req ≡ ok size
    → size ≤ default_page_size
unfolding get_page_size
get_page_size-bound default_page_size none q = ground arith
get_page_size-bound default_page_size (some req) {size} q = by_size req.page_size q
  where
    by_size :
        (x : Option ℤ)
        → (let out : Result ℕ = elim x [
          | none ↦ ok default_page_size
          | some n ↦ check_size default_page_size (to_uint64 n)
        ] in
            out)
          ≡ ok size
        → size ≤ default_page_size
    by_size none r = ground arith
    by_size (some n) r = bound (to_uint64 n) r
      where
        bound : (n : ℕ) → check_size default_page_size n ≡ ok size → size ≤ default_page_size
        bound n r = ground arith

-- A negative page size is refused if the default size is an int64.
pub get_page_size-negative :
    (default_page_size : ℕ) (req : PageRequest) (n : ℕ)
    → default_page_size < 2 ^ 63
    → n < 2 ^ 63
    → req.page_size ≡ some (negsuc n)
    → get_page_size default_page_size (some req) ≡ err page_too_large
unfolding get_page_size
get_page_size-negative default_page_size req n d b q = rw q (ground arith)

-- A page size that is not negative is accepted exactly if it is at most the default.
pub get_page_size-pos :
    (default_page_size size : ℕ) (req : PageRequest)
    → size < 2 ^ 63
    → req.page_size ≡ some (pos size)
    → get_page_size default_page_size (some req)
      ≡ (if ltb default_page_size size then err page_too_large else ok size)
unfolding get_page_size
get_page_size-pos default_page_size size req b q = rw q (rw (small size b) refl)
  where
    small : (n : ℕ) → n < 2 ^ 63 → n % 2 ^ 64 ≡ n
    small n b = omega arith
