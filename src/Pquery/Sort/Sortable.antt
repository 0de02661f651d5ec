-- ===== src/Pquery/Sort/Sortable.antt =====
-- Which requested sorts validateQueryRequestSorts of pquery/sort.go accepts, and on which it panics.
use protostate.Common.{
  Bool, true, false, Option, none, some, List, [], ◌∷◌, ◌≡◌, refl, ◌↔◌, Bool-cases, inl, inr,
  str_eq, str_eq_iff, ok, split_dots, All, >>=-eq-ok, arith, guard, not_sortable,
}
use protostate.Proto.{
  Message, Field, Kind, scalar_kind, message_kind, number_kind, bool_kind, string_kind, bytes_kind,
  enum_kind, info_of, FieldConstraint, number_rules, timestamp_rules, OrderedRules, Sorting,
  get_number, get_timestamp, get_number_lem, get_timestamp_lem,
}
use protostate.Pgstore.Nodes.{NodePath}
use protostate.Pgstore.Find.{new_json_path}
use protostate.Pquery.Sort.{
  Sort, sortable_of, is_sortable, check_sortable, check_leaf, validate_sort,
  validate_query_request_sorts,
}

-- The rules say that the field can be sorted by.
abbrev pub SaysSortable : OrderedRules → Type 0
SaysSortable r = (s : Sorting) × (r.sorting ≡ some s) × (s.sortable ≡ true)

-- The constraint has rules of the field's own kind, which is numeric or a timestamp, that say so.
abbrev pub AllowsSorting : Kind → FieldConstraint → Type 0
AllowsSorting (scalar_kind (number_kind t)) c =
    (r : OrderedRules) × (c ≡ number_rules t r) × SaysSortable r
AllowsSorting (scalar_kind bool_kind) c = ⊥
AllowsSorting (scalar_kind string_kind) c = ⊥
AllowsSorting (scalar_kind bytes_kind) c = ⊥
AllowsSorting (scalar_kind (enum_kind first others)) c = ⊥
AllowsSorting (message_kind flat m) c =
    ((info_of m).full_name ≡ "google.protobuf.Timestamp")
    × (r : OrderedRules) × (c ≡ timestamp_rules r)
    × SaysSortable r

-- The requested sort names such a field.
abbrev pub IsSortable : Message → Sort → Type 0
IsSortable m sort =
    (path : NodePath) × (f : Field) × (c : FieldConstraint) × (new_json_path m
        (split_dots sort.field)
      ≡ ok path)
    × (path.leaf_field ≡ some f)
    × (f.info.constraint ≡ some c)
    × AllowsSorting f.kind c

sortable_of_sound :
    (rules : Option OrderedRules)
    → sortable_of rules ≡ ok true
    → (r : OrderedRules) × (rules ≡ some r) × SaysSortable r
unfolding sortable_of
sortable_of_sound none q = absurd (ground arith)
sortable_of_sound (some r) q = there r.sorting refl
  where
    there :
        (x : Option Sorting)
        → r.sorting ≡ x
        → (r' : OrderedRules) × (some r ≡ some r') × SaysSortable r'
    there none p = absurd (ground (arith, p, q))
    there (some s) p = (r, refl, (s, p, ground (arith, p, q)))

sortable_of_complete : (r : OrderedRules) → SaysSortable r → sortable_of (some r) ≡ ok true
unfolding sortable_of
sortable_of_complete r (s, p, q) = rw (p, q) refl

is_sortable_sound : (k : Kind) (c : FieldConstraint) → is_sortable k c ≡ ok true → AllowsSorting k c
unfolding is_sortable
is_sortable_sound (scalar_kind (number_kind t)) c q =
    let (r, p, s) = sortable_of_sound (get_number t c) q in (r, (get_number_lem t c r).0 p, s)
is_sortable_sound (scalar_kind bool_kind) c q = absurd (ground arith)
is_sortable_sound (scalar_kind string_kind) c q = absurd (ground arith)
is_sortable_sound (scalar_kind bytes_kind) c q = absurd (ground arith)
is_sortable_sound (scalar_kind (enum_kind first others)) c q = absurd (ground arith)
is_sortable_sound (message_kind flat m) c q =
    elim (Bool-cases (str_eq (info_of m).full_name "google.protobuf.Timestamp")) [
      | inl e ↦
          let (r, p, s) = sortable_of_sound (get_timestamp c) (ground (arith, e, q)) in
          (
            (str_eq_iff (info_of m).full_name "google.protobuf.Timestamp").0 e,
            r,
            (get_timestamp_lem c r).0 p,
            s,
          )
      | inr e ↦ absurd (ground (arith, e, q))
    ]

is_sortable_complete :
    (k : Kind) (c : FieldConstraint) → AllowsSorting k c → is_sortable k c ≡ ok true
unfolding is_sortable
is_sortable_complete (scalar_kind (number_kind t)) c (r, p, s) =
    rw ((get_number_lem t c r).1 p) (sortable_of_complete r s)
is_sortable_complete (message_kind flat m) c (n, r, p, s) =
    rw ((str_eq_iff (info_of m).full_name "google.protobuf.Timestamp").1 n)
      (rw ((get_timestamp_lem c r).1 p) (sortable_of_complete r s))
is_sortable_complete (scalar_kind bool_kind) c h = elim h [ ]
is_sortable_complete (scalar_kind string_kind) c h = elim h [ ]
is_sortable_complete (scalar_kind bytes_kind) c h = elim h [ ]
is_sortable_complete (scalar_kind (enum_kind first others)) c h = elim h [ ]

check_sortable_sound :
    (k : Kind) (x : Option FieldConstraint) {u : Unit {0}}
    → check_sortable k x ≡ ok u
    → (c : FieldConstraint) × (x ≡ some c) × AllowsSorting k c
unfolding check_sortable
check_sortable_sound k none q = absurd (ground arith)
check_sortable_sound k (some c) q =
    let (sortable, p, holds) = >>=-eq-ok (is_sortable k c) _ q in
    (c, refl, is_sortable_sound k c (true_sortable sortable p holds))
  where
    true_sortable :
        (b : Bool) {u : Unit {0}}
        → is_sortable k c ≡ ok b
        → guard b not_sortable ≡ ok u
        → is_sortable k c ≡ ok true
    true_sortable true p q = p
    true_sortable false p q = absurd (ground arith)

check_leaf_sound :
    (x : Option Field) {u : Unit {0}}
    → check_leaf x ≡ ok u
    → (f : Field) × (c : FieldConstraint) × (x ≡ some f)
      × (f.info.constraint ≡ some c)
      × AllowsSorting f.kind c
unfolding check_leaf
check_leaf_sound none q = absurd (ground arith)
check_leaf_sound (some f) q =
    let (c, p, a) = check_sortable_sound f.kind f.info.constraint q in (f, c, refl, p, a)

validate_sort_sound :
    (m : Message) (sort : Sort) {u : Unit {0}} → validate_sort m sort ≡ ok u → IsSortable m sort
unfolding validate_sort
validate_sort_sound m sort accepted =
    let (path, p, rest) = >>=-eq-ok (new_json_path m (split_dots sort.field)) _ accepted in
    let (f, c, q, s, a) = check_leaf_sound path.leaf_field rest in (path, f, c, p, q, s, a)

validate_sort_complete :
    (m : Message) (sort : Sort) → IsSortable m sort → validate_sort m sort ≡ ok tt
unfolding validate_sort check_leaf check_sortable
validate_sort_complete m sort (path, f, c, p, q, s, a) =
    rw p (rw q (rw s (rw (is_sortable_complete f.kind c a) refl)))

-- validateQueryRequestSorts accepts a request exactly when each of its sorts names a path to a field
-- that is numeric or a timestamp and whose list constraint has rules of that type with Sortable set.
pub validate_query_request_sorts_iff :
    (m : Message) (sorts : List Sort)
    → (validate_query_request_sorts m sorts ≡ ok tt) ↔ All (IsSortable m) sorts
unfolding validate_query_request_sorts
validate_query_request_sorts_iff m sorts = (sound sorts, complete sorts)
  where
    sound :
        (sorts : List Sort)
        → validate_query_request_sorts m sorts ≡ ok tt
        → All (IsSortable m) sorts
    sound [] q = tt
    sound (s ∷ ss) q =
        let (u, p, rest) = >>=-eq-ok (validate_sort m s) _ q in
        (validate_sort_sound m s p, sound ss rest)

    complete :
        (sorts : List Sort)
        → All (IsSortable m) sorts
        → validate_query_request_sorts m sorts ≡ ok tt
    complete [] h = refl
    complete (s ∷ ss) (h, hs) = rw (validate_sort_complete m s h) (complete ss hs)
