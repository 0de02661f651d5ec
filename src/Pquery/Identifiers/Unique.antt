-- ===== src/Pquery/Identifiers/Unique.antt =====
-- Which fields of a message have different search identifiers: validateSearchesAnnotationsInner of
-- pquery/search.go.
use mathlib.Core.List.{Memᴰ}
use mathlib.Core.Path.{subst}
use protostate.Common.{
  ℕ, ◌==◌, String, ◌≡◌, refl, sym, ◌∙◌, ap, Bool, true, not, none, some, List, [], ◌∷◌, ◌++◌,
  filter, ok, >>=-eq-ok, mem-append_right, arith, Option-cases, Every, Every-cons, Bool-cases, inl,
  inr,
}
use protostate.Pquery.Identifiers.{
  Ids, Entry, validate_entry, root_ids, oneofs_of, validate_entries,
}
use protostate.Proto.{message, MessageInfo, Fields}
use protostate.Pquery.Identifiers.{validate_message, entries}
use protostate.Pquery.Identifiers.Used.{Has, Uses, Has-absent, validate_entry-Has}
use protostate.Pquery.Identifiers.Apart.{
  root_ids-none, root_ids-some, root_ids-Has, oneof_ids-Has, oneof_ids-apart,
}

mem-filter : (p : ℕ → Bool) (o : ℕ) (os : List ℕ) → p o ≡ true → Memᴰ o os → Memᴰ o (filter p os)
mem-filter p o [] kept m = elim m [ ]
mem-filter p o (q ∷ os) kept (Memᴰ.head a) = rw (sym (ap p a) ∙ kept) (Memᴰ.head a)
mem-filter p o (q ∷ os) kept (Memᴰ.tail m) = elim (Bool-cases (p q)) [
  | inl same ↦ rw same (Memᴰ.tail (mem-filter p o os kept m))
  | inr other ↦ rw other (mem-filter p o os kept m)
]

pub oneofs_of-member :
    (es : List Entry) (o : ℕ) → Every (λ e. e.oneof ≡ some o → Memᴰ o (oneofs_of es)) es
unfolding oneofs_of
oneofs_of-member [] o = λ e m. elim m [ ]
oneofs_of-member (e ∷ es) o = elim (Option-cases e.oneof) [
  | inl p ↦
      Every-cons _ es (λ r. absurd (ground (arith, p, r)))
        (λ f m r. rw p (oneofs_of-member es o f m r))
  | inr (c, p) ↦
      Every-cons _ es (λ r. rw p (Memᴰ.head (ground (arith, p, r))))
        (λ f m r. rw p (elim (Bool-cases (o == c)) [
          | inl same ↦ Memᴰ.head (ground (arith, same))
          | inr other ↦ Memᴰ.tail (
              mem-filter (λ q. not (q == c)) o (oneofs_of es) (ap not other)
                (oneofs_of-member es o f m r))
        ]))
]

-- A field after another one, both in no oneof, that uses the same identifier.
root_ids-apart :
    (k : String) (xs : List Entry) (e f : Entry) (ys : List Entry) (ids : Ids) {out : Ids}
    → root_ids (xs ++ e ∷ ys) ids ≡ ok out
    → Memᴰ f ys
    → e.oneof ≡ none
    → f.oneof ≡ none
    → Uses e k
    → Uses f k
    → ⊥
root_ids-apart k [] e f ys ids q m r s u v =
    let (more, w, q1) = >>=-eq-ok (validate_entry e ids) _ (sym (root_ids-none e ys ids r) ∙ q) in
    Has-absent k more ((validate_entry-Has e ids k w).1 u).1
      ((root_ids-Has k ys more q1).1 f m s v).0
root_ids-apart k (x ∷ xs) e f ys ids q m r s u v = elim (Option-cases x.oneof) [
  | inl p ↦
      let (more, w, q1) =
        >>=-eq-ok (validate_entry x ids) _ (sym (root_ids-none x (xs ++ e ∷ ys) ids p) ∙ q) in
      root_ids-apart k xs e f ys more q1 m r s u v
  | inr (o, p) ↦
      root_ids-apart k xs e f ys ids (sym (root_ids-some x (xs ++ e ∷ ys) ids o p) ∙ q) m r s u v
]

validate_entries_collects :
    (es : List Entry) (e : Entry) (k : String) {out : Ids}
    → validate_entries es ≡ ok out
    → Memᴰ e es
    → Uses e k
    → Has k out
unfolding validate_entries
validate_entries_collects es e k q m u =
    let (ids, p, q1) = >>=-eq-ok (root_ids es []) _ q in
    let (kept, added) = oneof_ids-Has k (oneofs_of es) es ids q1 in
    elim (Option-cases e.oneof) [
      | inl r ↦ kept ((root_ids-Has k es [] p).1 e m r u).1
      | inr (o, r) ↦ (added e m o (oneofs_of-member es o e m r) r u).1
    ]

validate_entries_apart :
    (es : List Entry) (k : String) (xs : List Entry) (e f : Entry) (ys : List Entry) {out : Ids}
    → validate_entries es ≡ ok out
    → es ≡ xs ++ e ∷ ys
    → Memᴰ f ys
    → Uses e k
    → Uses f k
    → (o : ℕ) × (e.oneof ≡ some o) × (f.oneof ≡ some o)
unfolding validate_entries
validate_entries_apart es k xs e f ys q at m u v =
    let (ids, p, q1) = >>=-eq-ok (root_ids es []) _ q in
    let (_, root) = root_ids-Has k es [] p in
    let (_, added) = oneof_ids-Has k (oneofs_of es) es ids q1 in
    let e_in = subst (λ l. Memᴰ e l) (sym at) (mem-append_right xs (e ∷ ys) (Memᴰ.head refl)) in
    let f_in = subst (λ l. Memᴰ f l) (sym at) (mem-append_right xs (e ∷ ys) (Memᴰ.tail m)) in
    elim (Option-cases e.oneof) [
      | inl r ↦ elim (Option-cases f.oneof) [
        | inl s ↦
            absurd (root_ids-apart k xs e f ys [] (sym (ap (λ l. root_ids l []) at) ∙ p) m r s u v)
        | inr (c, s) ↦ absurd (
            Has-absent k ids (root e e_in r u).1
              (added f f_in c (oneofs_of-member es c f f_in s) s v).0)
      ]
      | inr (o, r) ↦ elim (Option-cases f.oneof) [
        | inl s ↦ absurd (
            Has-absent k ids (root f f_in s v).1
              (added e e_in o (oneofs_of-member es o e e_in r) r u).0)
        | inr (c, s) ↦ (
          o,
          r,
          s
              ∙ ap some (
                  sym (
                    oneof_ids-apart k (oneofs_of es) es ids q1 e f e_in f_in o c
                      (oneofs_of-member es o e e_in r) (oneofs_of-member es c f f_in s) r s u v)),
        )
      ]
    ]

-- Accepted search annotations: every identifier that a field of the message adds is in the result.
pub validate_message_collects :
    (info : MessageInfo) (fields : Fields) (e : Entry) (k : String) {out : Ids}
    → validate_message (message info fields) ≡ ok out
    → Memᴰ e (entries fields)
    → Uses e k
    → Has k out
unfolding validate_message
validate_message_collects info fields e k q = validate_entries_collects (entries fields) e k q

-- Accepted search annotations: where two fields of a message, one behind the other, add the same
-- identifier, both are branches of the same oneof.
pub validate_message_apart :
    (info : MessageInfo) (fields : Fields) (k : String) (xs : List Entry) (e f : Entry)
    (ys : List Entry) {out : Ids}
    → validate_message (message info fields) ≡ ok out
    → entries fields ≡ xs ++ e ∷ ys
    → Memᴰ f ys
    → Uses e k
    → Uses f k
    → (o : ℕ) × (e.oneof ≡ some o) × (f.oneof ≡ some o)
unfolding validate_message
validate_message_apart info fields k xs e f ys q =
    validate_entries_apart (entries fields) k xs e f ys q
