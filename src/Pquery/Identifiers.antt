-- ===== src/Pquery/Identifiers.antt =====
-- The search annotations of a message: validateSearchesAnnotationsInner and
-- validateSearchAnnotationsField of pquery/search.go.
pub mod Used
pub mod Apart
pub mod Unique
pub mod Nested
use protostate.Common.{
  ℕ, ◌==◌, String, Bool, true, false, not, Option, none, some, List, [], ◌∷◌, ◌++◌, filter, lookup,
  without, str_eq, if◌then◌else◌, Result, ok, err, ◌>>=◌, no_identifier, identifier_used,
}
use protostate.Proto.{
  Message, message, Fields, no_fields, scalar, nested, FieldConstraint, string_rules, open_text,
  ScalarKind, string_kind,
}
use protostate.Pgstore.Print.{concat}

-- Identifiers, with the names of the fields that use them
abbrev pub Ids : Type 0
Ids = List (String × String)

-- A field: the index of its oneof, and the identifiers that it adds.
pub record Entry : Type 0 where
  pub oneof : Option ℕ
  pub own : Result Ids

-- The checks and the assignments to `ids`.
unfoldable pub merge_ids : Ids → Ids → Result Ids
unfolding lookup
merge_ids [] ids = ok ids
merge_ids ((k, used) ∷ own) ids = elim (lookup k ids) [
  | none ↦ merge_ids own ((k, used) ∷ ids)
  | some existing ↦ err identifier_used
]

-- validateSearchAnnotationsField
unfoldable pub validate_entry : Entry → Ids → Result Ids
unfolding merge_ids
validate_entry e ids = do own ← e.own; merge_ids own ids

-- The loop over the fields, for those in no oneof.
unfoldable pub root_ids : List Entry → Ids → Result Ids
unfolding validate_entry
root_ids [] ids = ok ids
root_ids (e ∷ es) ids = elim e.oneof [
  | some o ↦ root_ids es ids
  | none ↦ validate_entry e ids >>= λ more. root_ids es more
]

abbrev pub is_in : ℕ → Option ℕ → Bool
is_in o none = false
is_in o (some p) = p == o

-- The loop over the identifiers of a branch.
unfoldable pub combine : Ids → Ids → Ids → Result Ids
unfolding lookup without
combine ids [] combined = ok combined
combine ids ((k, used) ∷ branch) combined = elim (lookup k ids) [
  | none ↦ combine ids branch ((k, used) ∷ without k combined)
  | some existing ↦ err identifier_used
]

-- The loop over the branches of a oneof.
unfoldable pub branch_ids : ℕ → Ids → List Entry → Ids → Result Ids
unfolding validate_entry combine
branch_ids o ids [] combined = ok combined
branch_ids o ids (e ∷ es) combined = elim (is_in o e.oneof) [
  | false ↦ branch_ids o ids es combined
  | true ↦ validate_entry e [] >>= λ branch.
      combine ids branch combined >>= λ more. branch_ids o ids es more
]

-- The keys of the map of the oneofs.
unfoldable pub oneofs_of : List Entry → List ℕ
oneofs_of [] = []
oneofs_of (e ∷ es) =
    let rest = oneofs_of es in
    elim e.oneof [ none ↦ rest | some o ↦ o ∷ filter (λ p. not (p == o)) rest ]

-- The loop over the oneofs.
unfoldable pub oneof_ids : List ℕ → List Entry → Ids → Result Ids
unfolding branch_ids
oneof_ids [] es ids = ok ids
oneof_ids (o ∷ os) es ids = branch_ids o ids es [] >>= λ combined. oneof_ids os es (combined ++ ids)

-- validateSearchesAnnotationsInner
unfoldable pub validate_entries : List Entry → Result Ids
unfolding root_ids oneofs_of oneof_ids
validate_entries es = do ids ← root_ids es []; oneof_ids (oneofs_of es) es ids

-- What a text field adds.
unfoldable pub text_ids : String → Option FieldConstraint → Result Ids
text_ids name (some (string_rules (open_text (some o)))) =
    if o.searchable
    then (if str_eq o.field_identifier ""
        then err no_identifier
        else ok ((o.field_identifier, name) ∷ []))
    else ok []
text_ids name c = ok []

abbrev pub scalar_ids : ScalarKind → String → Option FieldConstraint → Result Ids
scalar_ids string_kind name c = text_ids name c
scalar_ids k name c = ok []

abbrev pub used_below : String → Ids → Ids
used_below name [] = []
used_below name ((k, used) ∷ ids) = (k, concat (name ∷ "." ∷ used ∷ [])) ∷ used_below name ids

unfoldable mutual
  unfolding validate_entries text_ids

  pub validate_message : Message → Result Ids
  validate_message (message info fields) = validate_entries (entries fields)

  pub entries : Fields → List Entry
  entries no_fields = []
  entries (scalar info k rest) =
      record { oneof = info.containing_oneof; own = scalar_ids k info.name info.constraint }
      ∷ entries rest
  entries (nested info flat m rest) =
      record {
        oneof = info.containing_oneof;
        own = validate_message m >>= λ ids. ok (used_below info.name ids);
      }
      ∷ entries rest
