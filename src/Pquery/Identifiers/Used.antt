-- ===== src/Pquery/Identifiers/Used.antt =====
-- The maps of search identifiers: the checks and assignments in validateSearchAnnotationsField and
-- validateSearchesAnnotationsInner of pquery/search.go.
use mathlib.Core.Path.{subst}
use protostate.Common.{
  String, ◌≡◌, refl, sym, ◌∙◌, true, none, some, [], ◌∷◌, lookup, without, lookup-without, str_eq,
  ok, >>=-eq-ok, ok_injective, arith, Option-cases, str_eq_iff, Bool-cases, ◌⊎◌, inl, inr,
}
use protostate.Pquery.Identifiers.{Ids, Entry, merge_ids, validate_entry, combine}

-- Identifier `k` is in the map.
abbrev pub Has : String → Ids → Type 0
Has k ids = (used : String) × (lookup k ids ≡ some used)

-- The field adds identifier `k`.
abbrev pub Uses : Entry → String → Type 0
Uses e k = (own : Ids) × (e.own ≡ ok own) × Has k own

pub Has-absent : (k : String) (ids : Ids) → Has k ids → lookup k ids ≡ none → ⊥
Has-absent k ids (used, p) q = ground (arith, p, q)

pub Has-here : (j k used : String) (ids : Ids) → str_eq j k ≡ true → Has k ((j, used) ∷ ids)
unfolding lookup
Has-here j k used ids same = (used, rw same refl)

pub Has-there : (j k used : String) (ids : Ids) → Has k ids → Has k ((j, used) ∷ ids)
unfolding lookup
Has-there j k used ids (u, p) = elim (Bool-cases (str_eq j k)) [
  | inl same ↦ (used, rw same refl)
  | inr same ↦ (u, rw same p)
]

pub Has-split :
    (j k used : String) (ids : Ids) → Has k ((j, used) ∷ ids) → (str_eq j k ≡ true) ⊎ Has k ids
unfolding lookup
Has-split j k used ids (u, p) = elim (Bool-cases (str_eq j k)) [
  | inl same ↦ inl same
  | inr same ↦ inr (u, ground arith)
]

absent-there :
    (j k used : String) (ids : Ids) → lookup k ((j, used) ∷ ids) ≡ none → lookup k ids ≡ none
unfolding lookup
absent-there j k used ids p = ground arith

absent-same :
    (j k : String) (ids : Ids) → str_eq j k ≡ true → lookup j ids ≡ none → lookup k ids ≡ none
absent-same j k ids same p = subst (λ i. lookup i ids ≡ none) ((str_eq_iff j k).0 same) p

merge_ids-cons :
    (j used : String) (own ids : Ids) {out : Ids}
    → merge_ids ((j, used) ∷ own) ids ≡ ok out
    → (lookup j ids ≡ none) × (merge_ids own ((j, used) ∷ ids) ≡ ok out)
unfolding merge_ids
merge_ids-cons j used own ids q = elim (Option-cases (lookup j ids)) [
  | inl p ↦ (p, ground arith)
  | inr (u, p) ↦ absurd (ground arith)
]

merge_ids-Has :
    (own ids : Ids) (k : String) {out : Ids}
    → merge_ids own ids ≡ ok out
    → (Has k ids → Has k out) × (Has k own → (lookup k ids ≡ none) × Has k out)
unfolding merge_ids lookup
merge_ids-Has [] ids k q =
    (λ h. subst (λ o. Has k o) (ok_injective q) h, λ (u, p). absurd (ground arith))
merge_ids-Has ((j, used) ∷ own) ids k q =
    let (absent, q1) = merge_ids-cons j used own ids q in
    let (kept, added) = merge_ids-Has own ((j, used) ∷ ids) k q1 in
    (
      λ h. kept (Has-there j k used ids h),
      λ h. elim (Has-split j k used own h) [
        | inl same ↦ (absent-same j k ids same absent, kept (Has-here j k used ids same))
        | inr later ↦ (absent-there j k used ids (added later).0, (added later).1)
      ],
    )

Has-over : (j k used : String) (ids : Ids) → Has k ids → Has k ((j, used) ∷ without j ids)
unfolding lookup
Has-over j k used ids (u, p) = elim (Bool-cases (str_eq j k)) [
  | inl same ↦ (used, rw same refl)
  | inr other ↦ (u, ground (arith, other, p, lookup-without j k ids))
]

combine-cons :
    (ids : Ids) (j used : String) (branch combined : Ids) {out : Ids}
    → combine ids ((j, used) ∷ branch) combined ≡ ok out
    → (lookup j ids ≡ none) × (combine ids branch ((j, used) ∷ without j combined) ≡ ok out)
unfolding combine
combine-cons ids j used branch combined q = elim (Option-cases (lookup j ids)) [
  | inl p ↦ (p, ground arith)
  | inr (u, p) ↦ absurd (ground arith)
]

pub combine-Has :
    (ids branch combined : Ids) (k : String) {out : Ids}
    → combine ids branch combined ≡ ok out
    → (Has k combined → Has k out) × (Has k branch → (lookup k ids ≡ none) × Has k out)
unfolding combine lookup
combine-Has ids [] combined k q =
    (λ h. subst (λ o. Has k o) (ok_injective q) h, λ (u, p). absurd (ground arith))
combine-Has ids ((j, used) ∷ branch) combined k q =
    let (absent, q1) = combine-cons ids j used branch combined q in
    let (kept, added) = combine-Has ids branch ((j, used) ∷ without j combined) k q1 in
    (
      λ h. kept (Has-over j k used combined h),
      λ h. elim (Has-split j k used branch h) [
        | inl same ↦
            (absent-same j k ids same absent, kept (Has-here j k used (without j combined) same))
        | inr later ↦ added later
      ],
    )

pub absent-before :
    (k : String) (ids more : Ids)
    → (Has k ids → Has k more)
    → lookup k more ≡ none
    → lookup k ids ≡ none
absent-before k ids more kept p = elim (Option-cases (lookup k ids)) [
  | inl q ↦ q
  | inr h ↦ absurd (Has-absent k more (kept h) p)
]

pub validate_entry-Has :
    (e : Entry) (ids : Ids) (k : String) {out : Ids}
    → validate_entry e ids ≡ ok out
    → (Has k ids → Has k out) × (Uses e k → (lookup k ids ≡ none) × Has k out)
unfolding validate_entry
validate_entry-Has e ids k q =
    let (own, p, q1) = >>=-eq-ok e.own _ q in
    let (kept, added) = merge_ids-Has own ids k q1 in
    (kept, λ (other, r, h). added (subst (λ i. Has k i) (ok_injective (sym r ∙ p)) h))
