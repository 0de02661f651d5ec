-- ===== src/Pquery/Identifiers/Nested.antt =====
-- The search annotations in the messages that a message holds: validateSearchesAnnotationsInner and
-- validateSearchAnnotationsField of pquery/search.go.
use mathlib.Core.List.{Memᴰ}
use mathlib.Core.Path.{subst}
use protostate.Common.{
  ℕ, String, ◌≡◌, refl, sym, ◌∙◌, true, none, some, List, [], ◌∷◌, lookup, str_eq, str_eq_iff, ok,
  >>=-eq-ok, ok_injective, Every, Every-cons, Option-cases, Bool-cases, inl, inr, arith,
}
use protostate.Proto.{
  Message, message, MessageInfo, Fields, scalar, nested, FieldInfo, Searching, ScalarKind,
  string_kind, string_rules, open_text,
}
use protostate.Pquery.Identifiers.{
  Ids, Entry, validate_entry, root_ids, combine, is_in, branch_ids, oneofs_of, oneof_ids,
  validate_entries, text_ids, used_below, validate_message, entries,
}
use protostate.Pquery.Identifiers.Used.{Has, Has-here, Has-there, Has-split}
use protostate.Pquery.Identifiers.Apart.{
  root_ids-none, root_ids-some, branch_ids-in, branch_ids-out, is_in_self,
}
use protostate.Pquery.Identifiers.Unique.{oneofs_of-member, validate_message_collects}

-- The field is accepted by itself.
abbrev Gives : Entry → Type 0
Gives e = (own : Ids) × (e.own ≡ ok own)

validate_entry-Gives : (e : Entry) (ids : Ids) {out : Ids} → validate_entry e ids ≡ ok out → Gives e
unfolding validate_entry
validate_entry-Gives e ids q = let (own, p, _) = >>=-eq-ok e.own _ q in (own, p)

root_ids-Gives :
    (es : List Entry) (ids : Ids) {out : Ids}
    → root_ids es ids ≡ ok out
    → Every (λ e. e.oneof ≡ none → Gives e) es
root_ids-Gives [] ids q = λ e m. elim m [ ]
root_ids-Gives (e ∷ es) ids q = elim (Option-cases e.oneof) [
  | inl p ↦
      let (more, v, q1) = >>=-eq-ok (validate_entry e ids) _ (sym (root_ids-none e es ids p) ∙ q) in
      Every-cons _ es (λ r. validate_entry-Gives e ids v) (root_ids-Gives es more q1)
  | inr (o, p) ↦
      Every-cons _ es (λ r. absurd (ground (arith, p, r)))
        (root_ids-Gives es ids (sym (root_ids-some e es ids o p) ∙ q))
]

branch_ids-Gives :
    (o : ℕ) (ids : Ids) (es : List Entry) (combined : Ids) {out : Ids}
    → branch_ids o ids es combined ≡ ok out
    → Every (λ e. e.oneof ≡ some o → Gives e) es
branch_ids-Gives o ids [] combined q = λ e m. elim m [ ]
branch_ids-Gives o ids (e ∷ es) combined q = elim (Bool-cases (is_in o e.oneof)) [
  | inl p ↦
      let (branch, v, q1) =
        >>=-eq-ok (validate_entry e []) _ (sym (branch_ids-in o ids e es combined p) ∙ q) in
      let (more, w, q2) = >>=-eq-ok (combine ids branch combined) _ q1 in
      Every-cons _ es (λ r. validate_entry-Gives e [] v) (branch_ids-Gives o ids es more q2)
  | inr p ↦
      Every-cons _ es (λ r. absurd (ground (arith, p, is_in_self o e.oneof r)))
        (branch_ids-Gives o ids es combined (sym (branch_ids-out o ids e es combined p) ∙ q))
]

oneof_ids-Gives :
    (os : List ℕ) (es : List Entry) (ids : Ids) {out : Ids}
    → oneof_ids os es ids ≡ ok out
    → (e : Entry) → Memᴰ e es
    → Every (λ o. e.oneof ≡ some o → Gives e) os
unfolding oneof_ids
oneof_ids-Gives [] es ids q e m = λ o i. elim i [ ]
oneof_ids-Gives (p ∷ os) es ids q e m =
    let (combined, b, q1) = >>=-eq-ok (branch_ids p ids es []) _ q in
    Every-cons _ os (branch_ids-Gives p ids es [] b e m) (oneof_ids-Gives os es _ q1 e m)

validate_entries-Gives :
    (es : List Entry) {out : Ids} → validate_entries es ≡ ok out → Every Gives es
unfolding validate_entries
validate_entries-Gives es q e m =
    let (ids, p, q1) = >>=-eq-ok (root_ids es []) _ q in
    elim (Option-cases e.oneof) [
      | inl r ↦ root_ids-Gives es [] p e m r
      | inr (o, r) ↦ oneof_ids-Gives (oneofs_of es) es ids q1 e m o (oneofs_of-member es o e m r) r
    ]

module _ (k : String) where
  -- A text field that is annotated as searchable by the identifier `k` is among the fields, or among
  -- those of a message that one of them holds.
  pub data IsAnnotated : Fields → Type 0 where
    here :
        {info : FieldInfo} {rest : Fields} {o : Searching}
        → info.constraint ≡ some (string_rules (open_text (some o)))
        → o.searchable ≡ true
        → o.field_identifier ≡ k
        → IsAnnotated (scalar info string_kind rest)
    after_scalar :
        {info : FieldInfo} {kind : ScalarKind} {rest : Fields}
        → IsAnnotated rest
        → IsAnnotated (scalar info kind rest)
    inside :
        {info : FieldInfo} {flat : _} {i : MessageInfo} {fields rest : Fields}
        → IsAnnotated fields
        → IsAnnotated (nested info flat (message i fields) rest)
    after_nested :
        {info : FieldInfo} {flat : _} {m : Message} {rest : Fields}
        → IsAnnotated rest
        → IsAnnotated (nested info flat m rest)

  -- One of the fields adds `k`, if it is accepted.
  abbrev Adds : Fields → Type 0
  Adds fields = (e : Entry) × Memᴰ e (entries fields) × ((own : Ids) → e.own ≡ ok own → Has k own)

  Has-used_below : (name : String) (ids : Ids) → Has k ids → Has k (used_below name ids)
  unfolding lookup
  Has-used_below name [] h = h
  Has-used_below name ((j, used) ∷ ids) h = elim (Has-split j k used ids h) [
    | inl same ↦ Has-here j k _ (used_below name ids) same
    | inr later ↦ Has-there j k _ (used_below name ids) (Has-used_below name ids later)
  ]

  from_Adds :
      (info : MessageInfo) (fields : Fields) {out : Ids}
      → validate_message (message info fields) ≡ ok out
      → Adds fields
      → Has k out
  unfolding validate_message
  from_Adds info fields q (e, m, h) =
      let (own, p) = validate_entries-Gives (entries fields) q e m in
      validate_message_collects info fields e k q m (own, p, h own p)

  text_ids-Has :
      (info : FieldInfo) (o : Searching) (own : Ids)
      → info.constraint ≡ some (string_rules (open_text (some o)))
      → o.searchable ≡ true
      → o.field_identifier ≡ k
      → text_ids info.name info.constraint ≡ ok own
      → Has k own
  unfolding text_ids lookup
  text_ids-Has info o own c s i q =
      let given = subst (λ x. text_ids info.name x ≡ ok own) c q in
      elim (Bool-cases (str_eq o.field_identifier "")) [
        | inl e ↦ absurd (ground (arith, s, e, given))
        | inr e ↦
            let same : (o.field_identifier, info.name) ∷ [] ≡ own = ground (arith, s, e, given) in
            subst (λ x. Has k x) same
              (Has-here o.field_identifier k info.name [] ((str_eq_iff o.field_identifier k).1 i))
      ]

  IsAnnotated-Adds : (fields : Fields) → IsAnnotated fields → Adds fields
  unfolding entries
  IsAnnotated-Adds _ (here {info} {rest} {o} c s i) =
      (_, Memᴰ.head refl, λ own q. text_ids-Has info o own c s i q)
  IsAnnotated-Adds _ (after_scalar d) = let (e, m, h) = IsAnnotated-Adds _ d in (e, Memᴰ.tail m, h)
  IsAnnotated-Adds _ (inside {info} {flat} {i} {fields} {rest} d) = (
    _,
    Memᴰ.head refl,
    λ own q.
        let (ids, p, q1) = >>=-eq-ok (validate_message (message i fields)) _ q in
        subst (λ o. Has k o) (ok_injective q1)
          (Has-used_below info.name ids (from_Adds i fields p (IsAnnotated-Adds fields d))),
  )
  IsAnnotated-Adds _ (after_nested d) = let (e, m, h) = IsAnnotated-Adds _ d in (e, Memᴰ.tail m, h)

  -- If the search annotations of a message are accepted, the identifier of each text field that is
  -- annotated as searchable is in the result, also of those in the messages that it holds at any depth.
  pub validate_message_complete :
      (info : MessageInfo) (fields : Fields) {out : Ids}
      → validate_message (message info fields) ≡ ok out
      → IsAnnotated fields
      → Has k out
  validate_message_complete info fields q d = from_Adds info fields q (IsAnnotated-Adds fields d)
