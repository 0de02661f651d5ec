-- ===== src/Pquery/Identifiers/Apart.antt =====
-- The loops over the fields and over the oneofs of a message: validateSearchesAnnotationsInner of
-- pquery/search.go.
use mathlib.Core.List.{Memᴰ}
use mathlib.Core.Path.{subst}
use protostate.Common.{
  ℕ, String, ◌≡◌, refl, sym, ◌∙◌, ap, true, false, Option, none, some, List, [], ◌∷◌, ◌++◌, lookup,
  ok, ◌>>=◌, >>=-eq-ok, ok_injective, arith, Option-cases, Every, Every-cons, Bool-cases, inl, inr,
}
use protostate.Pquery.Identifiers.{
  Ids, Entry, validate_entry, root_ids, is_in, combine, branch_ids, oneof_ids,
}
use protostate.Pquery.Identifiers.Used.{
  Has, Uses, Has-absent, Has-here, Has-there, Has-split, combine-Has, absent-before,
  validate_entry-Has,
}

pub root_ids-none :
    (e : Entry) (es : List Entry) (ids : Ids)
    → e.oneof ≡ none
    → root_ids (e ∷ es) ids ≡ (validate_entry e ids >>= λ more. root_ids es more)
unfolding root_ids
root_ids-none e es ids p = rw p refl

pub root_ids-some :
    (e : Entry) (es : List Entry) (ids : Ids) (o : ℕ)
    → e.oneof ≡ some o
    → root_ids (e ∷ es) ids ≡ root_ids es ids
unfolding root_ids
root_ids-some e es ids o p = rw p refl

pub branch_ids-in :
    (o : ℕ) (ids : Ids) (e : Entry) (es : List Entry) (combined : Ids)
    → is_in o e.oneof ≡ true
    → branch_ids o ids (e ∷ es) combined ≡ (
        validate_entry e [] >>= λ branch.
        combine ids branch combined >>= λ more. branch_ids o ids es more)
unfolding branch_ids
branch_ids-in o ids e es combined p = ground arith

pub branch_ids-out :
    (o : ℕ) (ids : Ids) (e : Entry) (es : List Entry) (combined : Ids)
    → is_in o e.oneof ≡ false
    → branch_ids o ids (e ∷ es) combined ≡ branch_ids o ids es combined
unfolding branch_ids
branch_ids-out o ids e es combined p = ground arith

pub is_in_self : (o : ℕ) (x : Option ℕ) → x ≡ some o → is_in o x ≡ true
is_in_self o x p = ground arith

module _ (k : String) where
  pub root_ids-Has :
      (es : List Entry) (ids : Ids) {out : Ids}
      → root_ids es ids ≡ ok out
      → (Has k ids → Has k out)
        × Every (λ e. e.oneof ≡ none → Uses e k → (lookup k ids ≡ none) × Has k out) es
  unfolding root_ids
  root_ids-Has [] ids q = (λ h. subst (λ o. Has k o) (ok_injective q) h, λ e m. elim m [ ])
  root_ids-Has (e ∷ es) ids {out} q = elim (Option-cases e.oneof) [
    | inl p ↦
        let (more, v, q1) =
          >>=-eq-ok (validate_entry e ids) _ (sym (root_ids-none e es ids p) ∙ q) in
        let (kept, added) = validate_entry-Has e ids k v in
        let (later, every) = root_ids-Has es more q1 in
        (
          λ h. later (kept h),
          Every-cons _ es (λ r u. ((added u).0, later (added u).1))
              (λ f m r u. (absent-before k ids more kept (every f m r u).0, (every f m r u).1)),
        )
    | inr (o, p) ↦
        let q1 : root_ids es ids ≡ ok out = sym (root_ids-some e es ids o p) ∙ q in
        let (later, every) = root_ids-Has es ids q1 in
        (later, Every-cons _ es (λ r. absurd (ground (arith, p, r))) every)
  ]

  branch_ids-Has :
      (o : ℕ) (ids : Ids) (es : List Entry) (combined : Ids) {out : Ids}
      → branch_ids o ids es combined ≡ ok out
      → (Has k combined → Has k out)
        × Every (λ e. e.oneof ≡ some o → Uses e k → (lookup k ids ≡ none) × Has k out) es
  unfolding branch_ids
  branch_ids-Has o ids [] combined q =
      (λ h. subst (λ o. Has k o) (ok_injective q) h, λ e m. elim m [ ])
  branch_ids-Has o ids (e ∷ es) combined q = elim (Bool-cases (is_in o e.oneof)) [
    | inl p ↦
        let (branch, v, q1) =
          >>=-eq-ok (validate_entry e []) _ (sym (branch_ids-in o ids e es combined p) ∙ q) in
        let (more, w, q2) = >>=-eq-ok (combine ids branch combined) _ q1 in
        let (kept, added) = combine-Has ids branch combined k w in
        let (later, every) = branch_ids-Has o ids es more q2 in
        (
          λ h. later (kept h),
          Every-cons _ es
              (λ r u.
                let fresh = added ((validate_entry-Has e [] k v).1 u).1 in (fresh.0, later fresh.1))
              every,
        )
    | inr p ↦
        let (later, every) =
          branch_ids-Has o ids es combined (sym (branch_ids-out o ids e es combined p) ∙ q) in
        (later, Every-cons _ es (λ r. absurd (ground (arith, p, is_in_self o e.oneof r))) every)
  ]

  Has-left : (a b : Ids) → Has k a → Has k (a ++ b)
  unfolding lookup
  Has-left [] b (u, p) = absurd (ground arith)
  Has-left ((j, used) ∷ a) b h = elim (Has-split j k used a h) [
    | inl same ↦ Has-here j k used (a ++ b) same
    | inr later ↦ Has-there j k used (a ++ b) (Has-left a b later)
  ]

  Has-right : (a b : Ids) → Has k b → Has k (a ++ b)
  Has-right [] b h = h
  Has-right ((j, used) ∷ a) b h = Has-there j k used (a ++ b) (Has-right a b h)

  -- What the loop over the oneofs keeps, collects and refuses.
  pub oneof_ids-Has :
      (os : List ℕ) (es : List Entry) (ids : Ids) {out : Ids}
      → oneof_ids os es ids ≡ ok out
      → (Has k ids → Has k out)
        × ((e : Entry)
            → Memᴰ e es
            → (o : ℕ) → Memᴰ o os
            → e.oneof ≡ some o
            → Uses e k
            → (lookup k ids ≡ none) × Has k out)
  unfolding oneof_ids
  oneof_ids-Has [] es ids q = (λ h. subst (λ o. Has k o) (ok_injective q) h, λ e m o i. elim i [ ])
  oneof_ids-Has (p ∷ os) es ids {out} q =
      let (combined, b, q1) = >>=-eq-ok (branch_ids p ids es []) _ q in
      let (kept, added) = oneof_ids-Has os es (combined ++ ids) q1 in
      let (_, every) = branch_ids-Has p ids es [] b in
      (
        λ h. kept (Has-right combined ids h),
        λ e m.
            Every-cons (λ o. e.oneof ≡ some o → Uses e k → (lookup k ids ≡ none) × Has k out) os
              (λ r u. let fresh = every e m r u in (fresh.0, kept (Has-left combined ids fresh.1)))
              (λ o i r u.
                let fresh = added e m o i r u in
                (absent-before k ids (combined ++ ids) (Has-right combined ids) fresh.0, fresh.1)),
      )

  pub oneof_ids-apart :
      (os : List ℕ) (es : List Entry) (ids : Ids) {out : Ids}
      → oneof_ids os es ids ≡ ok out
      → (e f : Entry) → Memᴰ e es
      → Memᴰ f es
      → (o p : ℕ) → Memᴰ o os
      → Memᴰ p os
      → e.oneof ≡ some o
      → f.oneof ≡ some p
      → Uses e k
      → Uses f k
      → o ≡ p
  unfolding oneof_ids
  oneof_ids-apart [] es ids q e f m n o p i j r s u v = elim i [ ]
  oneof_ids-apart (c ∷ os) es ids q e f m n o p i j r s u v =
      let (combined, b, q1) = >>=-eq-ok (branch_ids c ids es []) _ q in
      let (_, every) = branch_ids-Has c ids es [] b in
      let (_, added) = oneof_ids-Has os es (combined ++ ids) q1 in
      elim i [
        | Memᴰ.head a ↦ elim j [
          | Memᴰ.head a' ↦ a ∙ sym a'
          | Memᴰ.tail j' ↦ absurd (
              Has-absent k (combined ++ ids) (Has-left combined ids (every e m (r ∙ ap some a) u).1)
                (added f n p j' s v).0)
        ]
        | Memᴰ.tail i' ↦ elim j [
          | Memᴰ.head a' ↦ absurd (
              Has-absent k (combined ++ ids)
                (Has-left combined ids (every f n (s ∙ ap some a') v).1) (added e m o i' r u).0)
          | Memᴰ.tail j' ↦ oneof_ids-apart os es (combined ++ ids) q1 e f m n o p i' j' r s u v
        ]
      ]
