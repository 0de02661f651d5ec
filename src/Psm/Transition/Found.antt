-- ===== src/Psm/Transition/Found.antt =====
-- Which registered transitions apply to an event: the search loop of buildTransition.
use mathlib.Core.List.{Memᴰ}
use mathlib.Core.Path.{subst}
use protostate.Common.{
  ℕ, String, ◌≡◌, ◌↔◌, ◌⊎◌, inl, inr, refl, sym, true, List, [], ◌∷◌, any, is_empty, if◌then◌else◌,
  arith, str_eq_iff, ==_iff, Bool-cases, ◌==◌,
}
use protostate.Psm.Model.{Entity}
use protostate.Psm.Host.{Host}
use protostate.Psm.Transition.{TransitionSpec, is_match, find_specs}

mem_of_any : (status : ℕ) (xs : List ℕ) → any (λ s. s == status) xs ≡ true → Memᴰ status xs
mem_of_any status [] p = cc
mem_of_any status (x ∷ xs) p = elim (Bool-cases (x == status)) [
  | inl same ↦ Memᴰ.head (sym ((==_iff x status).0 same))
  | inr other ↦ Memᴰ.tail (mem_of_any status xs (rw other at p))
]

any_of_mem : (status : ℕ) (xs : List ℕ) → Memᴰ status xs → any (λ s. s == status) xs ≡ true
any_of_mem status [] m = elim m [ ]
any_of_mem status (x ∷ xs) (Memᴰ.head p) = ground (arith, ==_iff x status)
any_of_mem status (x ∷ xs) (Memᴰ.tail m) = ground (arith, any_of_mem status xs m)

-- A registration is for this event type, and for this status or for all of them.
abbrev pub Applies : {e : Entity} {h : Host e} → ℕ → String → TransitionSpec h → Type 0
Applies status event_type spec =
    (spec.event_type ≡ event_type) × ((spec.from_status ≡ []) ⊎ Memᴰ status spec.from_status)

matches_of :
    (status : ℕ) (froms : List ℕ)
    → (if is_empty froms then true else any (λ s. s == status) froms) ≡ true
    → (froms ≡ []) ⊎ Memᴰ status froms
matches_of status [] p = inl refl
matches_of status (x ∷ xs) p = inr (mem_of_any status (x ∷ xs) p)

matches_if :
    (status : ℕ) (froms : List ℕ)
    → (froms ≡ []) ⊎ Memᴰ status froms
    → (if is_empty froms then true else any (λ s. s == status) froms) ≡ true
matches_if status [] p = refl
matches_if status (x ∷ xs) (inl p) = cc
matches_if status (x ∷ xs) (inr m) = any_of_mem status (x ∷ xs) m

module _ {e : Entity} {h : Host e} (status : ℕ) (event_type : String) where
  is_match_sound :
      (spec : TransitionSpec h)
      → is_match status event_type spec ≡ true
      → Applies status event_type spec
  unfolding is_match
  is_match_sound spec p = (
    ground (arith, str_eq_iff spec.event_type event_type),
    matches_of status spec.from_status (ground arith),
  )

  is_match_complete :
      (spec : TransitionSpec h)
      → Applies status event_type spec
      → is_match status event_type spec ≡ true
  unfolding is_match
  is_match_complete spec a =
      ground (arith, str_eq_iff spec.event_type event_type, matches_if status spec.from_status a.1)

  find_sound :
      (specs : List (TransitionSpec h)) {spec : TransitionSpec h}
      → Memᴰ spec (find_specs status event_type specs)
      → Memᴰ spec specs × Applies status event_type spec
  unfolding find_specs
  find_sound [] m = elim m [ ]
  find_sound (s ∷ specs) {spec} m = elim (Bool-cases (is_match status event_type s)) [
    | inl hit ↦ at_head hit (λ there. find_sound specs there) (rw hit at m)
    | inr miss ↦
        let (there, applies) = find_sound specs (rw miss at m) in (Memᴰ.tail there, applies)
  ]
    where
      at_head :
          is_match status event_type s ≡ true
          → (Memᴰ spec (find_specs status event_type specs)
              → Memᴰ spec specs × Applies status event_type spec)
          → Memᴰ spec (s ∷ find_specs status event_type specs)
          → Memᴰ spec (s ∷ specs) × Applies status event_type spec
      at_head hit later (Memᴰ.head p) =
          (Memᴰ.head p, subst (Applies status event_type) (sym p) (is_match_sound s hit))
      at_head hit later (Memᴰ.tail there) =
          let (m', applies) = later there in (Memᴰ.tail m', applies)

  find_complete :
      (specs : List (TransitionSpec h)) {spec : TransitionSpec h}
      → Memᴰ spec specs
      → Applies status event_type spec
      → Memᴰ spec (find_specs status event_type specs)
  unfolding find_specs
  find_complete [] m a = elim m [ ]
  find_complete (s ∷ specs) (Memᴰ.head p) a =
      rw (is_match_complete s (subst (Applies status event_type) p a)) (Memᴰ.head p)
  find_complete (s ∷ specs) {spec} (Memᴰ.tail m) a =
      elim (Bool-cases (is_match status event_type s)) [
        | inl hit ↦ rw hit (Memᴰ.tail (find_complete specs m a))
        | inr miss ↦ rw miss (find_complete specs m a)
      ]

  -- A registered transition is found for a status and an event type exactly when it is for that event
  -- type, and it is for that status or was registered for no status in particular.
  pub find_specs_iff :
      (specs : List (TransitionSpec h)) (spec : TransitionSpec h)
      → Memᴰ spec (find_specs status event_type specs)
        ↔ (Memᴰ spec specs × Applies status event_type spec)
  find_specs_iff specs spec = (find_sound specs, λ both. find_complete specs both.0 both.1)
