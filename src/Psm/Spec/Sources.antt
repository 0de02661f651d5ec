-- ===== src/Psm/Spec/Sources.antt =====
-- What EventSpec.validateAndPrepare accepts, what it makes of it, and what a second call does.
use protostate.Common.{ℕ, ◌+◌, ◌≡◌, ◌≢◌, ◌↔◌, true, Option, none, some, arith, cause_exclusive}
use protostate.Psm.Model.{Entity, Cause, EventSpec, unset, command, message}
use protostate.Psm.Host.{Host}
use protostate.Psm.Spec.{validate_and_prepare}

abbrev given : {A : Type 0} → Option A → ℕ
given none = 0
given (some a) = 1

-- How many of Cause, Action and Message a spec gives.
abbrev pub sources : {e : Entity} → EventSpec e → ℕ
sources spec = given spec.cause + given spec.action + given spec.message

-- The cause that a spec stands for: the one given, or the action or message as a cause.
abbrev pub cause_of : {e : Entity} → EventSpec e → Option (Cause e)
cause_of spec = elim spec.action [
  | some a ↦ some (command a)
  | none ↦ elim spec.message [ some m ↦ some (message m) | none ↦ spec.cause ]
]

abbrev pub IsAcceptable : {e : Entity} → Host e → EventSpec e → Type 0
IsAcceptable h spec =
    (h.keys_is_set spec.keys ≡ true)
    × (h.inner_is_set spec.event ≡ true)
    × (sources spec ≡ 1)
    × (spec.cause ≢ some unset)

module _ {e : Entity} (h : Host e) (spec : EventSpec e) where
  -- A spec is accepted exactly when its keys and its event are set, it gives exactly one of Cause,
  -- Action and Message, and a given Cause has a type.
  pub prepare_accepts_iff : ((validate_and_prepare h spec).0 ≡ none) ↔ IsAcceptable h spec
  unfolding validate_and_prepare
  prepare_accepts_iff = (λ p. ground arith, λ p. ground arith)

  -- An accepted spec comes out with its cause filled in and nothing else changed.
  pub prepare_fills_cause :
      (validate_and_prepare h spec).0 ≡ none
      → (validate_and_prepare h spec).1 ≡ record spec { cause = cause_of spec }
  unfolding validate_and_prepare
  prepare_fills_cause p = ground arith

  -- A spec that was accepted for its Action or its Message is refused when it is passed once more.
  pub prepare_twice_refused :
      (validate_and_prepare h spec).0 ≡ none
      → spec.cause ≡ none
      → (validate_and_prepare h (validate_and_prepare h spec).1).0 ≡ some cause_exclusive
  unfolding validate_and_prepare
  prepare_twice_refused p q = ground arith
