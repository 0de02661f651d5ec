-- ===== src/Psm/Spec.antt =====
-- EventSpec.validateAndPrepare of psm/event.go.
pub mod Sources
pub mod Retry
use protostate.Common.{Bool, true, false, not, ◌&&◌, Option, none, some, Error, if◌then◌else◌}
use protostate.Common.{
  keys_required, event_required, cause_exclusive, cause_missing, cause_unsupported,
}
use protostate.Psm.Model.{
  Entity, Cause, EventSpec, unset, init, psm_event, command, external_event, message,
}
use protostate.Psm.Host.{Host}

abbrev pub is_some : {A : Type 0} → Option A → Bool
is_some none = false
is_some (some a) = true

module _ {e : Entity} where
  -- The switch over the types of a cause.
  unfoldable pub check_cause : Option (Cause e) → Option Error
  check_cause none = some cause_missing
  check_cause (some unset) = some cause_unsupported
  check_cause (some init) = none
  check_cause (some (psm_event id machine)) = none
  check_cause (some (command a)) = none
  check_cause (some (external_event x)) = none
  check_cause (some (message m)) = none

  -- `if es.Message != nil {…}` and what follows it.
  unfoldable pub prepare_message : EventSpec e → Option Error × EventSpec e
  unfolding check_cause
  prepare_message spec = elim spec.message [
    | none ↦ (check_cause spec.cause, spec)
    | some m ↦
        if is_some spec.cause
        then (some cause_exclusive, spec)
        else let prepared = record spec { cause = some (message m) } in
          (check_cause prepared.cause, prepared)
  ]

  -- `if es.Action != nil {…}` and what follows it.
  unfoldable pub prepare_action : EventSpec e → Option Error × EventSpec e
  unfolding prepare_message
  prepare_action spec = elim spec.action [
    | none ↦ prepare_message spec
    | some a ↦
        if is_some spec.cause
        then (some cause_exclusive, spec)
        else prepare_message (record spec { cause = some (command a) })
  ]

module _ {e : Entity} (h : Host e) where
  -- The error, and the spec as the call leaves it: the receiver is a pointer.
  unfoldable pub validate_and_prepare : EventSpec e → Option Error × EventSpec e
  unfolding prepare_action
  validate_and_prepare spec =
      if not (h.keys_is_set spec.keys)
      then (some keys_required, spec)
      else if not (h.inner_is_set spec.event)
      then (some event_required, spec)
      else if is_some spec.cause && is_some spec.action
      then (some cause_exclusive, spec)
      else prepare_action spec
