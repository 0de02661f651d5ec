-- ===== src/Fixture/Shop.antt =====
-- The entity of the fixture: an order with a name, which is opened, renamed and closed.
use native.Mathlib.Decide.{ℕ_discrete}
use protostate.Common.{ℕ, String, ◌≡◌, refl, Option, none, some}
use protostate.Psm.Model.{Entity, Cause, unset, init, psm_event, command, external_event, message}

pub data Step : Type 0 where
  opened closed : Step
  renamed : ℕ → Step

pub data CauseDoc : Type 0 where
  unset_doc init_doc : CauseDoc
  psm_event_doc : String → String → CauseDoc
  command_doc external_doc message_doc : String → CauseDoc

-- What the database holds in its JSON columns.
pub data Doc : Type 0 where
  state_doc : ℕ → Option ℕ → Option ℕ → ℕ → String → ℕ → Doc
  event_doc : String → ℕ → Option ℕ → Option CauseDoc → String → Step → Doc

abbrev pub shop : Entity
shop = record {
  Keys = String;
  Data = ℕ;
  Inner = Step;
  Message = String;
  Action = String;
  MessageCause = String;
  ExternalEvent = String;
  Time = ℕ;
  Duration = ℕ;
  Date = ℕ;
  Opaque = ℕ;
  Json = Doc;
}

abbrev pub write_cause : Option (Cause shop) → Option CauseDoc
write_cause none = none
write_cause (some unset) = some unset_doc
write_cause (some init) = some init_doc
write_cause (some (psm_event a b)) = some (psm_event_doc a b)
write_cause (some (command a)) = some (command_doc a)
write_cause (some (external_event a)) = some (external_doc a)
write_cause (some (message a)) = some (message_doc a)

abbrev pub read_cause : Option CauseDoc → Option (Cause shop)
read_cause none = none
read_cause (some unset_doc) = some unset
read_cause (some init_doc) = some init
read_cause (some (psm_event_doc a b)) = some (psm_event a b)
read_cause (some (command_doc a)) = some (command a)
read_cause (some (external_doc a)) = some (external_event a)
read_cause (some (message_doc a)) = some (message a)

pub read-write_cause : (c : Option (Cause shop)) → read_cause (write_cause c) ≡ c
read-write_cause none = refl
read-write_cause (some unset) = refl
read-write_cause (some init) = refl
read-write_cause (some (psm_event a b)) = refl
read-write_cause (some (command a)) = refl
read-write_cause (some (external_event a)) = refl
read-write_cause (some (message a)) = refl

abbrev pub Step-discrete : Discrete Step
Step-discrete = hlevel ℕ_discrete
