-- ===== src/Psm/Model.antt =====
-- The types that a state machine is generic in, and its messages: psm/gen_interfaces.go,
-- psm/event.go and the accessors that internal/protogen/state/code.go generates.
use protostate.Common.{ℕ, String, Option, List}

-- The type parameters K, SD and IE of the package with their generated methods, and the types of
-- other packages that it only hands around.
pub record Entity : Type 1 where
  pub Keys : Type 0
  pub Data : Type 0
  pub Inner : Type 0
  pub Message : Type 0  -- o5msg.Message
  pub Action : Type 0  -- auth_j5pb.Action
  pub MessageCause : Type 0  -- messaging_j5pb.MessageCause
  pub ExternalEvent : Type 0  -- psm_j5pb.ExternalEventCause
  pub Time : Type 0
  pub Duration : Type 0
  pub Date : Type 0  -- date_j5t.Date
  pub Opaque : Type 0  -- the dynamic values of `any` that are neither string nor *Date
  pub Json : Type 0  -- []byte

-- The dynamic values of the `any` in a key map.
pub data Value (e : Entity) : Type 0 where
  text : String → Value e
  date : e.Date → Value e
  other : e.Opaque → Value e

abbrev pub KeyMap : Entity → Type 0
KeyMap e = List (String × Value e)

-- The oneof of psm_j5pb.Cause; `unset` is a cause whose Type is nil.
pub data Cause (e : Entity) : Type 0 where
  unset init : Cause e
  psm_event : String → String → Cause e  -- event id, state machine
  command : e.Action → Cause e
  external_event : e.ExternalEvent → Cause e
  message : e.MessageCause → Cause e

-- psm_j5pb.StateMetadata. The timestamps are pointers to messages.
pub record StateMetadata (e : Entity) : Type 0 where
  pub created_at : Option e.Time
  pub updated_at : Option e.Time
  pub last_sequence : ℕ  -- uint64

-- psm_j5pb.EventMetadata
pub record EventMetadata (e : Entity) : Type 0 where
  pub event_id : String
  pub sequence : ℕ  -- uint64
  pub timestamp : Option e.Time
  pub cause : Option (Cause e)

-- IState. A status is the number of its enum value; 0 is UNSPECIFIED, the status of no entity.
pub record State (e : Entity) : Type 0 where
  pub status : ℕ
  pub metadata : StateMetadata e
  pub keys : e.Keys
  pub value : e.Data

-- IEvent
pub record Event (e : Entity) : Type 0 where
  pub metadata : EventMetadata e
  pub keys : e.Keys
  pub inner : e.Inner

-- EventSpec. K and IE are pointer types, so `keys` and `event` may be nil, which PSMIsSet tests.
pub record EventSpec (e : Entity) : Type 0 where
  pub keys : e.Keys
  pub event_id : String
  pub event : e.Inner
  pub cause : Option (Cause e)
  pub action : Option e.Action
  pub message : Option e.MessageCause
  pub timestamp : e.Time
