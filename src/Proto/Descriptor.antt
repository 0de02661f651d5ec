-- ===== src/Proto/Descriptor.antt =====
-- Message descriptors: google.golang.org/protobuf/reflect/protoreflect, as far as the code reads them.
-- A message type that contains itself has no descriptor here: the walks of the code do not end on it.
use protostate.Common.{
  ℕ, ◌+◌, String, Bool, Option, none, some, List, [], ◌∷◌, str_eq, if◌then◌else◌,
}
use protostate.Proto.Annotation.{FieldConstraint, NumberType, Filtering}

-- OneofDescriptor: its rules in j5.list.v1, whose filtering may be nil, its fields, and whether its
-- message is a wrapper (j5schema.IsOneofWrapper).
pub record Oneof : Type 0 where
  pub name : String
  pub rules : Option (Option Filtering)
  pub members : List String
  pub in_wrapper : Bool

pub record FieldInfo : Type 0 where
  pub name : String
  pub json_name : String
  pub is_list : Bool
  pub is_map : Bool
  pub containing_oneof : Option ℕ  -- its index
  pub constraint : Option FieldConstraint

-- Kind, for the fields that hold no message; an enum with the names of its values, one at least.
pub data ScalarKind : Type 0 where
  number_kind : NumberType → ScalarKind
  bool_kind string_kind bytes_kind : ScalarKind
  enum_kind : String → List String → ScalarKind

pub record MessageInfo : Type 0 where
  pub full_name : String
  pub oneofs : List Oneof

mutual
  pub data Message : Type 0 where
    message : MessageInfo → Fields → Message

  -- The flag of a field that holds a message says whether it is annotated as flattened.
  pub data Fields : Type 0 where
    no_fields : Fields
    scalar : FieldInfo → ScalarKind → Fields → Fields
    nested : FieldInfo → Bool → Message → Fields → Fields

pub data Kind : Type 0 where
  scalar_kind : ScalarKind → Kind
  message_kind : Bool → Message → Kind

-- FieldDescriptor
pub record Field : Type 0 where
  pub info : FieldInfo
  pub kind : Kind

abbrev pub info_of : Message → MessageInfo
info_of (message info _) = info

abbrev pub field_list : Fields → List Field
field_list no_fields = []
field_list (scalar info k rest) = record { info = info; kind = scalar_kind k } ∷ field_list rest
field_list (nested info flat m rest) =
    record { info = info; kind = message_kind flat m } ∷ field_list rest

-- Fields()
abbrev pub fields_of : Message → List Field
fields_of (message info fields) = field_list fields

-- Fields().ByName
unfoldable pub by_name : String → List Field → Option Field
by_name n [] = none
by_name n (f ∷ fs) = let rest = by_name n fs in if str_eq f.info.name n then some f else rest

-- Fields().ByJSONName
unfoldable pub by_json_name : String → List Field → Option Field
by_json_name n [] = none
by_json_name n (f ∷ fs) =
    let rest = by_json_name n fs in if str_eq f.info.json_name n then some f else rest

-- Oneofs().ByName, with the oneof's Index()
unfoldable pub oneof_by_name : ℕ → String → List Oneof → Option (ℕ × Oneof)
oneof_by_name i n [] = none
oneof_by_name i n (o ∷ os) =
    let rest = oneof_by_name (i + 1) n os in if str_eq o.name n then some (i, o) else rest
