-- ===== src/Fixture/Messages.antt =====
-- The descriptor of a listed message: an item with a key, a number, a timestamp and a wrapper of a oneof.
use protostate.Common.{◌+◌, ℕ, String, true, false, Option, none, some, [], ◌∷◌}
use protostate.Proto.{
  Message, message, Fields, no_fields, scalar, nested, Field, FieldInfo, Oneof, FieldConstraint,
  number_rules, string_rules, oneof_rules, foreign_key, uuid_key, int64, number_kind, string_kind,
  scalar_kind, message_kind,
}
use protostate.Pgstore.Nodes.{NodePath, to_field, node_of, in_oneof}
use protostate.Pgstore.Value.{Reflect, Value, message_value, other_value}

abbrev pub plain : String → String → Option FieldConstraint → FieldInfo
plain name json_name rules = record {
  name = name;
  json_name = json_name;
  is_list = false;
  is_map = false;
  containing_oneof = none;
  constraint = rules;
}

abbrev pub timestamp_message : Message
timestamp_message =
    message (record { full_name = "google.protobuf.Timestamp"; oneofs = [] })
      (scalar (plain "seconds" "seconds" none) (number_kind int64) no_fields)

-- The oneof "type" of the wrapper, which has no rules of its own.
abbrev pub size_type : Oneof
size_type = record {
  name = "type";
  rules = none;
  members = "small" ∷ "large" ∷ [];
  in_wrapper = true;
}

abbrev pub size_message : Message
size_message = message (record { full_name = "shop.Size"; oneofs = size_type ∷ [] }) no_fields

abbrev pub sortable_rules : FieldConstraint
sortable_rules = number_rules int64 (record {
  filtering = some (record { filterable = true; default_filters = [] });
  sorting = some (record { sortable = true; default_sort = false });
})

abbrev pub id_info : FieldInfo
id_info = plain "item_id" "itemId" (
    some (
      string_rules
        (foreign_key (uuid_key (some (record { filterable = true; default_filters = [] }))))))

abbrev pub count_info : FieldInfo
count_info = plain "count" "count" (some sortable_rules)

abbrev pub made_info : FieldInfo
made_info = plain "made_at" "madeAt" none

abbrev pub size_info : FieldInfo
size_info =
    plain "size" "size"
      (some (oneof_rules (some (record { filterable = true; default_filters = [] }))))

abbrev pub item_fields : Fields
item_fields = scalar id_info string_kind (
    scalar count_info (number_kind int64)
      (nested made_info false timestamp_message (nested size_info false size_message no_fields)))

abbrev pub item : Message
item = message (record { full_name = "shop.Item"; oneofs = [] }) item_fields

abbrev pub count_field : Field
count_field = record { info = count_info; kind = scalar_kind (number_kind int64) }

abbrev pub count_path : NodePath
count_path = to_field item (node_of count_field ∷ []) count_field

abbrev pub made_field : Field
made_field = record { info = made_info; kind = message_kind false timestamp_message }

abbrev pub seconds_field : Field
seconds_field = record {
  info = plain "seconds" "seconds" none;
  kind = scalar_kind (number_kind int64);
}

-- A path through a message.
abbrev pub seconds_path : NodePath
seconds_path = to_field item (node_of made_field ∷ node_of seconds_field ∷ []) seconds_field

abbrev pub size_field : Field
size_field = record { info = size_info; kind = message_kind false size_message }

-- The path "size.type" to the oneof.
abbrev pub size_path : NodePath
size_path = record {
  root = item;
  path = node_of size_field ∷ record { name = "type"; step = in_oneof size_type } ∷ [];
  leaf_field = none;
  leaf_oneof = some size_type;
}

-- Messages that are numbers, and hold their successors.
abbrev pub read_field : ℕ → Field → Value ℕ ℕ
read_field msg f = elim f.kind [
  | scalar_kind k ↦ other_value msg
  | message_kind flat sub ↦ message_value (msg + 1)
]

abbrev pub numbers : Reflect
numbers = record { Msg = ℕ; Other = ℕ; get = read_field }
