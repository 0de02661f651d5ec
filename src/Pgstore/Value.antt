-- ===== src/Pgstore/Value.antt =====
-- Reading the value at a path: Path.GetValue of internal/pgstore/path.go.
use protostate.Common.{
  List, [], ◌∷◌, Result, ok, err, empty_path, oneof_at_leaf, not_a_message, wrong_value,
}
use protostate.Proto.{Field, scalar_kind, message_kind}
use protostate.Pgstore.Nodes.{in_field, in_oneof, PathNode}

-- protoreflect.Value, with the messages and the other values of the library.
pub data Value (Msg Other : Type 0) : Type 0 where
  message_value : Msg → Value Msg Other
  other_value : Other → Value Msg Other

-- protoreflect.Message.Get
pub record Reflect : Type 1 where
  pub Msg : Type 0
  pub Other : Type 0
  pub get : Msg → Field → Value Msg Other

module _ (r : Reflect) where
  -- The loop of GetValue; `val.Message()` panics on a value that is no message.
  unfoldable pub value_from : PathNode → List PathNode → r.Msg → Result (Value r.Msg r.Other)
  value_from n [] msg = elim n.step [
    | in_oneof o ↦ err oneof_at_leaf
    | in_field f ↦ ok (r.get msg f)
  ]
  value_from n (next ∷ ns) msg = elim n.step [
    | in_oneof o ↦ value_from next ns msg
    | in_field f ↦ elim f.kind [
      | scalar_kind k ↦ err not_a_message
      | message_kind flat sub ↦ elim (r.get msg f) [
        | message_value m ↦ value_from next ns m
        | other_value v ↦ err wrong_value
      ]
    ]
  ]

  unfoldable pub get_value : List PathNode → r.Msg → Result (Value r.Msg r.Other)
  unfolding value_from
  get_value [] msg = err empty_path
  get_value (n ∷ ns) msg = value_from n ns msg
