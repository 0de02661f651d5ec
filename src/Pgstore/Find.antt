-- ===== src/Pgstore/Find.antt =====
-- Finding a path by its names: NewProtoPath, findField and NewJSONPath of internal/pgstore/path.go.
use protostate.Common.{
  ℕ, String, Bool, true, false, Option, none, some, List, [], ◌∷◌, ◌++◌, ◌==◌, str_eq,
  if◌then◌else◌, Result, ok, err, ◌>>=◌, guard, empty_path, no_such_field, not_in_oneof,
  map_in_path, not_a_message, nil_dereference,
}
use protostate.Proto.{
  Message, Field, Oneof, message_kind, scalar_kind, by_name, by_json_name, oneof_by_name, fields_of,
  info_of,
}
use protostate.Pgstore.Nodes.{in_field, in_oneof, PathNode, NodePath}

-- What the loops add to the path from some point on, and the leaf that they set.
pub record Found : Type 0 where
  pub nodes : List PathNode
  pub leaf_field : Option Field
  pub leaf_oneof : Option Oneof

abbrev pub ends_in_field : List PathNode → Field → Found
ends_in_field nodes f = record { nodes = nodes; leaf_field = some f; leaf_oneof = none }

abbrev pub ends_in_oneof : List PathNode → Oneof → Found
ends_in_oneof nodes o = record { nodes = nodes; leaf_field = none; leaf_oneof = some o }

abbrev pub after_nodes : List PathNode → Found → Found
after_nodes nodes found = record found { nodes = nodes ++ found.nodes }

-- `field.ContainingOneof().Index() != *inOneof`, where ContainingOneof may be nil
unfoldable pub check_oneof : Option ℕ → Option ℕ → Result (Unit {0})
check_oneof none containing = ok tt
check_oneof (some i) none = err nil_dereference
check_oneof (some i) (some j) = guard (j == i) not_in_oneof

-- What the element of a path names in a message.
pub data Visit : Type 0 where
  at_field : Field → Visit
  at_oneof : ℕ → Oneof → Visit

-- The first part of a round of NewProtoPath, up to the test for a map; `in_one` is inOneof.
unfoldable pub visit : Message → Option ℕ → String → Result Visit
unfolding check_oneof
visit m in_one elem = elim (by_name elem (fields_of m)) [
  | some f ↦ do
    _ ← check_oneof in_one f.info.containing_oneof
    _ ← guard (if f.info.is_map then false else true) map_in_path
    ok (at_field f)
  | none ↦ elim in_one [
    | some i ↦ err not_in_oneof
    | none ↦ elim (oneof_by_name 0 elem (info_of m).oneofs) [
      | none ↦ err (no_such_field elem)
      | some (i, o) ↦ ok (at_oneof i o)
    ]
  ]
]

-- The loop of NewProtoPath, from the element `elem` on.
unfoldable pub proto_path_from : Message → Option ℕ → String → List String → Result Found
unfolding visit
proto_path_from m in_one elem [] = do
  v ← visit m in_one elem
  elim v [
    | at_field f ↦ ok (ends_in_field (record { name = elem; step = in_field f } ∷ []) f)
    | at_oneof i o ↦ ok (ends_in_oneof (record { name = elem; step = in_oneof o } ∷ []) o)
  ]
proto_path_from m in_one elem (next ∷ more) = do
  v ← visit m in_one elem
  elim v [
    | at_field f ↦ elim f.kind [
      | scalar_kind k ↦ err not_a_message
      | message_kind flat sub ↦ do
        found ← proto_path_from sub none next more
        ok (after_nodes (record { name = elem; step = in_field f } ∷ []) found)
    ]
    | at_oneof i o ↦ do
      found ← proto_path_from m (some i) next more
      ok (after_nodes (record { name = elem; step = in_oneof o } ∷ []) found)
  ]

abbrev pub as_path : Message → Found → NodePath
as_path root found = record {
  root = root;
  path = found.nodes;
  leaf_field = found.leaf_field;
  leaf_oneof = found.leaf_oneof;
}

unfoldable pub new_proto_path : Message → List String → Result NodePath
unfolding proto_path_from
new_proto_path m [] = err empty_path
new_proto_path m (elem ∷ rest) = do found ← proto_path_from m none elem rest; ok (as_path m found)

-- The loop of findField over the fields, for a name that no field has itself.
unfoldable pub find_flattened : String → List Field → Option (List PathNode × Field)
find_flattened n [] = none
find_flattened n (f ∷ fs) =
    let rest = find_flattened n fs in
    elim f.kind [
      | scalar_kind k ↦ rest
      | message_kind false sub ↦ rest
      | message_kind true sub ↦ elim (by_json_name n (fields_of sub)) [
        | none ↦ rest
        | some inner ↦ some (
          record { name = f.info.name; step = in_field f }
              ∷ record { name = n; step = in_field inner }
              ∷ [],
          inner,
        )
      ]
    ]

-- findField: the nodes, and the field of the last one.
unfoldable pub find_field : Message → String → Option (List PathNode × Field)
unfolding find_flattened
find_field m n = elim (by_json_name n (fields_of m)) [
  | some f ↦ some (record { name = n; step = in_field f } ∷ [], f)
  | none ↦ find_flattened n (fields_of m)
]

-- `for _, node := range nodes { if node.field.IsMap() {…} }`
unfoldable pub any_map : List PathNode → Bool
any_map [] = false
any_map (n ∷ ns) =
    let later = any_map ns in
    elim n.step [ in_field f ↦ if f.info.is_map then true else later | in_oneof o ↦ later ]

-- The special case: the oneof "type" of a wrapper, at the end of a path.
unfoldable pub oneof_type : Message → String → Option Oneof
oneof_type m elem =
    if str_eq elem "type"
    then elim (oneof_by_name 0 "type" (info_of m).oneofs) [ none ↦ none | some (i, o) ↦ some o ]
    else none

-- The loop of NewJSONPath, from the element `elem` on.
unfoldable pub json_path_from : Message → String → List String → Result Found
unfolding find_field any_map oneof_type
json_path_from m elem [] = elim (find_field m elem) [
  | none ↦ elim (oneof_type m elem) [
    | none ↦ err (no_such_field elem)
    | some o ↦ ok (ends_in_oneof (record { name = elem; step = in_oneof o } ∷ []) o)
  ]
  | some (nodes, f) ↦ if any_map nodes then err map_in_path else ok (ends_in_field nodes f)
]
json_path_from m elem (next ∷ more) = elim (find_field m elem) [
  | none ↦ err (no_such_field elem)
  | some (nodes, f) ↦ if any_map nodes then err map_in_path else elim f.kind [
    | scalar_kind k ↦ err not_a_message
    | message_kind flat sub ↦ do found ← json_path_from sub next more; ok (after_nodes nodes found)
  ]
]

unfoldable pub new_json_path : Message → List String → Result NodePath
unfolding json_path_from
new_json_path m [] = err empty_path
new_json_path m (elem ∷ rest) = do found ← json_path_from m elem rest; ok (as_path m found)
