-- ===== src/Pgstore/Nodes.antt =====
-- Paths from a message to one of its nodes: internal/pgstore/path.go.
use protostate.Common.{String, Option, none, some, List, [], ◌∷◌}
use protostate.Proto.{Message, Field, Oneof}

-- What a node stands for: a field, or a oneof, which is no node of the JSON tree.
pub data Step : Type 0 where
  in_field : Field → Step
  in_oneof : Oneof → Step

pub record PathNode : Type 0 where
  pub name : String
  pub step : Step

pub record NodePath : Type 0 where
  pub root : Message
  pub path : List PathNode
  pub leaf_field : Option Field
  pub leaf_oneof : Option Oneof

-- `node{name: field.Name(), field: field}`
abbrev pub node_of : Field → PathNode
node_of f = record { name = f.info.name; step = in_field f }

-- A path that ends in a field.
abbrev pub to_field : Message → List PathNode → Field → NodePath
to_field root nodes f = record { root = root; path = nodes; leaf_field = some f; leaf_oneof = none }

-- pathNodeNames, before they are joined
abbrev pub node_names : List PathNode → List String
node_names [] = []
node_names (n ∷ ns) = n.name ∷ node_names ns
