-- ===== src/Pgstore/Walk.antt =====
-- Visiting every node of a message: WalkPathNodes and Path.walk of internal/pgstore/path.go. A path is
-- what the callback is called with. The code appends the nodes of siblings to one slice, so what a
-- callback keeps of a path may be overwritten later: that is not modelled.
pub mod Visited
pub mod Again
use protostate.Common.{Bool, true, List, [], ◌∷◌, ◌++◌, Result, ok, ◌>>=◌}
use protostate.Proto.{
  Message, message, Fields, no_fields, scalar, nested, Field, FieldInfo, Kind, scalar_kind,
  message_kind,
}
use protostate.Pgstore.Nodes.{PathNode, NodePath, node_of, to_field}

module _ {S : Type 0} (root : Message) (callback : NodePath → S → Result S) where
  unfoldable mutual
    pub walk : List PathNode → Message → S → Result S
    walk path (message info fields) s = walk_fields path fields s

    pub walk_fields : List PathNode → Fields → S → Result S
    walk_fields path no_fields s = ok s
    walk_fields path (scalar info k rest) s =
        let f : Field = record { info = info; kind = scalar_kind k } in
        callback (to_field root (path ++ node_of f ∷ []) f) s >>= λ t. walk_fields path rest t
    walk_fields path (nested info flat m rest) s =
        let f : Field = record { info = info; kind = message_kind flat m } in
        callback (to_field root (path ++ node_of f ∷ []) f) s >>= λ t.
        walk (path ++ node_of f ∷ []) m t >>= λ u. walk_fields path rest u

-- WalkPathNodes
pub walk_path_nodes : {S : Type 0} → Message → (NodePath → S → Result S) → S → Result S
unfolding walk
walk_path_nodes root callback s = walk root callback [] root s
