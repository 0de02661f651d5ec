-- ===== src/Pgstore/Walk/Again.antt =====
-- Finding a visited path again by the names of its nodes.
use mathlib.Core.List.{append_assoc, Memᴰ}
use protostate.Common.{
  ◌≡◌, refl, ◌∙◌, ap, Bool, false, none, some, List, [], ◌∷◌, ◌++◌, ok, arith, Every, Every-cons,
  Every-append,
}
use protostate.Proto.{
  Message, message, Fields, no_fields, scalar, nested, Field, scalar_kind, message_kind, by_name,
  field_list, fields_of,
}
use protostate.Pgstore.Nodes.{PathNode, NodePath, node_of, to_field, node_names}
use protostate.Pgstore.Find.{proto_path_from, new_proto_path, ends_in_field}
use protostate.Pgstore.Walk.Visited.{visited, visited_fields}

-- Some of the fields of a message: each is the first of its name, and no map.
abbrev pub AreNamed : List Field → List Field → Type 0
AreNamed all [] = Unit
AreNamed all (f ∷ fs) =
    (by_name f.info.name all ≡ some f) × (f.info.is_map ≡ false) × AreNamed all fs

-- So it is in all messages below a message.
unfoldable mutual
  pub IsNamed : Message → Type 0
  IsNamed (message info fields) =
      AreNamed (field_list fields) (field_list fields) × AreBelowNamed fields

  pub AreBelowNamed : Fields → Type 0
  AreBelowNamed no_fields = Unit
  AreBelowNamed (scalar info k rest) = AreBelowNamed rest
  AreBelowNamed (nested info flat m rest) = IsNamed m × AreBelowNamed rest

-- The path goes on from `prefix`, by nodes whose names lead from the message `m` to its leaf.
record IsFound (root : Message) (prefix : List PathNode) (m : Message) (p : NodePath) : Type 0 where
  first : PathNode
  more : List PathNode
  leaf : Field
  is_path : p ≡ to_field root (prefix ++ first ∷ more) leaf
  found :
      proto_path_from m none first.name (node_names more) ≡ ok (ends_in_field (first ∷ more) leaf)

module _ (m : Message) (f : Field) (named : by_name f.info.name (fields_of m) ≡ some f)
    (no_map : f.info.is_map ≡ false) where
  found_here : proto_path_from m none f.info.name [] ≡ ok (ends_in_field (node_of f ∷ []) f)
  unfolding proto_path_from
  found_here = ground arith

  found_below :
      (flat : Bool) (sub : Message) (first : PathNode) (more : List PathNode) (leaf : Field)
      → f.kind ≡ message_kind flat sub
      → proto_path_from sub none first.name (node_names more)
        ≡ ok (ends_in_field (first ∷ more) leaf)
      → proto_path_from m none f.info.name (first.name ∷ node_names more)
        ≡ ok (ends_in_field (node_of f ∷ first ∷ more) leaf)
  unfolding proto_path_from
  found_below flat sub first more leaf p q = ground arith

module _ (root : Message) where
  here :
      (m : Message) (prefix : List PathNode) (f : Field)
      → by_name f.info.name (fields_of m) ≡ some f
      → f.info.is_map ≡ false
      → IsFound root prefix m (to_field root (prefix ++ node_of f ∷ []) f)
  here m prefix f named no_map = record {
    first = node_of f;
    more = [];
    leaf = f;
    is_path = refl;
    found = found_here m f named no_map;
  }

  below :
      (m : Message) (prefix : List PathNode) (f : Field) (flat : Bool) (sub : Message)
      → by_name f.info.name (fields_of m) ≡ some f
      → f.info.is_map ≡ false
      → f.kind ≡ message_kind flat sub
      → (p : NodePath) → IsFound root (prefix ++ node_of f ∷ []) sub p
      → IsFound root prefix m p
  below m prefix f flat sub named no_map is_message p i = record {
    first = node_of f;
    more = i.first ∷ i.more;
    leaf = i.leaf;
    is_path =
        i.is_path
        ∙ ap (λ nodes. to_field root nodes i.leaf)
            (append_assoc prefix (node_of f ∷ []) (i.first ∷ i.more));
    found = found_below m f named no_map flat sub i.first i.more i.leaf is_message i.found;
  }

  mutual
    unfolding visited IsNamed

    visited-IsFound :
        (m : Message) (prefix : List PathNode)
        → IsNamed m
        → Every (IsFound root prefix m) (visited root prefix m)
    visited-IsFound (message info fields) prefix (named, below_named) =
        fields-IsFound (message info fields) prefix fields named below_named

    fields-IsFound :
        (m : Message) (prefix : List PathNode) (fields : Fields)
        → AreNamed (fields_of m) (field_list fields)
        → AreBelowNamed fields
        → Every (IsFound root prefix m) (visited_fields root prefix fields)
    fields-IsFound m prefix no_fields a b = λ p i. elim i [ ]
    fields-IsFound m prefix (scalar info k rest) (named, no_map, a) b =
        Every-cons _ _ (here m prefix (record { info = info; kind = scalar_kind k }) named no_map)
          (fields-IsFound m prefix rest a b)
    fields-IsFound m prefix (nested info flat sub rest) (named, no_map, a) (b, c) =
        let f : Field = record { info = info; kind = message_kind flat sub } in
        Every-cons _ _ (here m prefix f named no_map) (
          Every-append _ (visited root (prefix ++ node_of f ∷ []) sub) _
            (λ p i.
              below m prefix f flat sub named no_map refl p
                (visited-IsFound sub (prefix ++ node_of f ∷ []) b p i))
            (fields-IsFound m prefix rest a c))

  -- If in each message the fields have different names and are no maps, then NewProtoPath finds every
  -- path that WalkPathNodes visits, from the names of its nodes.
  pub visited-new_proto_path :
      IsNamed root
      → (p : NodePath) → Memᴰ p (visited root [] root)
      → new_proto_path root (node_names p.path) ≡ ok p
  unfolding new_proto_path
  visited-new_proto_path named p m =
      let i = visited-IsFound root [] named p m in rw (i.is_path, i.found) refl
