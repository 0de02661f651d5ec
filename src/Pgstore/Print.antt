-- ===== src/Pgstore/Print.antt =====
-- The SQL and JSON texts of a path: NestedField.Selector, JSONBArrowPath and JSONPathQuery of
-- internal/pgstore/path.go.
use Prim.Native.String.{◌++◌ as str_append}
use protostate.Common.{
  String, Option, none, some, List, [], ◌∷◌, Result, ok, err, ◌>>=◌, if◌then◌else◌, is_empty,
  nil_dereference, list_in_path, index_out_of_range,
}
use protostate.Pgstore.Nodes.{in_field, in_oneof, PathNode, NodePath}

pub record NestedField : Type 0 where
  pub root_column : String
  pub path : NodePath
  pub value_column : Option String

-- strings.Join(elements, "")
abbrev pub concat : List String → String
concat [] = ""
concat (s ∷ ss) = str_append s (concat ss)

-- The loop of JSONPathQuery.
unfoldable pub query_elements : List PathNode → List String
query_elements [] = []
query_elements (n ∷ ns) =
    let rest = query_elements ns in
    elim n.step [
      | in_oneof o ↦ rest
      | in_field f ↦
          let dotted = str_append "." f.info.json_name in
          if f.info.is_list then dotted ∷ "[*]" ∷ rest else dotted ∷ rest
    ]

unfoldable pub json_path_query : NodePath → String
unfolding query_elements
json_path_query p = concat ("$" ∷ query_elements p.path)

abbrev pub arrow : String → String → String
arrow operator name = concat (operator ∷ "'" ∷ name ∷ "'" ∷ [])

-- JSONBArrowPath of a node and those after it; it panics on a list on the way, and on a oneof at the
-- end, whose field is nil.
unfoldable pub arrow_elements : PathNode → List PathNode → Result (List String)
arrow_elements n [] = elim n.step [
  | in_oneof o ↦ err nil_dereference
  | in_field f ↦ ok (arrow "->>" f.info.json_name ∷ [])
]
arrow_elements n (next ∷ ns) = elim n.step [
  | in_oneof o ↦ arrow_elements next ns
  | in_field f ↦
      if f.info.is_list
      then err list_in_path
      else do rest ← arrow_elements next ns; ok (arrow "->" f.info.json_name ∷ rest)
]

-- `pp.path[len(pp.path)-1]` panics on an empty path.
unfoldable pub jsonb_arrow_path : List PathNode → Result String
unfolding arrow_elements
jsonb_arrow_path [] = err index_out_of_range
jsonb_arrow_path (n ∷ ns) = do elements ← arrow_elements n ns; ok (concat elements)

unfoldable pub selector : NestedField → String → Result String
unfolding jsonb_arrow_path
selector nf in_table = elim nf.value_column [
  | some column ↦ ok (concat (in_table ∷ "." ∷ column ∷ []))
  | none ↦ if is_empty nf.path.path then ok (concat (in_table ∷ "." ∷ nf.root_column ∷ [])) else do
    arrows ← jsonb_arrow_path nf.path.path
    ok (concat (in_table ∷ "." ∷ nf.root_column ∷ arrows ∷ []))
]
