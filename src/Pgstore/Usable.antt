-- ===== src/Pgstore/Usable.antt =====
-- Reading values and writing SQL at the end of a path: GetValue and Selector of
-- internal/pgstore/path.go.
use protostate.Common.{
  String, ◌≡◌, refl, Bool, false, Option, none, some, List, [], ◌∷◌, Result, ok, err, ◌>>=◌,
  if◌then◌else◌, is_empty, Bool-cases, inl, inr, list_in_path, wrong_value, not_a_message,
}
use protostate.Proto.{Message, Field, Oneof, scalar_kind, message_kind}
use protostate.Pgstore.Nodes.{Step, in_field, in_oneof, PathNode, NodePath}
use protostate.Pgstore.Print.{
  NestedField, arrow_elements, jsonb_arrow_path, selector, concat, arrow,
}
use protostate.Pgstore.Value.{Reflect, Value, message_value, other_value, value_from, get_value}
use protostate.Pgstore.Chain.{IsInner, IsChain, IsFieldPath, field_path-IsChain}

abbrev pub IsSingle : Step → Type 0
IsSingle (in_oneof o) = Unit
IsSingle (in_field f) = f.info.is_list ≡ false

-- No node before the last is a repeated field.
abbrev pub NoListBefore : List PathNode → Type 0
NoListBefore [] = Unit
NoListBefore (n ∷ []) = Unit
NoListBefore (n ∷ m ∷ ns) = IsSingle n.step × NoListBefore (m ∷ ns)

arrow_elements-ok :
    (n : PathNode) (ns : List PathNode) (leaf : Field)
    → IsChain (n ∷ ns) leaf
    → NoListBefore (n ∷ ns)
    → (out : List String) × (arrow_elements n ns ≡ ok out)
unfolding arrow_elements
arrow_elements-ok n [] leaf c l = (arrow "->>" leaf.info.json_name ∷ [], rw c refl)
arrow_elements-ok n (next ∷ ns) leaf (i, c) (s, l) =
    by_step n.step i s (arrow_elements-ok next ns leaf c l)
  where
    by_step :
        (step : Step)
        → IsInner step
        → IsSingle step
        → (out : List String) × (arrow_elements next ns ≡ ok out)
        → (out : List String) × ((let r : Result (List String) = elim step [
          | in_oneof o ↦ arrow_elements next ns
          | in_field f ↦
              if f.info.is_list
              then err list_in_path
              else (arrow_elements next ns >>= λ rest. ok (arrow "->" f.info.json_name ∷ rest))
        ] in
              r)
            ≡ ok out)
    by_step (in_oneof o) i s h = h
    by_step (in_field f) i s (out, p) = (arrow "->" f.info.json_name ∷ out, rw (s, p) refl)

-- protoreflect's Get gives a message for a field that holds one and is not repeated.
abbrev pub GetsMessages : Reflect → Type 0
GetsMessages r =
    (msg : r.Msg) (f : Field) (flat : Bool) (sub : Message)
    → f.kind ≡ message_kind flat sub
    → f.info.is_list ≡ false
    → (m : r.Msg) × (r.get msg f ≡ message_value m)

-- How a path leads from a message to the message that its last node is in: each field before the last
-- leads to the message that it holds, and a oneof, which is no node of the JSON tree, stays.
pub data Descends (r : Reflect) : List PathNode → r.Msg → r.Msg → Type 0 where
  at_leaf : {n : PathNode} {msg : r.Msg} → Descends r (n ∷ []) msg msg
  through_oneof :
      {n next : PathNode} {ns : List PathNode} {msg m : r.Msg} {o : Oneof}
      → n.step ≡ in_oneof o
      → Descends r (next ∷ ns) msg m
      → Descends r (n ∷ next ∷ ns) msg m
  into_field :
      {n next : PathNode} {ns : List PathNode} {msg sub m : r.Msg} {f : Field}
      → n.step ≡ in_field f
      → r.get msg f ≡ message_value sub
      → Descends r (next ∷ ns) sub m
      → Descends r (n ∷ next ∷ ns) msg m

module _ (r : Reflect) (gets : GetsMessages r) where
  value_from-ok :
      (n : PathNode) (ns : List PathNode) (leaf : Field) (msg : r.Msg)
      → IsChain (n ∷ ns) leaf
      → NoListBefore (n ∷ ns)
      → (m : r.Msg) × Descends r (n ∷ ns) msg m × (value_from r n ns msg ≡ ok (r.get m leaf))
  unfolding value_from
  value_from-ok n [] leaf msg c l = (msg, at_leaf, rw c refl)
  value_from-ok n (next ∷ ns) leaf msg (i, c) (s, l) =
      by_step n.step refl i s (λ m. value_from-ok next ns leaf m c l)
    where
      by_step :
          (step : Step)
          → n.step ≡ step
          → IsInner step
          → IsSingle step
          → ((m : r.Msg)
              → (m' : r.Msg) × Descends r (next ∷ ns) m m'
                × (value_from r next ns m ≡ ok (r.get m' leaf)))
          → (m' : r.Msg) × Descends r (n ∷ next ∷ ns) msg m'
            × ((let out : Result (Value r.Msg r.Other) = elim step [
              | in_oneof o ↦ value_from r next ns msg
              | in_field f ↦ elim f.kind [
                | scalar_kind k ↦ err not_a_message
                | message_kind flat sub ↦ elim (r.get msg f) [
                  | message_value m ↦ value_from r next ns m
                  | other_value v ↦ err wrong_value
                ]
              ]
            ] in
                  out)
                ≡ ok (r.get m' leaf))
      by_step (in_oneof o) at i s h = let (m', d, p) = h msg in (m', through_oneof at d, p)
      by_step (in_field f) at (flat, sub, q) s h =
          let (m, got) = gets msg f flat sub q s in
          let (m', d, p) = h m in (m', into_field at got d, rw (q, got) p)

  -- If protoreflect reads a message from each field that holds one and is not repeated: GetValue, on a
  -- path to a field that NewProtoPath or NewJSONPath returned, with no repeated field before its end,
  -- returns what the field is in the message that the path leads to, from message to message through the
  -- fields before it.
  pub get_value-ok :
      (p : NodePath) (leaf : Field) (msg : r.Msg)
      → IsFieldPath p leaf
      → NoListBefore p.path
      → (m : r.Msg) × Descends r p.path msg m × (get_value r p.path msg ≡ ok (r.get m leaf))
  unfolding get_value
  get_value-ok p leaf msg found single = from_chain p.path (field_path-IsChain p leaf found) single
    where
      from_chain :
          (ns : List PathNode)
          → IsChain ns leaf
          → NoListBefore ns
          → (m : r.Msg) × Descends r ns msg m × (get_value r ns msg ≡ ok (r.get m leaf))
      from_chain [] c l = absurd c
      from_chain (n ∷ ns) c l = value_from-ok n ns leaf msg c l

-- On such a path, Selector writes an expression for every table, and does not panic.
pub selector-ok :
    (nf : NestedField) (leaf : Field) (in_table : String)
    → IsFieldPath nf.path leaf
    → NoListBefore nf.path.path
    → (text : String) × (selector nf in_table ≡ ok text)
unfolding selector jsonb_arrow_path
selector-ok nf leaf in_table found single =
    by_column nf.value_column (arrows nf.path.path (field_path-IsChain nf.path leaf found) single)
  where
    arrows :
        (ns : List PathNode)
        → IsChain ns leaf
        → NoListBefore ns
        → (text : String) × (jsonb_arrow_path ns ≡ ok text)
    arrows [] c l = absurd c
    arrows (n ∷ ns) c l = let (out, p) = arrow_elements-ok n ns leaf c l in (concat out, rw p refl)

    by_column :
        (column : Option String)
        → (text : String) × (jsonb_arrow_path nf.path.path ≡ ok text)
        → (text : String) × ((let out : Result String = elim column [
          | some c ↦ ok (concat (in_table ∷ "." ∷ c ∷ []))
          | none ↦
              if is_empty nf.path.path
              then ok (concat (in_table ∷ "." ∷ nf.root_column ∷ []))
              else (jsonb_arrow_path nf.path.path >>= λ arrows.
                  ok (concat (in_table ∷ "." ∷ nf.root_column ∷ arrows ∷ [])))
        ] in
              out)
            ≡ ok text)
    by_column (some c) h = (_, refl)
    by_column none (text, p) = elim (Bool-cases (is_empty nf.path.path)) [
      | inl e ↦ (concat (in_table ∷ "." ∷ nf.root_column ∷ []), rw e refl)
      | inr e ↦ (concat (in_table ∷ "." ∷ nf.root_column ∷ text ∷ []), rw (e, p) refl)
    ]
