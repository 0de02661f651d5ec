-- ===== src/Pgstore/Chain.antt =====
-- The paths that NewProtoPath and NewJSONPath return, and what the other methods do on them.
use protostate.Common.{
  ℕ, String, ◌≡◌, refl, Bool, true, false, Option, none, some, List, [], ◌∷◌, ◌++◌, Result, ok, err,
  ◌>>=◌, Returns, Returns-at, Returns-bind, not_a_message, map_in_path, no_such_field, ◌⊎◌, inl,
  inr, arith, if◌then◌else◌,
}
use protostate.Proto.{
  Message, Field, Oneof, Kind, scalar_kind, message_kind, by_json_name, fields_of,
}
use protostate.Pgstore.Nodes.{Step, in_field, in_oneof, PathNode, NodePath}
use protostate.Pgstore.Find.{
  Found, after_nodes, ends_in_field, ends_in_oneof, Visit, at_field, at_oneof, visit,
  proto_path_from, new_proto_path, find_flattened, find_field, any_map, oneof_type, json_path_from,
  new_json_path, as_path,
}

-- A node that another can follow.
abbrev pub IsInner : Step → Type 0
IsInner (in_oneof o) = Unit
IsInner (in_field f) = (flat : Bool) × (sub : Message) × (f.kind ≡ message_kind flat sub)

-- The nodes lead to a field.
abbrev pub IsChain : List PathNode → Field → Type 0
IsChain [] leaf = ⊥
IsChain (n ∷ []) leaf = n.step ≡ in_field leaf
IsChain (n ∷ m ∷ ns) leaf = IsInner n.step × IsChain (m ∷ ns) leaf

cons-IsChain :
    (n : PathNode) (ns : List PathNode) (leaf : Field)
    → IsInner n.step
    → IsChain ns leaf
    → IsChain (n ∷ ns) leaf
cons-IsChain n [] leaf i c = absurd c
cons-IsChain n (m ∷ ns) leaf i c = (i, c)

append-IsChain :
    (ns ms : List PathNode) (f leaf : Field) (flat : Bool) (sub : Message)
    → IsChain ns f
    → f.kind ≡ message_kind flat sub
    → IsChain ms leaf
    → IsChain (ns ++ ms) leaf
append-IsChain [] ms f leaf flat sub c k d = absurd c
append-IsChain (n ∷ []) ms f leaf flat sub c k d = cons-IsChain n ms leaf (rw c (flat, sub, k)) d
append-IsChain (n ∷ n' ∷ ns) ms f leaf flat sub (i, c) k d =
    (i, append-IsChain (n' ∷ ns) ms f leaf flat sub c k d)

-- If the leaf is a field, the nodes lead to it.
abbrev pub Leads : Found → Type 0
Leads found = (leaf : Field) → found.leaf_field ≡ some leaf → IsChain found.nodes leaf

field-Leads : (nodes : List PathNode) (f : Field) → IsChain nodes f → Leads (ends_in_field nodes f)
field-Leads nodes f c leaf q = rw (← some_injective q) c
  where
    some_injective : {a b : Field} → some a ≡ some b → a ≡ b
    some_injective q = cc

oneof-Leads : (nodes : List PathNode) (o : Oneof) → Leads (ends_in_oneof nodes o)
oneof-Leads nodes o leaf q = absurd (ground (arith, q))

after-Leads :
    (nodes : List PathNode) (f : Field) (flat : Bool) (sub : Message) (found : Found)
    → IsChain nodes f
    → f.kind ≡ message_kind flat sub
    → Leads found
    → Leads (after_nodes nodes found)
after-Leads nodes f flat sub found c k d leaf q =
    append-IsChain nodes found.nodes f leaf flat sub c k (d leaf q)

-- What the loop of NewProtoPath finds.
proto_path_from-Leads :
    (m : Message) (oneof : Option ℕ) (elem : String) (rest : List String)
    → Returns Leads (proto_path_from m oneof elem rest)
unfolding proto_path_from
proto_path_from-Leads m oneof elem [] = Returns-bind Leads (visit m oneof elem) _ (λ v p. last v)
  where
    last :
        (v : Visit)
        → Returns Leads (elim v [
          | at_field f ↦ ok (ends_in_field (record { name = elem; step = in_field f } ∷ []) f)
          | at_oneof i o ↦ ok (ends_in_oneof (record { name = elem; step = in_oneof o } ∷ []) o)
        ])
    last (at_field f) = field-Leads (record { name = elem; step = in_field f } ∷ []) f refl
    last (at_oneof i o) = oneof-Leads (record { name = elem; step = in_oneof o } ∷ []) o
proto_path_from-Leads m oneof elem (next ∷ more) = Returns-bind Leads (visit m oneof elem) _ (λ v p.
    inner (λ sub. proto_path_from sub none next more) (λ i. proto_path_from m (some i) next more)
      (λ sub. proto_path_from-Leads sub none next more)
      (λ i. proto_path_from-Leads m (some i) next more) v)
  where
    into_field :
        (go : Message → Result Found) (f : Field) (k : Kind)
        → f.kind ≡ k
        → ((sub : Message) → Returns Leads (go sub))
        → Returns Leads (elim k [
          | scalar_kind s ↦ err not_a_message
          | message_kind flat sub ↦ go sub >>= λ found.
              ok (after_nodes (record { name = elem; step = in_field f } ∷ []) found)
        ])
    into_field go f (scalar_kind s) q h = tt
    into_field go f (message_kind flat sub) q h = Returns-bind Leads (go sub) _ (λ found p.
        after-Leads (record { name = elem; step = in_field f } ∷ []) f flat sub found refl q
          (Returns-at Leads (go sub) (h sub) p))

    inner :
        (go : Message → Result Found) (stay : ℕ → Result Found)
        → ((sub : Message) → Returns Leads (go sub))
        → ((i : ℕ) → Returns Leads (stay i))
        → (v : Visit)
        → Returns Leads (elim v [
          | at_field f ↦ elim f.kind [
            | scalar_kind k ↦ err not_a_message
            | message_kind flat sub ↦ go sub >>= λ found.
                ok (after_nodes (record { name = elem; step = in_field f } ∷ []) found)
          ]
          | at_oneof i o ↦ stay i >>= λ found.
              ok (after_nodes (record { name = elem; step = in_oneof o } ∷ []) found)
        ])
    inner go stay h k (at_field f) = into_field go f f.kind refl h
    inner go stay h k (at_oneof i o) = Returns-bind Leads (stay i) _ (λ found p leaf q.
        cons-IsChain (record { name = elem; step = in_oneof o }) found.nodes leaf tt
          (Returns-at Leads (stay i) (k i) p leaf q))

-- What findField returns leads to the field that it returns.
abbrev Chained : Option (List PathNode × Field) → Type 0
Chained none = Unit
Chained (some (nodes, f)) = IsChain nodes f

find_flattened-Chained : (n : String) (fs : List Field) → Chained (find_flattened n fs)
unfolding find_flattened
find_flattened-Chained n [] = tt
find_flattened-Chained n (f ∷ fs) =
    by_kind (find_flattened n fs) (find_flattened-Chained n fs) f.kind refl
  where
    inside :
        (rest : Option (List PathNode × Field)) (sub : Message)
        → Chained rest
        → f.kind ≡ message_kind true sub
        → (o : Option Field)
        → Chained (elim o [
          | none ↦ rest
          | some inner ↦ some (
            record { name = f.info.name; step = in_field f }
                ∷ record { name = n; step = in_field inner }
                ∷ [],
            inner,
          )
        ])
    inside rest sub h q none = h
    inside rest sub h q (some inner) = ((true, sub, q), refl)

    by_kind :
        (rest : Option (List PathNode × Field))
        → Chained rest
        → (k : Kind) → f.kind ≡ k
        → Chained (elim k [
          | scalar_kind s ↦ rest
          | message_kind false sub ↦ rest
          | message_kind true sub ↦ elim (by_json_name n (fields_of sub)) [
            | none ↦ rest
            | some inner ↦ some (
              record { name = f.info.name; step = in_field f }
                  ∷ record { name = n; step = in_field inner }
                  ∷ [],
              inner,
            )
          ]
        ])
    by_kind rest h (scalar_kind s) q = h
    by_kind rest h (message_kind false sub) q = h
    by_kind rest h (message_kind true sub) q = inside rest sub h q (by_json_name n (fields_of sub))

find_field-Chained : (m : Message) (n : String) → Chained (find_field m n)
unfolding find_field
find_field-Chained m n = by_name_or (by_json_name n (fields_of m))
  where
    by_name_or :
        (o : Option Field)
        → Chained (elim o [
          | some f ↦ some (record { name = n; step = in_field f } ∷ [], f)
          | none ↦ find_flattened n (fields_of m)
        ])
    by_name_or none = find_flattened-Chained n (fields_of m)
    by_name_or (some f) = refl

-- What the loop of NewJSONPath finds.
json_path_from-Leads :
    (m : Message) (elem : String) (rest : List String) → Returns Leads (json_path_from m elem rest)
unfolding json_path_from
json_path_from-Leads m elem [] =
    last (find_field m elem) (find_field-Chained m elem) (oneof_type m elem)
  where
    last :
        (o : Option (List PathNode × Field))
        → Chained o
        → (t : Option Oneof)
        → Returns Leads (elim o [
          | none ↦ elim t [
            | none ↦ err (no_such_field elem)
            | some t' ↦ ok (ends_in_oneof (record { name = elem; step = in_oneof t' } ∷ []) t')
          ]
          | some (nodes, f) ↦ if any_map nodes then err map_in_path else ok (ends_in_field nodes f)
        ])
    last none c none = tt
    last none c (some t) = oneof-Leads (record { name = elem; step = in_oneof t } ∷ []) t
    last (some (nodes, f)) c t = checked (any_map nodes)
      where
        checked :
            (b : Bool) → Returns Leads (if b then err map_in_path else ok (ends_in_field nodes f))
        checked true = tt
        checked false = field-Leads nodes f c
json_path_from-Leads m elem (next ∷ more) =
    inner (λ sub. json_path_from sub next more) (λ sub. json_path_from-Leads sub next more)
      (find_field m elem) (find_field-Chained m elem)
  where
    into_field :
        (go : Message → Result Found) (nodes : List PathNode) (f : Field)
        → ((sub : Message) → Returns Leads (go sub))
        → IsChain nodes f
        → (b : Bool) (k : Kind) → f.kind ≡ k
        → Returns Leads (
            if b then err map_in_path else elim k [
              | scalar_kind s ↦ err not_a_message
              | message_kind flat sub ↦ go sub >>= λ found. ok (after_nodes nodes found)
            ])
    into_field go nodes f h c true k q = tt
    into_field go nodes f h c false (scalar_kind s) q = tt
    into_field go nodes f h c false (message_kind flat sub) q =
        Returns-bind Leads (go sub) _
          (λ found p. after-Leads nodes f flat sub found c q (Returns-at Leads (go sub) (h sub) p))

    inner :
        (go : Message → Result Found)
        → ((sub : Message) → Returns Leads (go sub))
        → (o : Option (List PathNode × Field)) → Chained o
        → Returns Leads (elim o [
          | none ↦ err (no_such_field elem)
          | some (nodes, f) ↦ if any_map nodes then err map_in_path else elim f.kind [
            | scalar_kind k ↦ err not_a_message
            | message_kind flat sub ↦ go sub >>= λ found. ok (after_nodes nodes found)
          ]
        ])
    inner go h none c = tt
    inner go h (some (nodes, f)) c = into_field go nodes f h c (any_map nodes) f.kind refl

-- A path to a field that NewProtoPath or NewJSONPath returned.
abbrev pub IsFieldPath : NodePath → Field → Type 0
IsFieldPath p leaf =
    ((m : Message) × (names : List String) × ((new_proto_path m names ≡ ok p)
        ⊎ (new_json_path m names ≡ ok p)))
    × (p.leaf_field ≡ some leaf)

path-IsChain :
    (m : Message) (r : Result Found) (p : NodePath) (leaf : Field)
    → Returns Leads r
    → (r >>= λ found. ok (as_path m found)) ≡ ok p
    → p.leaf_field ≡ some leaf
    → IsChain p.path leaf
path-IsChain m (err x) p leaf h q l = absurd (ground (arith, q))
path-IsChain m (ok found) p leaf h q l = rw (← same) (h leaf (ground (arith, l, same)))
  where
    same : as_path m found ≡ p
    same = cc

pub field_path-IsChain : (p : NodePath) (leaf : Field) → IsFieldPath p leaf → IsChain p.path leaf
unfolding new_proto_path new_json_path
field_path-IsChain p leaf ((m, [], inl q), l) = absurd (ground (arith, q))
field_path-IsChain p leaf ((m, [], inr q), l) = absurd (ground (arith, q))
field_path-IsChain p leaf ((m, elem ∷ rest, inl q), l) =
    path-IsChain m (proto_path_from m none elem rest) p leaf
      (proto_path_from-Leads m none elem rest) q l
field_path-IsChain p leaf ((m, elem ∷ rest, inr q), l) =
    path-IsChain m (json_path_from m elem rest) p leaf (json_path_from-Leads m elem rest) q l
