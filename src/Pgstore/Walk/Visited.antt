-- ===== src/Pgstore/Walk/Visited.antt =====
-- The order in which WalkPathNodes visits the nodes of a message.
use protostate.Common.{
  ◌≡◌, refl, sym, ◌∙◌, ap, List, [], ◌∷◌, ◌++◌, Result, ok, ◌>>=◌, >>=-cong, >>=-assoc,
}
use protostate.Proto.{
  Message, message, Fields, no_fields, scalar, nested, Field, scalar_kind, message_kind,
}
use protostate.Pgstore.Nodes.{PathNode, NodePath, node_of, to_field}
use protostate.Pgstore.Walk.{walk, walk_fields, walk_path_nodes}

-- The paths of all fields below a message, each before those below it.
unfoldable mutual
  pub visited : Message → List PathNode → Message → List NodePath
  visited root path (message info fields) = visited_fields root path fields

  pub visited_fields : Message → List PathNode → Fields → List NodePath
  visited_fields root path no_fields = []
  visited_fields root path (scalar info k rest) =
      let f : Field = record { info = info; kind = scalar_kind k } in
      to_field root (path ++ node_of f ∷ []) f ∷ visited_fields root path rest
  visited_fields root path (nested info flat m rest) =
      let f : Field = record { info = info; kind = message_kind flat m } in
      to_field root (path ++ node_of f ∷ []) f
      ∷ (visited root (path ++ node_of f ∷ []) m ++ visited_fields root path rest)

module _ {S : Type 0} (callback : NodePath → S → Result S) where
  -- The callback on one path after the other, until it fails.
  pub call_each : List NodePath → S → Result S
  call_each [] s = ok s
  call_each (p ∷ ps) s = callback p s >>= λ t. call_each ps t

  call_each-append :
      (ps qs : List NodePath) (s : S)
      → call_each (ps ++ qs) s ≡ (call_each ps s >>= λ t. call_each qs t)
  unfolding call_each
  call_each-append [] qs s = refl
  call_each-append (p ∷ ps) qs s =
      >>=-cong (callback p s) _ _ (λ t. call_each-append ps qs t)
      ∙ sym (>>=-assoc (callback p s) _ _)

  module _ (root : Message) where
    mutual
      unfolding walk visited call_each

      walk_lem :
          (path : List PathNode) (m : Message) (s : S)
          → walk root callback path m s ≡ call_each (visited root path m) s
      walk_lem path (message info fields) s = walk_fields_lem path fields s

      walk_fields_lem :
          (path : List PathNode) (fields : Fields) (s : S)
          → walk_fields root callback path fields s ≡ call_each (visited_fields root path fields) s
      walk_fields_lem path no_fields s = refl
      walk_fields_lem path (scalar info k rest) s =
          >>=-cong (callback _ s) _ _ (λ t. walk_fields_lem path rest t)
      walk_fields_lem path (nested info flat m rest) s =
          let f : Field = record { info = info; kind = message_kind flat m } in
          let below = path ++ node_of f ∷ [] in
          >>=-cong (callback _ s) _ _ (λ t.
            >>=-cong (walk root callback below m t) _ _ (λ u. walk_fields_lem path rest u)
            ∙ ap (λ r. r >>= λ u. call_each (visited_fields root path rest) u) (walk_lem below m t)
            ∙ sym (call_each-append (visited root below m) (visited_fields root path rest) t))

    -- WalkPathNodes calls the callback on each field below the message, a field before those below it
    -- and otherwise in the order of declaration, up to the first error, which it returns.
    pub walk_path_nodes_lem :
        (s : S) → walk_path_nodes root callback s ≡ call_each (visited root [] root) s
    unfolding walk_path_nodes
    walk_path_nodes_lem s = walk_lem [] root s
