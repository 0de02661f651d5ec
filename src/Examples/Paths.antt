-- ===== src/Examples/Paths.antt =====
-- Examples of the paths to the nodes of a message.
use mathlib.Core.List.{Memᴰ}
use protostate.Common.{ℕ, ◌+◌, String, ◌≡◌, refl, none, [], ◌∷◌, Result, ok, inl}
use protostate.Proto.{by_name}
use protostate.Pgstore.Nodes.{NodePath}
use protostate.Pgstore.Find.{new_proto_path}
use protostate.Pgstore.Print.{NestedField, selector}
use protostate.Pgstore.Value.{get_value}
use protostate.Pgstore.Usable.{GetsMessages, Descends, get_value-ok, selector-ok}
use protostate.Pgstore.Walk.{walk_path_nodes}
use protostate.Pgstore.Walk.Visited.{visited, call_each, walk_path_nodes_lem}
use protostate.Pgstore.Walk.Again.{IsNamed, visited-new_proto_path}
use protostate.Fixture.{item, numbers, seconds_path, seconds_field}

numbers-GetsMessages : GetsMessages numbers
numbers-GetsMessages msg f flat sub q singular = rw q (msg + 1, refl)

seconds_found : new_proto_path item ("made_at" ∷ "seconds" ∷ []) ≡ ok seconds_path
unfolding new_proto_path by_name
seconds_found = refl

get_value-ok_example :
    (m : ℕ) × Descends numbers seconds_path.path 5 m
    × (get_value numbers seconds_path.path 5 ≡ ok (numbers.get m seconds_field))
get_value-ok_example =
    get_value-ok numbers numbers-GetsMessages seconds_path seconds_field 5
      ((item, "made_at" ∷ "seconds" ∷ [], inl seconds_found), refl) (refl, tt)

abbrev seconds : NestedField
seconds = record { root_column = "state"; path = seconds_path; value_column = none }

selector-ok_example : (text : String) × (selector seconds "item" ≡ ok text)
selector-ok_example =
    selector-ok seconds seconds_field "item"
      ((item, "made_at" ∷ "seconds" ∷ [], inl seconds_found), refl) (refl, tt)

selector_test : selector seconds "item" ≡ ok "item.state->'madeAt'->>'seconds'"
unfolding selector
selector_test = refl

abbrev count_visits : NodePath → ℕ → Result ℕ
count_visits p n = ok (n + 1)

walk_path_nodes_lem_example :
    walk_path_nodes item count_visits 0 ≡ call_each count_visits (visited item [] item) 0
walk_path_nodes_lem_example = walk_path_nodes_lem count_visits item 0

item-IsNamed : IsNamed item
unfolding IsNamed by_name
item-IsNamed = (
  (refl, refl, (refl, refl, (refl, refl, (refl, refl, tt)))),
  (((refl, refl, tt), tt), ((tt, tt), tt)),
)

visited-new_proto_path_example : new_proto_path item ("made_at" ∷ "seconds" ∷ []) ≡ ok seconds_path
unfolding visited
visited-new_proto_path_example =
    visited-new_proto_path item item-IsNamed seconds_path
      (Memᴰ.tail (Memᴰ.tail (Memᴰ.tail (Memᴰ.head refl))))
