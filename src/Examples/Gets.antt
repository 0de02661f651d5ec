-- ===== src/Examples/Gets.antt =====
-- Examples of Get.
use mathlib.Core.List.{Memᴰ}
use protostate.Common.{
  join, String, ◌≡◌, refl, none, some, List, [], ◌∷◌, Option, Result, ok, Every, ℕ, zero, suc,
}
use protostate.Pquery.Get.{Getter, GetQuery, Found, get}
use protostate.Pquery.Get.Asked.{IsClaim}
use protostate.Pquery.Get.Answer.{IsKey, get_guarded}

abbrev count_text : ℕ → String
count_text zero = "0"
count_text (suc zero) = "1"
count_text (suc (suc n)) = "2"

abbrev shop_getter : Getter
shop_getter = record {
  table_name = "item";
  data_column = "state";
  auth = some (ok (("tenant_id", "t1") ∷ []));
  auth_join =
      record {
        table_name = "owner";
        on = record { join_column = "id"; root_column = "owner_id" } ∷ [];
      }
      ∷ [];
  join = none;
}

abbrev stored : Found
stored = record { found_json = some "{}"; joined_json = [] }

abbrev item_row : GetQuery String → Result (Option Found)
item_row query = ok (some stored)

item_found :
    get {V = String} {C = String} {M = String}
      (λ v. ok v)
      count_text
      (λ s. ok s)
      (λ s. ok s)
      shop_getter
      (ok tt)
      (ok (("item_id", "i1") ∷ []))
      item_row
    ≡ ok ("{}", [])
unfolding get
item_found = refl

get_guarded_example :
    (fields : List (String × String)) × (query : GetQuery String) × (found : Found)
    × (json : String) × (◌≡◌ {A = Result (List (String × String))}
        (ok (("item_id", "i1") ∷ []))
        (ok fields))
    × (query.from ≡ "item AS _item__a1")
    × Every (IsKey {V = String} {C = String} (λ v. ok v) "_item__a1" query.keys) fields
    × ((Memᴰ "owner AS _owner__a2 ON _owner__a2.id = _item__a1.owner_id" query.joins × Unit {0})
        × ((pairs : List (String × String)) × (◌≡◌ {A = Result (List (String × String))}
              (ok (("tenant_id", "t1") ∷ []))
              (ok pairs))
            × Every (IsClaim "_owner__a2" query.claims) pairs))
    × (item_row query ≡ ok (some found))
    × (found.found_json ≡ some json)
    × (◌≡◌ {A = Result String} (ok json) (ok "{}"))
unfolding join
get_guarded_example =
    get_guarded {V = String} {C = String} {M = String} (λ v. ok v) count_text (λ s. ok s)
      (λ s. ok s) shop_getter (ok tt) (ok (("item_id", "i1") ∷ [])) item_row item_found
