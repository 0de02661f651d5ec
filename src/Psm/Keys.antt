-- ===== src/Psm/Keys.antt =====
-- The key values of an entity: keyValues and assertPresentKeysMatch of psm/statemachine.go.
pub mod Columns
pub mod Members
use protostate.Common.{
  String, Bool, false, none, some, List, [], ◌∷◌, is_empty, lookup, without, str_eq, if◌then◌else◌,
  Result, ok, err, ◌>>=◌, primary_key_missing, unexpected_keys, key_not_present, key_mismatch,
}
use protostate.Psm.Model.{Entity, Value, text, date, other, KeyMap}
use protostate.Psm.Host.{Host}
use protostate.Psm.Tables.{KeyColumn}

pub record KeyValue (e : Entity) : Type 0 where
  pub value : Value e
  pub column : KeyColumn

pub record KeyValues (e : Entity) : Type 0 where
  pub values : List (KeyValue e)
  pub missing_required : List String

abbrev pub names : {V : Type 0} → List (String × V) → List String
names [] = []
names ((k, v) ∷ m) = k ∷ names m

module _ {e : Entity} where
  -- `gotValue == ""`, a comparison of an `any` with a string.
  abbrev pub is_blank : Value e → Bool
  is_blank (text s) = str_eq s ""
  is_blank (date d) = false
  is_blank (other v) = false

  -- One more column without a value: `rest` is the outcome for the columns after it.
  abbrev missing : KeyColumn → Result (KeyValues e × KeyMap e) → Result (KeyValues e × KeyMap e)
  missing def rest = if def.primary then err (primary_key_missing def.column_name) else do
    (got, raw) ← rest
    ok (
      if def.required
          then record got { missing_required = def.column_name ∷ got.missing_required }
          else got,
      raw,
    )

  abbrev present :
      KeyColumn → Value e → Result (KeyValues e × KeyMap e) → Result (KeyValues e × KeyMap e)
  present def v rest = do
    (got, raw) ← rest
    ok (record got { values = record { value = v; column = def } ∷ got.values }, raw)

  -- The loop over the key columns, with what it leaves of the raw values.
  unfoldable pub collect : List KeyColumn → KeyMap e → Result (KeyValues e × KeyMap e)
  collect [] raw = ok (record { values = []; missing_required = [] }, raw)
  collect (def ∷ defs) raw = elim (lookup def.column_name raw) [
    | none ↦ missing def (collect defs raw)
    | some v ↦
        let rest = collect defs (without def.column_name raw) in
        if is_blank v then missing def rest else present def v rest
  ]

  -- keyValues behind the choice of keyValueFunc.
  unfoldable pub key_values_of : List KeyColumn → KeyMap e → Result (KeyValues e)
  unfolding collect
  key_values_of defs raw = do
    (got, left) ← collect defs raw
    if is_empty left then ok got else err (unexpected_keys (names left))

module _ {e : Entity} (h : Host e) where
  -- The comparison in assertPresentKeysMatch: by Equals on dates, else by == on `any`.
  abbrev pub same_value : Value e → Value e → Bool
  same_value (date a) (date b) = h.date_equal a b
  same_value (text a) (text b) = str_eq a b
  same_value (other a) (other b) = h.opaque_equal a b
  same_value _ _ = false

  unfoldable pub match_keys : KeyMap e → KeyMap e → Result (Unit {0})
  match_keys existing [] = ok tt
  match_keys existing ((k, v) ∷ rest) =
      let after = match_keys existing rest in
      elim (lookup k existing) [
        | none ↦ err (key_not_present k)
        | some x ↦ if same_value x v then after else err (key_mismatch k)
      ]

  unfoldable pub assert_present_keys_match : e.Keys → e.Keys → Result (Unit {0})
  unfolding match_keys
  assert_present_keys_match existing event = do
    a ← h.key_values existing
    event_map ← h.key_values event
    match_keys a event_map
