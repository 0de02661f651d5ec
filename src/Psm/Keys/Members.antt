-- ===== src/Psm/Keys/Members.antt =====
-- The columns of the key values that keyValues returns.
use mathlib.Core.List.{Memᴰ}
use protostate.Common.{
  ◌≡◌, refl, Option, none, some, List, [], ◌∷◌, Every, Every-cons, arith, lookup, without,
  if◌then◌else◌, Bool-cases, inl, inr, Result, ok, err, >>=-eq-ok,
}
use protostate.Psm.Model.{Entity, Value, KeyMap}
use protostate.Psm.Tables.{KeyColumn}
use protostate.Psm.Keys.{KeyValue, KeyValues, is_blank, missing, present, collect, key_values_of}

module _ {e : Entity} where
  missing-ok :
      (def : KeyColumn) (rest : Result (KeyValues e × KeyMap e)) {out : KeyValues e × KeyMap e}
      → missing def rest ≡ ok out
      → (got : KeyValues e × KeyMap e) × (rest ≡ ok got) × (out.0.values ≡ got.0.values)
  missing-ok def (ok got) q = (got, refl, ground arith)
  missing-ok def (err x) q = ground arith

  present-ok :
      (def : KeyColumn) (v : Value e) (rest : Result (KeyValues e × KeyMap e))
      {out : KeyValues e × KeyMap e}
      → present def v rest ≡ ok out
      → (got : KeyValues e × KeyMap e) × (rest ≡ ok got)
        × (out.0.values ≡ record { value = v; column = def } ∷ got.0.values)
  present-ok def v (ok got) q = (got, refl, ground arith)
  present-ok def v (err x) q = ground arith

  abbrev pub In : List KeyColumn → KeyValue e → Type 0
  In defs kv = Memᴰ kv.column defs

  In-tail :
      (def : KeyColumn) (defs : List KeyColumn) (kvs : List (KeyValue e))
      → Every (In defs) kvs
      → Every (In (def ∷ defs)) kvs
  In-tail def defs kvs k kv m = Memᴰ.tail (k kv m)

  from_missing :
      (def : KeyColumn) (defs : List KeyColumn) (rest : Result (KeyValues e × KeyMap e))
      {out : KeyValues e × KeyMap e}
      → ((got : KeyValues e × KeyMap e) → rest ≡ ok got → Every (In defs) got.0.values)
      → missing def rest ≡ ok out
      → Every (In (def ∷ defs)) out.0.values
  from_missing def defs rest k q =
      let (got, ran, same) = missing-ok def rest q in
      rw same (In-tail def defs got.0.values (k got ran))

  from_present :
      (def : KeyColumn) (v : Value e) (defs : List KeyColumn)
      (rest : Result (KeyValues e × KeyMap e)) {out : KeyValues e × KeyMap e}
      → ((got : KeyValues e × KeyMap e) → rest ≡ ok got → Every (In defs) got.0.values)
      → present def v rest ≡ ok out
      → Every (In (def ∷ defs)) out.0.values
  from_present def v defs rest k q =
      let (got, ran, same) = present-ok def v rest q in
      rw same (
        Every-cons (In (def ∷ defs)) got.0.values (Memᴰ.head refl)
          (In-tail def defs got.0.values (k got ran)))

  collect-members :
      (defs : List KeyColumn) (raw : KeyMap e) {out : KeyValues e × KeyMap e}
      → collect defs raw ≡ ok out
      → Every (In defs) out.0.values
  unfolding collect
  collect-members [] raw {out} q =
      let none_left : out.0.values ≡ [] = ground arith in rw none_left λ kv m. elim m [ ]
  collect-members (def ∷ defs) raw {out} q =
      split (λ m got. collect-members defs m {out = got}) (lookup def.column_name raw) q
    where
      split :
          ((m : KeyMap e) (got : KeyValues e × KeyMap e)
            → collect defs m ≡ ok got
            → Every (In defs) got.0.values)
          → (found : Option (Value e))
          → (elim found [
            | none ↦ missing def (collect defs raw)
            | some v ↦
                let rest = collect defs (without def.column_name raw) in
                if is_blank v then missing def rest else present def v rest
          ])
            ≡ ok out
          → Every (In (def ∷ defs)) out.0.values
      split later none r = from_missing def defs (collect defs raw) (later raw) r
      split later (some v) r = elim (Bool-cases (is_blank v)) [
        | inl blank ↦ from_missing def defs _ (later (without def.column_name raw)) (rw blank at r)
        | inr filled ↦
            from_present def v defs _ (later (without def.column_name raw)) (rw filled at r)
      ]

  pub key_values_of-members :
      (defs : List KeyColumn) (raw : KeyMap e) {got : KeyValues e}
      → key_values_of defs raw ≡ ok got
      → Every (In defs) got.values
  unfolding key_values_of
  key_values_of-members defs raw {got} q =
      let (out, ran, rest) = >>=-eq-ok (collect defs raw) _ q in
      let same : got ≡ out.0 = ground arith in rw same (collect-members defs raw ran)
