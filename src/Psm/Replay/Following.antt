-- ===== src/Psm/Replay/Following.antt =====
-- followEvents on an event that is in the event table.
use mathlib.Core.Path.{subst}
use protostate.Common.{
  ℕ, ◌≡◌, refl, Option, none, some, List, [], ◌∷◌, Result, ok, err, arith, scan_columns,
}
use protostate.Psm.Model.{Entity, State, Event}
use protostate.Psm.Host.{Host, World, Cell, json}
use protostate.Psm.Tx.{◌>>=◌}
use protostate.Psm.Machine.{StateMachine, event_query, follow_event_deduplicate}
use protostate.Psm.Entry.{follow_one}
use protostate.Psm.Storage.{Storage, Answers, Projects}
use protostate.Psm.Recorded.{Recorded}

module _ {e : Entity} {h : Host e} (sm : StateMachine h) (st : Storage h sm.tables) (w : World h)
    (event : Event e) (state : State e) (valid : st.Valid w.db)
    (rec : Recorded sm st w event state) where
  finds_one :
      (r : Result (Option (List (Cell e))))
      → Answers (st.rows w.db sm.tables.event_table) (event_query sm event.metadata.event_id []) r
      → r ≡ ok (some (json rec.event_json ∷ []))
  unfolding event_query
  finds_one (err x) (row, m, met, lacks) =
      let same : row ≡ rec.row = st.unique_id row rec.row valid m rec.row_there met.0 rec.has_id in
      absurd (lacks (json rec.event_json ∷ []) (rw same (rec.has_event, tt)))
  finds_one (ok none) a = absurd (a rec.row rec.row_there (rec.has_id, tt))
  finds_one (ok (some cells)) (row, m, met, columns) =
      let same : row ≡ rec.row = st.unique_id row rec.row valid m rec.row_there met.0 rec.has_id in
      rw (cells_are cells (subst (λ r. Projects (sm.tables.event_root ∷ []) r cells) same columns))
        refl
    where
      cells_are :
          (cs : List (Cell e))
          → Projects (sm.tables.event_root ∷ []) rec.row cs
          → cs ≡ json rec.event_json ∷ []
      cells_are [] p = absurd p
      cells_are (a ∷ []) p = cc (p.0, rec.has_event)
      cells_are (a ∷ b ∷ cs) p = absurd p.1

  -- On a valid database as in Storage: an event that is in the event table, in the very form in which it is followed, cannot be followed:
  -- if it is valid, the check for duplicates fails to scan its row, since the query has one column.
  pub follow_one-recorded :
      (fuel : ℕ) → h.validate_event event ≡ ok tt → follow_one sm fuel event w ≡ err scan_columns
  unfolding follow_one follow_event_deduplicate ◌>>=◌ event_query
  follow_one-recorded fuel p = ground (
    arith,
    p,
    finds_one (h.select_row w.db (event_query sm event.metadata.event_id []))
        (st.select_answers w.db (event_query sm event.metadata.event_id []) valid),
  )
