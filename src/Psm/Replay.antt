-- ===== src/Psm/Replay.antt =====
-- Reading events back from the event table: firstEventUniqueCheck of psm/statemachine.go.
pub mod Capture
pub mod Again
pub mod Following
use mathlib.Core.List.{Memᴰ}
use mathlib.Core.Path.{subst}
use protostate.Common.{
  ℕ, zero, suc, String, ◌≡◌, ◌≢◌, refl, sym, ◌∙◌, ap, Bool, true, false, Option, none, some, List,
  [], ◌∷◌, Result, ok, err, guard, arith, if◌then◌else◌, lookup, duplicate_event_id, out_of_fuel,
}
use protostate.Psm.Model.{Entity, text, State, Event, EventSpec}
use protostate.Psm.Host.{Host, World, Cell, key, json, Row, Select}
use protostate.Psm.Tx.{◌>>=◌, select_row, lift, pure}
use protostate.Psm.Machine.{StateMachine, event_query, first_event_unique_check}
use protostate.Psm.Storage.{Storage, Codec, Answers, Projects, Meets}
use protostate.Psm.EventLog.{Grows}
use protostate.Psm.Recorded.{Recorded}

module _ {e : Entity} {h : Host e} (sm : StateMachine h) (st : Storage h sm.tables) where
  pub Recorded-Grows :
      {w w' : World h} {event : Event e} {state : State e}
      → Recorded sm st w event state
      → Grows st w w'
      → Recorded sm st w' event state
  Recorded-Grows r g = record {
    event_json = r.event_json;
    state_json = r.state_json;
    event_written = r.event_written;
    state_written = r.state_written;
    row = r.row;
    row_there = g.keeps r.row r.row_there;
    has_id = r.has_id;
    has_event = r.has_event;
    has_state = r.has_state;
  }

  abbrev replay_query : String → Select e
  replay_query id = event_query sm id (sm.tables.event_snapshot ∷ [])

  module _ (w : World h) (event : Event e) (state : State e) (valid : st.Valid w.db)
      (rec : Recorded sm st w event state) where
    -- The query of the uniqueness check finds the row of a recorded event.
    finds_row :
        (r : Result (Option (List (Cell e))))
        → Answers (st.rows w.db sm.tables.event_table) (replay_query event.metadata.event_id) r
        → r ≡ ok (some (json rec.event_json ∷ json rec.state_json ∷ []))
    unfolding event_query
    finds_row (err x) (row, m, met, lacks) =
        let same : row ≡ rec.row =
          st.unique_id row rec.row valid m rec.row_there met.0 rec.has_id in
        absurd (
          lacks (json rec.event_json ∷ json rec.state_json ∷ [])
            (rw same (rec.has_event, (rec.has_state, tt))))
    finds_row (ok none) a = absurd (a rec.row rec.row_there (rec.has_id, tt))
    finds_row (ok (some cells)) (row, m, met, columns) =
        let same : row ≡ rec.row =
          st.unique_id row rec.row valid m rec.row_there met.0 rec.has_id in
        ap (λ c. ok (some c))
          (cells_are cells (
            subst (λ r. Projects (sm.tables.event_root ∷ sm.tables.event_snapshot ∷ []) r cells)
              same columns))
      where
        cells_are :
            (cs : List (Cell e))
            → Projects (sm.tables.event_root ∷ sm.tables.event_snapshot ∷ []) rec.row cs
            → cs ≡ json rec.event_json ∷ json rec.state_json ∷ []
        cells_are [] p = absurd p
        cells_are (a ∷ []) p = absurd p.1
        cells_are (a ∷ b ∷ []) p = cc (p.0, p.1.0, rec.has_event, rec.has_state)
        cells_are (a ∷ b ∷ c ∷ cs) p = absurd p.1.1

    pub check-recorded :
        Codec h
        → (inner : e.Inner)
        → first_event_unique_check sm event.metadata.event_id inner w
          ≡ (if h.inner_equal event.inner inner then ok (some state, w) else err duplicate_event_id)
    unfolding first_event_unique_check ◌>>=◌ event_query
    check-recorded codec inner = ground (
      arith,
      finds_row (h.select_row w.db (replay_query event.metadata.event_id))
          (st.select_answers w.db (replay_query event.metadata.event_id) valid),
      codec.read_event event rec.event_written,
      codec.read_state state rec.state_written,
    )
