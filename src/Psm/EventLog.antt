-- ===== src/Psm/EventLog.antt =====
-- The event table during the runs of a machine.
use mathlib.Core.List.{Memᴰ}
use protostate.Psm.Induction.Entries.{run_tx-at, follow_events-Moves}
use protostate.Psm.Entry.{run_tx, follow_events}
use protostate.Common.{String, mem-append_left, ℕ, ◌≡◌, List, ok}
use protostate.Psm.Model.{Entity, State, Event, EventSpec}
use protostate.Psm.Host.{Host, World, Row, Cell, upsert, insert}
use protostate.Psm.Tx.{in_db-ok, exec, send, send_delayed}
use protostate.Psm.Tx.Moves.{Moves, IsPath, Moves-lift, Moves-bind}
use protostate.Psm.Tables.{Tables}
use protostate.Psm.Machine.{StateMachine, store, upsert_query, insert_query}
use protostate.Psm.Storage.{Storage, IsNamed}
use protostate.Psm.Induction.{CallbacksMove, PartsMove}

module _ {e : Entity} {h : Host e} {tables : Tables} (st : Storage h tables) where
  abbrev pub events : World h → List (Row e)
  events w = st.rows w.db tables.event_table

  -- The database stays valid, and every row of the event table stays.
  pub record Grows (w w' : World h) : Type 0 where
    pub valid : st.Valid w.db → st.Valid w'.db
    pub keeps : (row : Row e) → Memᴰ row (events w) → Memᴰ row (events w')

  pub Grows-path : IsPath Grows
  Grows-path = record {
    same_db = λ w w' q. record { valid = λ v. rw q v; keeps = λ row m. rw q m };
    trans = λ u v w g k. record {
      valid = λ x. k.valid (g.valid x);
      keeps = λ row m. k.keeps row (g.keeps row m);
    };
  }

module _ {e : Entity} {h : Host e} (sm : StateMachine h) (st : Storage h sm.tables)
    (named : IsNamed sm.tables) where
  upsert-Grows :
      (keys sets : Row e) → Moves (Grows st) (exec {h = h} (upsert sm.tables.state_table keys sets))
  unfolding exec
  upsert-Grows keys sets = record {
    at = λ w a w' q.
        let done = (in_db-ok (h.exec w.db (upsert sm.tables.state_table keys sets)) w q).0 in
        record {
          valid = st.exec_valid w.db _ done;
          keeps = λ row m.
              rw
                (st.upsert_elsewhere w.db sm.tables.state_table sm.tables.event_table keys sets done
                  named.tables_differ)
                m;
        };
  }

  insert-Grows :
      (columns : List String) (cells : List (Cell e))
      → Moves (Grows st) (exec {h = h} (insert sm.tables.event_table columns cells))
  unfolding exec
  insert-Grows columns cells = record {
    at = λ w a w' q.
        let done = (in_db-ok (h.exec w.db (insert sm.tables.event_table columns cells)) w q).0 in
        record {
          valid = st.exec_valid w.db _ done;
          keeps = λ row m.
              rw (st.insert_rows w.db sm.tables.event_table columns cells done)
                (mem-append_left _ _ m);
        };
  }

  store-Grows : (state : State e) (event : Event e) → Moves (Grows st) (store sm state event)
  unfolding store upsert_query insert_query
  store-Grows state event =
      let path = Grows-path st in
      Moves-bind path _ _ (Moves-lift path _) λ state_json.
        Moves-bind path _ _ (Moves-lift path _) λ event_json.
          Moves-bind path _ _ (Moves-lift path _) λ kvs.
            Moves-bind path _ _ (Moves-lift path _)
              λ _. Moves-bind path _ _ (upsert-Grows _ _) λ _. insert-Grows _ _

  send-Grows : (m : e.Message) → Moves (Grows st) (send {h = h} m)
  unfolding send
  send-Grows m = record {
    at = λ w a w' q.
        let done = (in_db-ok (h.send w.db m) w q).0 in
        record {
          valid = st.send_valid w.db m done;
          keeps = λ row k. rw (st.send_events w.db m done) k;
        };
  }

  send_delayed-Grows :
      (d : e.Duration) (m : e.Message) → Moves (Grows st) (send_delayed {h = h} d m)
  unfolding send_delayed
  send_delayed-Grows d m = record {
    at = λ w a w' q.
        let done = (in_db-ok (h.send_delayed w.db d m) w q).0 in
        record {
          valid = st.send_delayed_valid w.db d m done;
          keeps = λ row k. rw (st.send_delayed_events w.db d m done) k;
        };
  }

  pub Grows-parts : CallbacksMove (Grows st) sm → PartsMove (Grows st) sm
  Grows-parts callbacks = record {
    path = Grows-path st;
    stores = store-Grows;
    sends = send-Grows;
    sends_delayed = send_delayed-Grows;
    callbacks = callbacks;
  }

  -- On a database as in Storage, with names that do not collide: if the registered callbacks keep the
  -- database valid and change and remove no row of the event table, so does every successful runTx,
  -- through all its chained and initial events.
  pub run_tx-Grows :
      CallbacksMove (Grows st) sm
      → (fuel : ℕ) (spec : EventSpec e) (w w' : World h) (a : State e)
      → (run_tx sm fuel spec w).0 ≡ ok (a, w')
      → Grows st w w'
  run_tx-Grows callbacks = run_tx-at (Grows-parts callbacks)

  -- On a database as in Storage, with names that do not collide: if the registered callbacks keep the
  -- database valid and change and remove no row of the event table, so does every successful
  -- followEvents.
  pub follow_events-Grows :
      CallbacksMove (Grows st) sm
      → (fuel : ℕ) (events : List (Event e)) (w w' : World h)
      → follow_events sm fuel events w ≡ ok (tt, w')
      → Grows st w w'
  follow_events-Grows callbacks fuel events w w' q =
      (follow_events-Moves (Grows-parts callbacks) fuel events).at w tt w' q
