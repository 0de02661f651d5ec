-- ===== src/Psm/Recorded.antt =====
-- The row of an event in the event table, and the rows that StateMachine.store of
-- psm/statemachine.go writes.
use mathlib.Core.List.{Memᴰ}
use protostate.Common.{
  String, ◌≡◌, ◌≢◌, refl, some, List, [], ◌∷◌, ◌++◌, Every, ok, >>=-eq-ok, arith, lookup,
  str_eq_iff, str_eq_refl, mem-append_last,
}
use protostate.Psm.Model.{Entity, text, State, Event}
use protostate.Psm.Host.{Host, World, Cell, key, number, stamp, json, Row}
use protostate.Psm.Tx.{exec, in_db-ok}
use protostate.Psm.Tx.Ensures.{Ensures, Ensures-lift-bind, Ensures-bind}
use protostate.Psm.Keys.{KeyValue, KeyValues}
use protostate.Psm.Keys.Members.{In, key_values_of-members}
use protostate.Psm.Machine.{
  StateMachine, key_values, key_columns, key_cells, raw_values, store, insert_query,
}
use protostate.Psm.Storage.{Storage, IsNamed, zip_row}

module _ {e : Entity} where
  -- A column that is no key column is found behind the key columns.
  lookup-keys :
      (c : String) (kvs : List (KeyValue e)) (columns : List String) (cells : List (Cell e))
      → Every (λ kv. kv.column.column_name ≢ c) kvs
      → lookup c (zip_row (key_columns kvs ++ columns) (key_cells kvs ++ cells))
        ≡ lookup c (zip_row columns cells)
  unfolding lookup
  lookup-keys c [] columns cells k = refl
  lookup-keys c (kv ∷ kvs) columns cells k = ground (
    arith,
    str_eq_iff kv.column.column_name c,
    k kv (Memᴰ.head refl),
    lookup-keys c kvs columns cells (λ x m. k x (Memᴰ.tail m)),
  )

module _ {e : Entity} {h : Host e} (sm : StateMachine h) (st : Storage h sm.tables) where
  pub record Recorded (w : World h) (event : Event e) (state : State e) : Type 0 where
    pub event_json : e.Json
    pub state_json : e.Json
    pub event_written : h.marshal_event event ≡ ok event_json
    pub state_written : h.marshal_state state ≡ ok state_json
    pub row : Row e
    pub row_there : Memᴰ row (st.rows w.db sm.tables.event_table)
    pub has_id : lookup sm.tables.event_id row ≡ some (key (text event.metadata.event_id))
    pub has_event : lookup sm.tables.event_root row ≡ some (json event_json)
    pub has_state : lookup sm.tables.event_snapshot row ≡ some (json state_json)

module _ {e : Entity} {h : Host e} (sm : StateMachine h) (named : IsNamed sm.tables) where
  open named use {
    root_not_id, snapshot_not_id, root_not_timestamp, snapshot_not_timestamp, root_not_sequence,
    snapshot_not_sequence, snapshot_not_root,
  }

  abbrev row_of : List (KeyValue e) → Event e → e.Json → e.Json → Row e
  row_of kvs event event_json state_json =
      zip_row
        (sm.tables.event_id
          ∷ (key_columns kvs
              ++ (sm.tables.event_timestamp ∷ sm.tables.event_sequence ∷ sm.tables.event_root
                  ∷ sm.tables.event_snapshot ∷ [])))
        (key (text event.metadata.event_id)
          ∷ (key_cells kvs
              ++ (stamp event.metadata.timestamp
                  ∷ number event.metadata.sequence
                  ∷ json event_json
                  ∷ json state_json
                  ∷ [])))

  module _ (kvs : List (KeyValue e)) (event : Event e) (event_json state_json : e.Json)
      (known : Every (In sm.tables.key_columns) kvs) where
    row_of-id :
        lookup sm.tables.event_id (row_of kvs event event_json state_json)
        ≡ some (key (text event.metadata.event_id))
    unfolding lookup
    row_of-id = rw (str_eq_refl sm.tables.event_id)

    row_of-event :
        lookup sm.tables.event_root (row_of kvs event event_json state_json)
        ≡ some (json event_json)
    unfolding lookup
    row_of-event = ground (
      arith,
      str_eq_iff sm.tables.event_id sm.tables.event_root,
      root_not_id,
      lookup-keys sm.tables.event_root kvs
          (sm.tables.event_timestamp ∷ sm.tables.event_sequence ∷ sm.tables.event_root
            ∷ sm.tables.event_snapshot ∷ [])
          (stamp event.metadata.timestamp
            ∷ number event.metadata.sequence
            ∷ json event_json
            ∷ json state_json
            ∷ [])
          (λ kv m. named.keys_not_root kv.column (known kv m)),
      str_eq_iff sm.tables.event_timestamp sm.tables.event_root,
      root_not_timestamp,
      str_eq_iff sm.tables.event_sequence sm.tables.event_root,
      root_not_sequence,
      str_eq_refl sm.tables.event_root,
    )

    row_of-state :
        lookup sm.tables.event_snapshot (row_of kvs event event_json state_json)
        ≡ some (json state_json)
    unfolding lookup
    row_of-state = ground (
      arith,
      str_eq_iff sm.tables.event_id sm.tables.event_snapshot,
      snapshot_not_id,
      lookup-keys sm.tables.event_snapshot kvs
          (sm.tables.event_timestamp ∷ sm.tables.event_sequence ∷ sm.tables.event_root
            ∷ sm.tables.event_snapshot ∷ [])
          (stamp event.metadata.timestamp
            ∷ number event.metadata.sequence
            ∷ json event_json
            ∷ json state_json
            ∷ [])
          (λ kv m. named.keys_not_snapshot kv.column (known kv m)),
      str_eq_iff sm.tables.event_timestamp sm.tables.event_snapshot,
      snapshot_not_timestamp,
      str_eq_iff sm.tables.event_sequence sm.tables.event_snapshot,
      snapshot_not_sequence,
      str_eq_iff sm.tables.event_root sm.tables.event_snapshot,
      snapshot_not_root,
      str_eq_refl sm.tables.event_snapshot,
    )

  key_values-members :
      (keys : e.Keys) {kvs : KeyValues e}
      → key_values sm keys ≡ ok kvs
      → Every (In sm.tables.key_columns) kvs.values
  unfolding key_values
  key_values-members keys q =
      let (raw, q1, q2) = >>=-eq-ok (raw_values sm keys) _ q in
      key_values_of-members sm.tables.key_columns raw q2

  insert-Recorded :
      (st : Storage h sm.tables) (kvs : List (KeyValue e)) (state : State e) (event : Event e)
      → Every (In sm.tables.key_columns) kvs
      → (event_json state_json : e.Json) → h.marshal_event event ≡ ok event_json
      → h.marshal_state state ≡ ok state_json
      → (w : World h)
      → Ensures w
          (exec (insert_query sm kvs event event_json state_json))
          (λ _ w'. Recorded sm st w' event state)
  unfolding exec insert_query
  insert-Recorded st kvs state event known event_json state_json p q w = record {
    at = λ a w' r.
        let done =
          (in_db-ok (h.exec w.db (insert_query sm kvs event event_json state_json)) w r).0 in
        record {
          event_json = event_json;
          state_json = state_json;
          event_written = p;
          state_written = q;
          row = row_of kvs event event_json state_json;
          row_there = rw (st.insert_rows w.db sm.tables.event_table _ _ done) (mem-append_last _ _);
          has_id = row_of-id kvs event event_json state_json known;
          has_event = row_of-event kvs event event_json state_json known;
          has_state = row_of-state kvs event event_json state_json known;
        };
  }

  -- Storing a state and its event adds the row of the event, with the state as its snapshot.
  pub store-Recorded :
      (st : Storage h sm.tables) (state : State e) (event : Event e) (w : World h)
      → Ensures w (store sm state event) (λ _ w'. Recorded sm st w' event state)
  unfolding store
  store-Recorded st state event w = Ensures-lift-bind w _ _ λ state_json q.
      Ensures-lift-bind w _ _ λ event_json p. Ensures-lift-bind w _ _ λ kvs k.
        Ensures-lift-bind w _ _ λ _ full. Ensures-bind w _ _ λ _ v upserted.
          insert-Recorded st kvs.values state event (key_values-members state.keys k) event_json
            state_json p q v
