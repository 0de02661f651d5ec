-- ===== src/Psm/Config.antt =====
-- Configuring and building a state machine: psm/builder.go, and NewStateMachine of
-- psm/statemachine.go.
use Prim.Native.String.{◌++◌ as str_append}
use protostate.Common.{
  String, ◌≡◌, ◌≢◌, refl, Option, none, some, [], Result, ok, err, ◌>>=◌, arith, nil_dereference,
  external,
}
use protostate.Psm.Model.{Entity, KeyMap}
use protostate.Psm.Host.{Host}
use protostate.Psm.Tx.{Tx}
use protostate.Psm.Tables.{TableMap, Tables}
use protostate.Psm.Tables.Validate.{validate, as_map, IsComplete, validate_iff}
use protostate.Psm.Machine.{StateMachine}

pub record StateMachineConfig {e : Entity} (h : Host e) : Type 0 where
  pub key_values : Option (e.Keys → Result (KeyMap e))
  pub initial_state_func : Option (e.Keys → Tx h e.Inner)
  pub table_map : Option TableMap
  pub table_name : Option String

-- Reading through the pointers of a table map.
pub dereferenced : TableMap → Result Tables
dereferenced tm = do
  state_root ← at tm.state_root
  event_root ← at tm.event_root
  event_id ← at tm.event_id
  event_timestamp ← at tm.event_timestamp
  event_sequence ← at tm.event_sequence
  event_snapshot ← at tm.event_snapshot
  ok (record {
    key_columns = tm.key_columns;
    state_table = tm.state_table;
    state_root = state_root;
    event_table = tm.event_table;
    event_root = event_root;
    event_id = event_id;
    event_timestamp = event_timestamp;
    event_sequence = event_sequence;
    event_snapshot = event_snapshot;
  })
  where
    at : Option String → Result String
    at none = err nil_dereference
    at (some c) = ok c

-- `if smc.tableName != nil {…}`
unfoldable pub rename_tables : Option String → TableMap → TableMap
rename_tables none tm = tm
rename_tables (some name) tm = record tm {
  state_table = name;
  event_table = str_append name "_event";
}

-- `default_map` is what tableMapFromStateAndEvent returns for the descriptors of the messages.
module _ {e : Entity} {h : Host e} (default_map : Result TableMap) where
  -- `if smc.tableMap == nil {…}`
  unfoldable pub with_table_map : StateMachineConfig h → Result TableMap
  with_table_map cfg = elim cfg.table_map [ some tm ↦ ok tm | none ↦ default_map ]

  pub apply : StateMachineConfig h → Result (StateMachineConfig h)
  unfolding with_table_map rename_tables
  apply cfg = do
    tm ← with_table_map cfg
    ok (record cfg { table_map = some (rename_tables cfg.table_name tm) })

  pub new_state_machine : StateMachineConfig h → Result (StateMachine h)
  unfolding with_table_map dereferenced
  new_state_machine cfg = do
    tm ← with_table_map cfg
    elim (validate tm) [
      | some message ↦ err (external message)
      | none ↦ do
        tables ← dereferenced tm
        ok (record {
          transition_set = record {
            global_event_hooks = [];
            global_state_hooks = [];
            transitions = [];
          };
          key_value_func = cfg.key_values;
          initial_state_func = cfg.initial_state_func;
          tables = tables;
        })
    ]

  pub build_state_machine : StateMachineConfig h → Result (StateMachine h)
  unfolding apply new_state_machine
  build_state_machine cfg = do applied ← apply cfg; new_state_machine applied

  -- The machine of a configuration with these tables: it has no transitions yet.
  unfoldable pub fresh : StateMachineConfig h → Tables → StateMachine h
  fresh cfg tables = record {
    transition_set = record { global_event_hooks = []; global_state_hooks = []; transitions = [] };
    key_value_func = cfg.key_values;
    initial_state_func = cfg.initial_state_func;
    tables = tables;
  }

  -- If a table map is configured, or made by default, and is complete once TableName has renamed its
  -- tables, then BuildStateMachine gives the machine with those tables, and without transitions.
  pub build_state_machine_lem :
      (cfg : StateMachineConfig h) {tm : TableMap} (t : Tables)
      → with_table_map cfg ≡ ok tm
      → rename_tables cfg.table_name tm ≡ as_map t
      → t.state_table ≢ ""
      → t.event_table ≢ ""
      → build_state_machine cfg ≡ ok (fresh cfg t)
  unfolding build_state_machine fresh rename_tables
  build_state_machine_lem cfg t p q n1 n2 =
      rw (p, q) (ground (arith, (validate_iff (as_map t)).1 (t, refl, n1, n2)))

  -- If a table map is configured, or made by default, and is not complete once TableName has renamed
  -- its tables, then BuildStateMachine fails.
  pub build_state_machine_refuses :
      (cfg : StateMachineConfig h) {tm : TableMap}
      → with_table_map cfg ≡ ok tm
      → ¬ IsComplete (rename_tables cfg.table_name tm)
      → (sm : StateMachine h) → build_state_machine cfg ≢ ok sm
  unfolding build_state_machine
  build_state_machine_refuses cfg {tm} p n sm q =
      n ((validate_iff (rename_tables cfg.table_name tm)).0 (ground (arith, p, q)))
