-- ===== src/Examples/Config.antt =====
-- Examples of building a state machine from a configuration.
use protostate.Common.{◌≡◌, ◌≢◌, refl, ap, none, some, ok, err, arith, nil_dereference}
use protostate.Psm.Tables.{TableMap, Tables}
use protostate.Psm.Tables.Validate.{as_map, IsComplete}
use protostate.Psm.Config.{
  StateMachineConfig, with_table_map, rename_tables, build_state_machine, fresh,
  build_state_machine_lem, build_state_machine_refuses,
}
use protostate.Fixture.{host, machine, tables, str_differ}

abbrev config : StateMachineConfig host
config = record {
  key_values = none;
  initial_state_func = none;
  table_map = some (as_map tables);
  table_name = some "shop";
}

abbrev shop_tables : Tables
shop_tables = record tables { state_table = "shop"; event_table = "shop_event" }

build_state_machine_lem_example :
    build_state_machine (err nil_dereference) config
    ≡ ok (fresh (err nil_dereference) config shop_tables)
unfolding with_table_map rename_tables
build_state_machine_lem_example =
    build_state_machine_lem (err nil_dereference) config shop_tables refl refl
      (str_differ "shop" "" refl) (str_differ "shop_event" "" refl)

abbrev rootless : TableMap
rootless = record (as_map tables) { event_root = none }

abbrev rootless_config : StateMachineConfig host
rootless_config = record config { table_map = some rootless; table_name = none }

rootless_incomplete : ¬ IsComplete rootless
rootless_incomplete (t, same, p, q) =
    absurd (ground (arith, ap (λ (m : TableMap). m.event_root) same))

build_state_machine_refuses_example :
    build_state_machine (err nil_dereference) rootless_config ≢ ok machine
unfolding with_table_map rename_tables
build_state_machine_refuses_example =
    build_state_machine_refuses (err nil_dereference) rootless_config refl rootless_incomplete
      machine
