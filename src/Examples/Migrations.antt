-- ===== src/Examples/Migrations.antt =====
-- Examples of the tables of a state machine.
use protostate.Common.{String, ◌≡◌, refl, none, List, [], ◌∷◌, ok, lookup, without}
use protostate.Psm.Model.{Event, text, KeyMap}
use protostate.Psm.Tables.Validate.{as_map}
use protostate.Psm.Keys.{KeyValues, key_values_of}
use protostate.Psm.Machine.{insert_query, upsert_query}
use protostate.Migrate.Statement.{to_sql}
use protostate.Migrate.Print.{print_migrations}
use protostate.Migrate.Tables.{build_psm_tables, field_format}
use protostate.Migrate.Shape.{state_table_of, event_table_of}
use protostate.Migrate.Shape.Built.{build_psm_tables_lem}
use protostate.Migrate.Fit.{Fits, conflict_keys, store-Fits}
use protostate.Fixture.{machine, tables, order_id, shop, opened, Doc, state_doc}

abbrev formats : List String
formats = "uuid" ∷ []

build_psm_tables_lem_example :
    build_psm_tables (as_map tables)
    ≡ ok (state_table_of tables formats, event_table_of tables formats)
unfolding field_format
build_psm_tables_lem_example =
    (build_psm_tables_lem tables (state_table_of tables formats) (event_table_of tables formats)).1
      (formats, (refl, tt), refl, refl)

to_sql_test :
    to_sql (state_table_of tables formats)
    ≡ "CREATE TABLE foo (\n  order_id uuid,\n  state jsonb NOT NULL,\n  CONSTRAINT foo_pk PRIMARY KEY (order_id)\n);"
unfolding to_sql
to_sql_test = refl

print_migrations_test :
    print_migrations
      (record { to_sql = "A"; down_sql = "X" } ∷ record { to_sql = "B"; down_sql = "Y\nZ" } ∷ [])
    ≡ "-- +goose Up\n\nA\n\nB\n\n-- +goose Down\n\nY\nZ\n\nX\n"
unfolding print_migrations
print_migrations_test = refl

abbrev given : KeyMap shop
given = ("order_id", text "a") ∷ []

abbrev given_values : KeyValues shop
given_values = record {
  values = record { value = text "a"; column = order_id } ∷ [];
  missing_required = [];
}

given_read : key_values_of tables.key_columns given ≡ ok given_values
unfolding key_values_of lookup without
given_read = refl

abbrev event : Event shop
event = record {
  metadata = record { event_id = "e1"; sequence = 1; timestamp = none; cause = none };
  keys = "a";
  inner = opened;
}

abbrev json_doc : Doc
json_doc = state_doc 1 none none 1 "a" 0

store-Fits_example :
    Fits
      (insert_query machine given_values.values event json_doc json_doc)
      (event_table_of tables formats)
    × Fits (upsert_query machine given_values.values json_doc) (state_table_of tables formats)
    × (conflict_keys (upsert_query machine given_values.values json_doc) ≡ "order_id" ∷ [])
store-Fits_example =
    store-Fits machine given given_values event json_doc json_doc (tt, tt) given_read refl
      build_psm_tables_lem_example
