-- ===== src/Psm/Tables.antt =====
-- The table map of psm/table_map.go: what may be missing in it, and its validation.
pub mod Validate
use protostate.Common.{String, Bool, Option, List}

-- schema_j5pb.KeyFormat.Type; `no_format` is nil.
pub data KeyFormat : Type 0 where
  no_format custom uuid id62 other_format : KeyFormat

-- schema_j5pb.Field.Type, as far as the migrations tell it apart; a key may have no format message.
pub data KeySchema : Type 0 where
  string_schema date_schema other_schema : KeySchema
  key_schema : Option KeyFormat → KeySchema

-- KeyColumn. ProtoField, ProtoName, ExplicitlyOptional and Unique are read by no code that is
-- modelled; Schema, which may be nil, only by the migrations.
pub record KeyColumn : Type 0 where
  pub column_name : String
  pub primary : Bool
  pub required : Bool
  pub schema : Option KeySchema

-- TableMap with its StateTableSpec and EventTableSpec. A *FieldSpec holds a column's name, or is nil.
pub record TableMap : Type 0 where
  pub key_columns : List KeyColumn
  pub state_table : String
  pub state_root : Option String
  pub event_table : String
  pub event_root : Option String
  pub event_id : Option String
  pub event_timestamp : Option String
  pub event_sequence : Option String
  pub event_snapshot : Option String

-- What the state machine has after NewStateMachine: a table map with every field in place.
pub record Tables : Type 0 where
  pub key_columns : List KeyColumn
  pub state_table : String
  pub state_root : String
  pub event_table : String
  pub event_root : String
  pub event_id : String
  pub event_timestamp : String
  pub event_sequence : String
  pub event_snapshot : String
