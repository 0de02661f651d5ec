-- ===== src/Psm/Host.antt =====
-- What package psm calls outside the repository: the transaction of sqrlx, the outbox, uuid,
-- time.Now, protovalidate, protojson and proto, and the generated accessors of a machine.
use protostate.Common.{ℕ, String, Bool, Option, List, Result}
use protostate.Psm.Model.{Entity, Value, KeyMap, State, Event}

-- A parameter of an SQL statement, or a column of a row.
pub data Cell (e : Entity) : Type 0 where
  key : Value e → Cell e
  number : ℕ → Cell e
  stamp : Option e.Time → Cell e
  json : e.Json → Cell e

abbrev pub Row : Entity → Type 0
Row e = List (String × Cell e)

-- The calls that build a query with sqrl: Select(..).From(..).Where(Eq{..})...
pub record Select (e : Entity) : Type 0 where
  pub columns : List String
  pub table : String
  pub wheres : Row e

-- sqrlx.Upsert(..).Key(..).Set(..) and sqrl's Insert(..).Columns(..).Values(..).
pub data Insert (e : Entity) : Type 0 where
  upsert : String → Row e → Row e → Insert e
  insert : String → List String → List (Cell e) → Insert e

pub record Host (e : Entity) : Type 1 where
  pub Db : Type 0  -- the database as the transaction sees it
  -- tx.SelectRow; `none` is sql.ErrNoRows
  pub select_row : Db → Select e → Result (Option (List (Cell e)))
  -- tx.Insert
  pub exec : Db → Insert e → Result Db
  -- outbox.DefaultSender.Send and SendDelayed
  pub send : Db → e.Message → Result Db
  pub send_delayed : Db → e.Duration → e.Message → Result Db
  pub is_zero : e.Duration → Bool
  pub no_delay : e.Duration
  -- the nth result of uuid.NewString, and the nth reading of the clock
  pub uuid : ℕ → String
  pub now : ℕ → e.Time
  pub zero_time : e.Time  -- time.Time{}
  pub validate_event : Event e → Result (Unit {0})
  pub validate_state : State e → Result (Unit {0})
  pub validate_message : e.Message → Result (Unit {0})
  pub marshal_state : State e → Result e.Json
  pub unmarshal_state : e.Json → Result (State e)
  pub marshal_event : Event e → Result e.Json
  pub unmarshal_event : e.Json → Result (Event e)
  -- proto.Equal
  pub inner_equal : e.Inner → e.Inner → Bool
  pub event_equal : Event e → Event e → Bool
  -- date_j5t.Date.Equals, and == on the other dynamic values
  pub date_equal : e.Date → e.Date → Bool
  pub opaque_equal : e.Opaque → e.Opaque → Bool
  -- generated accessors
  pub keys_is_set : e.Keys → Bool
  pub inner_is_set : e.Inner → Bool
  pub empty_data : e.Data
  pub key_values : e.Keys → Result (KeyMap e)
  pub full_name : String
  pub event_key : e.Inner → String
  -- SetPSMEvent knows the concrete type
  pub known_event : e.Inner → Bool

-- What a run reads and changes in its transaction: the database, and how often uuid.NewString and
-- the clock have been called.
pub record World {e : Entity} (h : Host e) : Type 0 where
  pub db : h.Db
  pub draws : ℕ
  pub readings : ℕ
