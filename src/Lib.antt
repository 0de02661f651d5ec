-- ===== src/Lib.antt =====
-- A model of protostate: the state machine runtime (package psm), the tables it is stored in
-- (internal/pgstore) and the queries on them (package pquery), with their correctness properties.
--
-- A state machine is registered as a set of transitions (psm/transition_builder.go). An event arrives
-- as an EventSpec (psm/event.go), in StateMachine.runTx (psm/statemachine.go), which checks whether the
-- event is in the event table already, reads the current state of its entity, and runs the event:
-- runEvent (psm/run.go) builds the transition for the state's status and the event's type, mutates the
-- state, writes the state and the event, calls the hooks (psm/transition.go), sends their side effects,
-- and then runs the events that the hooks chain. A follower replays events with followEvents.
--
-- The parts and their files:
--   Psm/Model       the messages: IState, IEvent, EventSpec, Cause (psm/gen_interfaces.go, psm/event.go)
--   Psm/Host        what the package calls elsewhere, as parameters: the database, the outbox, uuid, the
--                   clock, protovalidate, protojson, proto.Equal and the generated accessors
--   Psm/Tx          code in a transaction: it takes and returns the world, or ends with an error
--   Psm/Spec        validateAndPrepare (psm/event.go)
--   Psm/Tables      TableMap and its Validate (psm/table_map.go)
--   Psm/Keys        keyValues and assertPresentKeysMatch (psm/statemachine.go)
--   Psm/Callbacks   mutations, hooks and the baton (psm/gen_interfaces.go, psm/transition.go)
--   Psm/Transition  buildTransition and runMutations (psm/transition_builder.go, psm/transition.go)
--   Psm/Builder     From, OnEvent, Mutate, SetStatus, Noop, Hook and the global hooks
--   Psm/Config      StateMachineConfig and NewStateMachine (psm/builder.go, psm/statemachine.go)
--   Psm/Hooks       runHooks and runFollowerHooks (psm/transition.go)
--   Psm/Machine     the reads and writes of the tables (psm/statemachine.go)
--   Psm/Prepare     prepareEvent, nextStateEvent, deriveEvent (psm/statemachine.go)
--   Psm/Run         runEvent, followEvent, storeAfterMutation (psm/run.go)
--   Psm/Entry       runTx, runInitialEvent, followEvents, transitionFromLink (psm/statemachine.go)
--   Psm/Database    DBStateMachine: the methods that open a transaction (psm/statemachine.go)
--   Psm/Storage     what is relied on of the database and the codecs, as hypotheses
--   Psm/Induction, Psm/EventLog, Psm/Recorded, Psm/Replay   lemmas on whole runs
--   Proto           message descriptors of protoreflect and the annotations j5.list.v1 on them, which are
--                   generated code: data that the other parts read
--   Pgstore         paths to the fields of a message (internal/pgstore/path.go): Find for NewProtoPath and
--                   NewJSONPath, Walk for WalkPathNodes, Print for the SQL and JSON texts, Value for
--                   GetValue; Chain and Usable hold lemmas
--   Migrate         internal/pgstore/pgmigrate: Build the table builder, Statement the SQL, Print the
--                   printer, Tables BuildPSMTables; Shape describes the tables, Required and Fit compare
--                   them with what Psm/Machine writes
--   Pquery/Sort     requested sorts and tie breakers (pquery/sort.go)
--   Pquery/Filter   requested filters and default values (pquery/filter.go)
--   Pquery/Page     getPageSize, and List from the rows that the database answers (pquery/lister.go)
--   Pquery/Search   requested searches and the search columns (pquery/search.go)
--   Pquery/Identifiers   the search annotations of a message (pquery/search.go)
--   Pquery/Join     join conditions and table aliases (pquery/getter.go, pquery/query.go)
--   Pquery/Build    BuildQuery and validateQueryRequest: Keyset is the row comparison that a token
--                   continues at (pquery/lister.go)
--   Pquery/Get      Get, with FieldsToEqMap (pquery/getter.go, internal/dbconvert/dbconvert.go)
--   Fixture, Examples   a small machine with a working database, and runs of it
--
-- Representation: a pointer to a message that a function changes is returned beside its result. A Go
-- map is a list of pairs; its iteration order decides only which of several errors is returned. A
-- status is the number of its enum value. The sequence number of an event is taken modulo 2^64. A
-- callback is a function of the world and its arguments, that returns the world and its calls of the
-- baton. runEvent calls itself for chained events without a bound, so it runs on fuel, and ends with
-- an error of its own when the fuel is used up; statements about successful runs hold for any fuel.
--
-- A message descriptor is a finite tree, so a message type that contains itself has none. A panic is an
-- error, nil_dereference for one on a nil pointer. An event that is a nil interface is not modelled,
-- nor are the rows that a failed attempt of List's transaction leaves in front of those of the next. In
-- Pquery/Page the rows that the database answers to the query of a token and a limit are a parameter; a
-- client that asks page after page runs on fuel, and one round more than there are rows is enough.
--
-- Not modelled: the construction of a Lister and of a Getter from descriptors; the default sorts,
-- default filters and indexes, which keep the paths of a walk, whose slices share memory; the code
-- generators, dataload, the other conversions of dbconvert; and in psm the query sets, logging,
-- contexts, error texts and the default table map made from descriptors.
pub mod Common
pub mod Proto
pub mod Pgstore
pub mod Migrate
pub mod Psm
pub mod Pquery
pub mod Fixture
pub mod Examples
