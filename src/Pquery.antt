-- ===== src/Pquery.antt =====
-- Package pquery: listing and getting entities from the tables of state machines.
pub mod Sort
pub mod Filter
pub mod Page
pub mod Search
pub mod Join
pub mod Identifiers
pub mod Build
pub mod Get
