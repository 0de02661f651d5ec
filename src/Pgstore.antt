-- ===== src/Pgstore.antt =====
-- Package internal/pgstore: paths into the JSON columns of a table.
pub mod Nodes
pub mod Find
pub mod Print
pub mod Value
pub mod Chain
pub mod Usable
pub mod Walk
