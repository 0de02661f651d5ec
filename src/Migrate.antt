-- ===== src/Migrate.antt =====
-- Creating the tables that the state machine writes: internal/pgstore/pgmigrate.
pub mod Build
pub mod Statement
pub mod Print
pub mod Tables
pub mod Shape
pub mod Required
pub mod Fit
