-- ===== src/Fixture.antt =====
-- A small machine with a working database, on which the tests and the examples run.
mod Shop
mod Store
mod Machine
mod Storage
mod Runs
mod Messages
pub use Shop.*
pub use Store.*
pub use Machine.*
unfoldable pub use Storage.*
pub use Runs.*
pub use Messages.*
