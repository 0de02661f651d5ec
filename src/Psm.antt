-- ===== src/Psm.antt =====
-- Package psm (psm/): the state machine runtime.
pub mod Model
pub mod Host
pub mod Tx
pub mod Spec
pub mod Tables
pub mod Keys
pub mod Callbacks
pub mod Transition
pub mod Builder
pub mod Hooks
pub mod Machine
pub mod Config
pub mod Storage
pub mod Prepare
pub mod Run
pub mod Entry
pub mod Database
pub mod Induction
pub mod EventLog
pub mod Recorded
pub mod Replay
