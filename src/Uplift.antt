-- ===== src/Uplift.antt =====
-- The uplift subsystem (feature F5): the state machines, the waves and the exceptions.
pub mod StateMachine
pub mod Wave
pub mod Exceptions
pub mod Plans
pub mod Listing
pub mod Readers
pub mod Archival
