-- ===== src/Kernel/Model.antt =====
-- The records and enumerations of src/kernel/change/model.rs that a command or a state holds.
pub mod Terms
pub mod Grants
pub mod Actions
pub mod Commands
