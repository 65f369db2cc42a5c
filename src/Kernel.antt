-- ===== src/Kernel.antt =====
-- src/kernel/change: the portable rules of a Change.
pub mod Ids
pub mod Keys
pub mod Content
pub mod Model
pub mod State
pub mod Rules
