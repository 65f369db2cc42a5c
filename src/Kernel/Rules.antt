-- ===== src/Kernel/Rules.antt =====
-- src/kernel/change/rules.rs and the rules of content.rs: who may do what, and what it changes.
pub mod Lookup
pub mod Dependencies
pub mod Roles
pub mod Creation
pub mod Origins
pub mod Requirements
pub mod Permission
pub mod Activation
pub mod Transition
pub mod Writes
