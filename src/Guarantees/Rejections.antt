-- ===== src/Guarantees/Rejections.antt =====
-- A rejected operation: what it leaves, and the lookups that never fail.
pub mod Computed
pub mod Activation
pub mod Unchanged
