-- ===== src/Application.antt =====
-- The application of src/application over the kernel: what it keeps, checks, accepts and restores.
pub mod Equality
pub mod Requests
pub mod Checks
pub mod Records
pub mod Ports
pub mod Intake
pub mod Change
pub mod Runs
pub mod Budgets
