-- ===== src/Examples.antt =====
-- A worked history of one Change, tests of it, and the theorems at concrete inputs.
mod Scenario
mod Witnesses
mod Calls
mod Runs
mod Encodings
mod Contents
