-- ===== src/Tests.antt =====
-- Tests: the theorems of the library at concrete inputs.
mod Fixtures
mod Encoding
mod Merging
mod Converging
mod Schedules
mod Placement
mod Pools
mod Kinds
mod Names
mod Tries
mod Validations
