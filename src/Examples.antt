-- ===== src/Examples.antt =====
-- The theorems at concrete inputs, and tests.
mod Text
mod World
mod Patterns
mod Allocations
mod Phases
mod Job
mod Program
mod Precise
mod Timed
mod Settings
