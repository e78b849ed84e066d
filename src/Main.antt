-- ===== src/Main.antt =====
-- src/main.c. `Main.Options` has the command line, `Main.Capture` the capture loop, `Main.Median` the
-- medians over the runs, `Main.Runs` the storage of the runs, `Main.Decision` the exit code; the other
-- children are about these.
pub mod Setup
pub mod Lifecycle
pub mod Traffic
pub mod RunFiles
pub mod Printing
pub mod Rounds
pub mod Pipeline
pub mod Options
pub mod Limits
pub mod Capture
pub mod Enqueued
pub mod Phases
pub mod Median
pub mod Sorted
pub mod Halves
pub mod Runs
pub mod Storage
pub mod Decision
pub mod Exit
pub mod Persistence
mod Tests
mod SetupTests
