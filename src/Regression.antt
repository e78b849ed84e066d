-- ===== src/Regression.antt =====
-- include/regression.h and src/regression.c. `Regression.Baseline` has the structures, `Regression.Json`
-- the JSON helpers, `Regression.Load` the loading of a baseline, `Regression.Compatible` the validation
-- of its metadata, `Regression.Compare` the comparison of a run with it; the other children are about
-- these.
pub mod Baseline
pub mod Json
pub mod Extract
pub mod Numbers
pub mod Lines
pub mod Documents
pub mod NestedBytes
pub mod RoundTrip
pub mod Reload
pub mod Keys
pub mod Load
pub mod ReadFile
pub mod Usable
pub mod Compatible
pub mod MustMatch
pub mod Compare
pub mod Report
pub mod Verdict
pub mod SavedRun
mod Tests
mod JsonTests
mod ReloadTests
