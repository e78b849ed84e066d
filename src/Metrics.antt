-- ===== src/Metrics.antt =====
-- include/metrics.h and src/metrics.c. `Metrics.Counters` has the global structure and the counters,
-- `Metrics.Latency` the latency histogram and the watermarks, `Metrics.Snapshot` the snapshot and the
-- percentiles, `Metrics.Metadata` the run's configuration. The other children are about these.
pub mod Counters
pub mod Latency
pub mod Buckets
pub mod History
pub mod Watermark
pub mod Maxima
pub mod Snapshot
pub mod Decimal
pub mod Json
pub mod Report
pub mod Percentile
pub mod Metadata
mod Tests
