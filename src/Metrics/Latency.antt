-- ===== src/Metrics/Latency.antt =====
-- The latency histogram and the two watermarks of src/metrics.c.
use packet_analyzer.Prelude.{
  ℕ, zero, suc, ◌+◌, ◌/◌, Bool, true, false, not, List, [], ◌∷◌, ltb, ◌==◌, ◌&&◌, if◌then◌else◌,
  get_or, set,
}
use packet_analyzer.Metrics.Counters.{Metrics, fetch_add}

-- `while (val > 1 && bucket < 31)`: `n` is what `bucket` still has to 31.
unfoldable pub bucket_loop : ℕ → ℕ → ℕ → ℕ
bucket_loop zero val bucket = bucket
bucket_loop (suc n) val bucket = elim (ltb 1 val) [
  | true ↦ bucket_loop n (val / 2) (bucket + 1)
  | false ↦ bucket
]

-- `latency_bucket`
unfoldable pub latency_bucket : ℕ → ℕ
unfolding bucket_loop
latency_bucket latency_ns =
    if latency_ns == 0
    then 0
    else (if latency_ns / 1000 == 0 then 0 else bucket_loop 31 (latency_ns / 1000) 0)

-- What happens before one attempt of the compare-exchange: other threads have raised the shared value
-- to at least `seen`, and the exchange may fail for no reason.
pub record Attempt : Type 0 where
  pub seen : ℕ
  pub spurious : Bool

abbrev pub raise : ℕ → ℕ → ℕ
raise a b = if ltb a b then b else a

-- What the other threads still do once this one has left its loop.
abbrev pub raise_all : List Attempt → ℕ → ℕ
raise_all [] shared = shared
raise_all (a ∷ attempts) shared = raise_all attempts (raise shared a.seen)

-- The compare-exchange loop that both watermarks share: `current` is the thread's copy, `shared` the
-- atomic variable. The result is the variable once the loop has ended and all that is listed has
-- happened. An exchange that finds another value than `current` stores nothing and reads that value.
-- After the listed attempts no other thread interferes.
unfoldable pub exchange_loop : ℕ → List Attempt → ℕ → ℕ → ℕ
exchange_loop value [] current shared =
    if ltb current value then (if shared == current then value else raise shared value) else shared
exchange_loop value (a ∷ attempts) current shared =
    let shared' = raise shared a.seen in
    let again = exchange_loop value attempts shared' shared' in
    if ltb current value
    then (if shared' == current && not a.spurious then raise_all attempts value else again)
    else raise_all attempts shared'

unfoldable pub update_queue_depth_max : List Attempt → Metrics → ℕ → Metrics
update_queue_depth_max attempts m current_depth = record m {
  queue_depth_max = exchange_loop current_depth attempts m.queue_depth_max m.queue_depth_max;
}

-- `metrics_observe_latency`
unfoldable pub observe_latency : List Attempt → Metrics → ℕ → Metrics
observe_latency attempts m latency_ns = record m {
  latency_count = fetch_add m.latency_count 1;
  latency_sum_ns = fetch_add m.latency_sum_ns latency_ns;
  latency_max_ns = exchange_loop latency_ns attempts m.latency_max_ns m.latency_max_ns;
  latency_histogram =
      set m.latency_histogram (latency_bucket latency_ns)
        (fetch_add (get_or m.latency_histogram (latency_bucket latency_ns) 0) 1);
}
