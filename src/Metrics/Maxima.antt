-- ===== src/Metrics/Maxima.antt =====
-- The watermarks after any sequence of recording calls since `metrics_init`.
use packet_analyzer.Prelude.{ℕ, ◌≡◌, ◌∙◌, ap, refl, arith, List, [], ◌∷◌, ◌++◌}
use packet_analyzer.Metrics.Counters.{
  Metrics, init, record_protocol, record_ethertype, inc_captured, inc_processed, inc_parse_errors,
  inc_checksum_failures, inc_queue_drops, inc_capture_drops,
}
use packet_analyzer.Metrics.Latency.{
  Attempt, raise, exchange_loop, observe_latency, update_queue_depth_max,
}
use packet_analyzer.Metrics.Watermark.{peak, exchange_loop-peak}
use packet_analyzer.Metrics.History.{
  Call, captured, processed, protocol, ethertype, parse_error, checksum_failure, queue_drop,
  capture_drop, latency, queue_depth, apply, run,
}

abbrev pub largest : List ℕ → ℕ
largest [] = 0
largest (x ∷ xs) = raise (largest xs) x

-- What the other threads raise a watermark to in the course of a call.
abbrev pub seen_values : List Attempt → List ℕ
seen_values [] = []
seen_values (a ∷ attempts) = a.seen ∷ seen_values attempts

-- The latencies, and the queue depths, that the calls report or that other threads do meanwhile.
abbrev pub reported_latencies : List Call → List ℕ
reported_latencies [] = []
reported_latencies (latency attempts ns ∷ calls) =
    seen_values attempts ++ (ns ∷ reported_latencies calls)
reported_latencies (_ ∷ calls) = reported_latencies calls

abbrev pub reported_depths : List Call → List ℕ
reported_depths [] = []
reported_depths (queue_depth attempts d ∷ calls) =
    seen_values attempts ++ (d ∷ reported_depths calls)
reported_depths (_ ∷ calls) = reported_depths calls

peak-largest :
    (value : ℕ) (attempts : List Attempt) (xs : List ℕ)
    → peak value attempts (largest xs) ≡ largest (seen_values attempts ++ (value ∷ xs))
peak-largest value [] xs = refl
peak-largest value (a ∷ attempts) xs =
    ap (λ (x : ℕ). raise x a.seen) (peak-largest value attempts xs)

-- One more value for a watermark that is the largest so far.
exchange-largest :
    (value : ℕ) (attempts : List Attempt) (xs : List ℕ) (shared : ℕ)
    → shared ≡ largest xs
    → exchange_loop value attempts shared shared ≡ largest (seen_values attempts ++ (value ∷ xs))
exchange-largest value attempts xs shared e =
    exchange_loop-peak value attempts shared shared (omega arith)
    ∙ (ap (peak value attempts) e ∙ peak-largest value attempts xs)

abbrev Maxima : List Call → Metrics → Type 0
Maxima calls m =
    (m.latency_max_ns ≡ largest (reported_latencies calls))
    × (m.queue_depth_max ≡ largest (reported_depths calls))

apply-Maxima :
    (c : Call) (calls : List Call) (m : Metrics) → Maxima calls m → Maxima (c ∷ calls) (apply m c)
unfolding apply inc_captured inc_processed record_protocol record_ethertype inc_parse_errors
    inc_checksum_failures inc_queue_drops inc_capture_drops update_queue_depth_max observe_latency
apply-Maxima (latency attempts ns) calls m h =
    (exchange-largest ns attempts (reported_latencies calls) m.latency_max_ns h.0, h.1)
apply-Maxima (queue_depth attempts d) calls m h =
    (h.0, exchange-largest d attempts (reported_depths calls) m.queue_depth_max h.1)
apply-Maxima (captured n) calls m h = h
apply-Maxima (processed n) calls m h = h
apply-Maxima (protocol p) calls m h = (ground (arith, h.0), ground (arith, h.1))
apply-Maxima (ethertype e) calls m h = (ground (arith, h.0), ground (arith, h.1))
apply-Maxima parse_error calls m h = h
apply-Maxima checksum_failure calls m h = h
apply-Maxima queue_drop calls m h = h
apply-Maxima capture_drop calls m h = h

-- After any sequence of recording calls since `metrics_init`, whatever other threads do to the
-- watermarks meanwhile as long as they only raise them, the latency watermark is exactly the largest
-- of all latencies, and the depth watermark of all queue depths, that the calls report or that the
-- others raise them to: 0 if there are none.
pub run_maxima :
    (calls : List Call)
    → ((run calls).latency_max_ns ≡ largest (reported_latencies calls))
      × ((run calls).queue_depth_max ≡ largest (reported_depths calls))
unfolding run init
run_maxima [] = (refl, refl)
run_maxima (c ∷ calls) = apply-Maxima c calls (run calls) (run_maxima calls)
