-- ===== src/Main/Tests.antt =====
-- Medians, storage and exit codes at concrete runs.
use packet_analyzer.Prelude.{
  ℕ, ◌+◌, ◌*◌, ◌≤◌, ◌<◌, ◌≡◌, ◌↔◌, ◌⊎◌, refl, arith, true, false, none, some, List, [], ◌∷◌, ◌++◌,
  map, leb, replicate,
}
use packet_analyzer.Prelude.Int.{ℤ, pos, negsuc, ◌-ℤ◌}
use packet_analyzer.Floating.Whole.{whole, whole-Monotone}
use packet_analyzer.Metrics.Metadata.{Metadata, none_text}
use packet_analyzer.Metrics.Counters.{init}
use packet_analyzer.Metrics.Snapshot.{Snapshot}
use packet_analyzer.Regression.Baseline.{Baseline}
use packet_analyzer.Regression.Compatible.{validate_metadata}
use packet_analyzer.Main.Options.{
  Settings, defaults, Event, on_rate, on_runs, on_help, on_unknown, parse_options,
}
use packet_analyzer.Main.Limits.{Ends, first_ending, parse_options-Ends}
use packet_analyzer.Main.Capture.{
  Plan, plan_of, Received, nothing, frame, queue_full, Tick, Loop, last_round, begin_run, capture,
}
use packet_analyzer.Main.Phases.{measuring, InPhase, run_measures}
use packet_analyzer.Main.Median.{insert, qsort, compare_by, median_uint64, median_double}
use packet_analyzer.Main.Sorted.{count}
use packet_analyzer.Main.Halves.{median_uint64_halves}
use packet_analyzer.Main.Runs.{Run, zero_run, run_of, measure}
use packet_analyzer.Main.Storage.{measure_stores_runs}
use packet_analyzer.Main.Decision.{loaded, gap, regressed, total_processed, exit_code}
use packet_analyzer.Main.Exit.{Persists, OnBaseline, exit_code_iff}
use packet_analyzer.Main.Persistence.{numeric, persistent-median}

abbrev latencies : List ℕ
latencies = 700 ∷ 200 ∷ 900 ∷ 400 ∷ []

median_of_four : median_uint64 latencies 4 ≡ 550
unfolding median_uint64 qsort insert compare_by
median_of_four = refl

median_uint64_halves_example :
    (4 ≤ 2 * count (λ x. leb x (median_uint64 latencies 4)) latencies)
    × (4 ≤ 2 * count (λ x. leb (median_uint64 latencies 4) x) latencies)
median_uint64_halves_example =
    median_uint64_halves latencies (ground arith) (refl, (refl, (refl, (refl, tt))))

abbrev quiet : Snapshot ℤ
quiet = record {
  copied = init;
  snapshot_time_ns = 10;
  elapsed_sec = pos 2;
  capture_elapsed_sec = pos 2;
}

measure_stores_runs_example :
    ((◌≡◌ {A = ℕ} 3 1) × (measure whole 3 (quiet ∷ quiet ∷ []) ≡ none))
    ⊎ ((1 < 3)
        × (measure whole 3 (quiet ∷ quiet ∷ [])
            ≡ some (
                map (run_of whole (zero_run whole)) (quiet ∷ quiet ∷ [])
                ++ replicate 1 (zero_run whole))))
measure_stores_runs_example =
    measure_stores_runs whole 3 (quiet ∷ quiet ∷ []) (ground arith) (ground arith)

abbrev run_at : ℤ → Run ℤ
run_at pps = record {
  pps = pps;
  mbps = pos 8;
  p95_ns = 500;
  pkts_processed = 100;
  bytes_processed = 6400;
  capture_elapsed_sec = pos 1;
  pps_regressed = false;
  mbps_regressed = false;
}

abbrev plain : Metadata
plain = record {
  interface = none_text;
  filter = none_text;
  os = none_text;
  git_sha = none_text;
  traffic_mode = none_text;
  traffic_target = none_text;
  threads = pos 4;
  bpf_buffer_size = pos 4096;
  duration_sec = pos 20;
  warmup_sec = pos 2;
  traffic_rate = pos 0;
  valid = true;
}

abbrev reference : Baseline ℤ
reference = record {
  pkts_processed_per_sec = pos 1000;
  mbps_processed = pos 8;
  latency_p95_ns = 500;
  drop_rate = pos 0;
  pkts_processed = 300;
  bytes_processed = 19200;
  queue_drops = 0;
  capture_drops = 0;
  elapsed_sec = pos 1;
  metadata = plain;
  valid = true;
}

-- Two of three runs are far below the baseline of 1000 packets per second.
abbrev slow_runs : List (Run ℤ)
slow_runs = run_at (pos 100) ∷ run_at (pos 1000) ∷ run_at (pos 50) ∷ []

exit_code_iff_example :
    let code = exit_code whole slow_runs 200 (loaded reference) (some plain) true (pos 0) in
    let enough = 200 ≤ total_processed whole slow_runs 0 in
    ((code ≡ 3) ↔ (total_processed whole slow_runs 0 < 200))
    × ((code ≡ 4) ↔ (
        enough
        × (true ≡ true)
        × OnBaseline whole
            (loaded reference)
            (λ b. (validate_metadata (some b.metadata) (some plain)).compatible ≡ false)))
    × ((code ≡ 2) ↔ (
        enough
        × (true ≡ true)
        × OnBaseline whole (loaded reference) (λ b.
          ((validate_metadata (some b.metadata) (some plain)).compatible ≡ true)
          × Persists whole b (pos 0) slow_runs)))
    × ((code ≡ 0) ⊎ (code ≡ 2) ⊎ (code ≡ 3) ⊎ (code ≡ 4))
exit_code_iff_example =
    exit_code_iff whole slow_runs 200 (loaded reference) (some plain) true (pos 0) (ground arith)

persistent-median_example :
    regressed whole (pos 1000) (pos 0) (median_double whole (pos 100 ∷ pos 1000 ∷ pos 50 ∷ []) 3)
    ≡ true
unfolding regressed gap ◌-ℤ◌ numeric
persistent-median_example =
    persistent-median whole whole-Monotone (pos 1000) (pos 0) (pos 100 ∷ pos 1000 ∷ pos 50 ∷ [])
      refl refl refl (refl, (refl, (refl, tt))) (ground arith)

abbrev settings : Settings ℤ
settings = defaults (b'e' ∷ b't' ∷ b'h' ∷ b'0' ∷ []) (pos 0)

-- A rate above the maximum, and help at the end.
abbrev options : List (Event ℤ)
options = on_rate (pos 900) ∷ on_runs (negsuc 2) ∷ on_help ∷ on_unknown ∷ []

parse_options-Ends_example : Ends (first_ending options) (parse_options settings options)
parse_options-Ends_example =
    parse_options-Ends settings options
      (ground arith, ground arith, ground arith, ground arith, ground arith, ground arith)

abbrev tick_at : ℕ → Received → Tick
tick_at now received = record {
  is_running = true;
  now_ns = now;
  start_ns = now + 1;
  capture_ns = now + 2;
  time = 1;
  received = received;
  mallocs = record {
    packet = true;
    raw_data = true;
    ethernet = true;
    ipv4 = true;
    tcp = true;
    udp = true;
    payload = true;
  };
  queued = queue_full;
}

-- A frame in the warmup of one second, nothing, and a frame behind it.
abbrev ticks : List Tick
ticks =
    tick_at 500 (frame (1 ∷ 2 ∷ []))
    ∷ tick_at 1000000500 nothing
    ∷ tick_at 1000000900 (frame (3 ∷ []))
    ∷ []

abbrev one_second : Plan
one_second = record { warmup_end_ns = 1000000400; measure_end_ns = 3000000400; max_packets = 0 }

one_measured : count (measuring one_second) ticks ≡ 1
one_measured = refl

run_measures_example :
    (l : Loop) × (capture (plan_of (pos 1) (pos 2) 0 400) ticks (begin_run (pos 1) 450) ≡ some l)
    × InPhase
        (plan_of (pos 1) (pos 2) 0 400)
        (last_round (plan_of (pos 1) (pos 2) 0 400) ticks (begin_run (pos 1) 450) 400)
        l
    × (l.metrics.pkts_captured ≤ count (measuring (plan_of (pos 1) (pos 2) 0 400)) ticks)
    × ((l.run_is_running ≡ false)
        ⊎ (l.metrics.pkts_captured ≡ count (measuring (plan_of (pos 1) (pos 2) 0 400)) ticks))
run_measures_example =
    run_measures (pos 1) (pos 2) 0 400 450 ticks (ground arith)
      (
        (ground arith, ground arith, ground arith, refl),
        (
          (ground arith, ground arith, tt, refl),
          ((ground arith, ground arith, ground arith, refl), tt),
        ),
      )
      (ground arith)
