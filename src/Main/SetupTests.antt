-- ===== src/Main/SetupTests.antt =====
-- The set-up of `main` at concrete results of its calls.
use packet_analyzer.Prelude.{
  ℕ, ◌*◌, ◌-◌, ◌≤◌, List, Bool, arith, ◌==◌, if◌then◌else◌, ◌≢◌, ◌≡◌, refl, true, false, none, some,
  [], ◌∷◌, ◌++◌, codes, replicate, acquire, release, config_memory, name_memory, bpf_memory,
  descriptor, settle,
}
use packet_analyzer.Prelude.Int.{pos}
use packet_analyzer.Socket.Config.{
  Answers, linux, mac, driver, socket_init, socket_cleanup, bind_raw_mac, open_loop,
  enable_promiscuous_mac,
}
use packet_analyzer.Main.Traffic.{
  Signal, interrupt, terminate, kill, parent, running, zombie, gone, needed,
  traffic_generator_start, traffic_generator_stop, start-stop,
}
use packet_analyzer.Metrics.Decimal.{printed, digits_loop}
use packet_analyzer.Main.Printing.{begin, round, rounds, interval_ns, rounds-AtMost}
use packet_analyzer.Main.RunFiles.{last_dot, run_json_path, run_json_path-Distinct}
use packet_analyzer.Main.Setup.{set_up}
use packet_analyzer.Main.Lifecycle.{Given, start_up, shut_down, leaked, main_holds}

abbrev stubborn : Signal → Bool
stubborn interrupt = false
stubborn terminate = true
stubborn kill = true

-- The third device opens, and the interface cannot be set.
abbrev third : Answers
third =
    mac (λ i. if i == 2 then some 7 else none) none none (λ n. some (replicate 4 0)) 3 false true
      true true

third_closed :
    (set_up (driver third) (socket_init true true (codes "en0")) true true true true (pos 5)).events
    ≡ acquire config_memory
      ∷ acquire name_memory
      ∷ acquire (descriptor 7)
      ∷ acquire bpf_memory
      ∷ release (descriptor 7)
      ∷ release name_memory
      ∷ release bpf_memory
      ∷ release config_memory
      ∷ []
unfolding set_up socket_init socket_cleanup bind_raw_mac open_loop enable_promiscuous_mac
third_closed = refl

abbrev with_baseline : Given
with_baseline = record {
  has_json = true;
  has_baseline = true;
  has_mode = false;
  has_target = false;
  has_logger = true;
}

-- A complete run with too small a sample keeps the path of its baseline.
main_holds_example :
    let s =
      set_up
        (driver (linux (some 5) 2 true true))
        (socket_init true true (codes "eth0"))
        true
        true
        true
        true
        (pos 5) in
    settle [] (start_up with_baseline ++ (s.events ++ shut_down with_baseline false s))
    ≡ some (leaked with_baseline false s.socket)
main_holds_example =
    main_holds (linux (some 5) 2 true true) true true true true true true false (codes "eth0")
      (pos 5) with_baseline

-- Two signals end this one.
start-stop_example :
    let started = traffic_generator_start (some (codes "icmp")) (parent 77) none in
    (started.0 ≡ true)
    × (traffic_generator_stop stubborn started.1 running ≡ some (none, gone, needed stubborn))
    × (traffic_generator_stop stubborn started.1 zombie ≡ some (none, gone, interrupt ∷ []))
start-stop_example = start-stop stubborn 77 none refl (λ e. omega (arith, e))

-- The number goes before the last dot, also where that is a directory's.
named_json : run_json_path (codes "m.json") 2 ≡ codes "m_run3.json"
unfolding run_json_path last_dot printed digits_loop
named_json = refl

named_in_directory : run_json_path (codes "./m") 0 ≡ codes "_run1./m"
unfolding run_json_path last_dot printed digits_loop
named_in_directory = refl

run_json_path-Distinct_example :
    (run_json_path (codes "m.json") 0 ≢ run_json_path (codes "m.json") 1)
    × (run_json_path (codes "m.json") 0 ≢ codes "m.json")
run_json_path-Distinct_example =
    run_json_path-Distinct (codes "m.json") 0 1 (omega arith) (omega arith) (omega arith)
      (λ h. omega (arith, h))

abbrev at_rounds : List ℕ
at_rounds = 1000000 ∷ 2500000 ∷ 2600000 ∷ 6000000 ∷ []

-- One report: the first interval counts from the end of the warmup.
reported : (rounds 1000000 (pos 2) 1000000 at_rounds (begin (pos 1) 0)).prints ≡ 1
unfolding rounds round
reported = refl

rounds-AtMost_example :
    (rounds 1000000 (pos 2) 1000000 at_rounds (begin (pos 1) 0)).prints
      * interval_ns (pos 2) 1000000
    ≤ 7000000 - 0
rounds-AtMost_example =
    rounds-AtMost 1000000 (pos 1) (pos 2) 1000000 0 7000000 at_rounds
      (omega arith, (omega arith, (omega arith, (omega arith, omega arith)))) (omega arith)
