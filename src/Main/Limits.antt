-- ===== src/Main/Limits.antt =====
-- The ranges that option parsing keeps, and when it leaves.
use packet_analyzer.Prelude.{
  ℕ, ◌^◌, ◌≤◌, ◌<◌, ◌≡◌, refl, arith, Option, none, some, List, [], ◌∷◌, length, length-take,
}
use packet_analyzer.Prelude.Int.{ℤ, pos, negsuc, ◌≤ℤ◌}
use packet_analyzer.Main.Options.{
  Settings, Event, on_interface, on_duration, on_count, on_threads, on_icmp, on_warmup, on_measure,
  on_runs, on_stats, on_min, on_traffic, on_rate, on_target, on_debug, on_interval, on_json,
  on_baseline, on_fail, on_threshold, on_help, on_unknown, Outcome, continue, leave, to_u32,
  set_option, parse_options,
}

to_u32-lt : (n : ℤ) → to_u32 n < 2 ^ 32
to_u32-lt (pos n) = omega arith
to_u32-lt (negsuc n) = omega arith

module _ {Double : Type 0} where
  -- At least one run, 1 to 500 generated packets per second, an interface name of at most 255
  -- characters, and two counts that are `uint32_t`.
  abbrev pub InRange : Settings Double → Type 0
  InRange s =
      (pos 1 ≤ℤ s.num_runs)
      × (pos 1 ≤ℤ s.traffic_rate)
      × (s.traffic_rate ≤ℤ pos 500)
      × (length s.interface_name ≤ 255)
      × (s.max_packets < 2 ^ 32)
      × (s.min_packets < 2 ^ 32)

  -- Whether an option ends the parse, and the code that it ends with.
  abbrev pub ending : Event Double → Option ℕ
  ending on_help = some 0
  ending on_unknown = some 1
  ending _ = none

  abbrev pub first_ending : List (Event Double) → Option ℕ
  first_ending [] = none
  first_ending (e ∷ events) = elim (ending e) [ none ↦ first_ending events | some code ↦ some code ]

  -- Without an ending option, settings in range; with one, its exit code.
  abbrev pub Ends : Option ℕ → Outcome Double → Type 0
  Ends none (continue s) = InRange s
  Ends none (leave code) = ⊥
  Ends (some expected) (continue s) = ⊥
  Ends (some expected) (leave code) = code ≡ expected

  set_option-Ends :
      (s : Settings Double) (e : Event Double) → InRange s → Ends (ending e) (set_option s e)
  unfolding set_option
  set_option-Ends s (on_duration x) h = h
  set_option-Ends s (on_threads x) h = h
  set_option-Ends s (on_warmup x) h = h
  set_option-Ends s (on_measure x) h = h
  set_option-Ends s (on_stats x) h = h
  set_option-Ends s (on_traffic x) h = h
  set_option-Ends s (on_target x) h = h
  set_option-Ends s (on_interval x) h = h
  set_option-Ends s (on_json x) h = h
  set_option-Ends s (on_baseline x) h = h
  set_option-Ends s (on_threshold x) h = h
  set_option-Ends s on_icmp h = h
  set_option-Ends s on_debug h = h
  set_option-Ends s on_fail h = h
  set_option-Ends s (on_interface name) h = omega (arith, h, length-take 255 name)
  set_option-Ends s (on_count n) h = omega (arith, h, to_u32-lt n)
  set_option-Ends s (on_min n) h = omega (arith, h, to_u32-lt n)
  set_option-Ends s (on_runs n) h = ground (arith, h)
  set_option-Ends s (on_rate n) h = ground (arith, h)
  set_option-Ends s on_help h = refl
  set_option-Ends s on_unknown h = refl

  -- From settings in range, parsing any options ends with settings in range if neither help nor an
  -- unknown option is among them: at least one run, 1 to 500 generated packets per second, a name of
  -- at most 255 characters. Otherwise the program leaves with the code of the first of these, 0 for
  -- help and 1 for an unknown option.
  pub parse_options-Ends :
      (s : Settings Double) (events : List (Event Double))
      → InRange s
      → Ends (first_ending events) (parse_options s events)
  unfolding parse_options
  parse_options-Ends s [] h = h
  parse_options-Ends s (e ∷ events) h =
      go (λ s' k. parse_options-Ends s' events k) (ending e) (set_option s e)
        (set_option-Ends s e h)
    where
      go :
          ((s' : Settings Double)
            → InRange s'
            → Ends (first_ending events) (parse_options s' events))
          → (o : Option ℕ) (out : Outcome Double) → Ends o out
          → Ends
              (elim o [ none ↦ first_ending events | some code ↦ some code ])
              (elim out [ continue s' ↦ parse_options s' events | leave code ↦ leave code ])
      go ih none (continue s') k = ih s' k
      go ih none (leave code) k = absurd k
      go ih (some expected) (continue s') k = absurd k
      go ih (some expected) (leave code) k = k
