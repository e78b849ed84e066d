-- ===== src/Main/Printing.antt =====
-- When the capture loop of src/main.c prints: `metrics_print_human` every `--metrics-interval-ms` and
-- `metrics_print_live_stats` every `--stats-interval`, by the same rule, only after the warmup.
use packet_analyzer.Prelude.{
  ℕ, ◌+◌, ◌-◌, ◌*◌, ◌^◌, ◌≤◌, ◌<◌, ◌≡◌, arith, Bool, not, ◌&&◌, ◌||◌, List, [], ◌∷◌, leb,
  if◌then◌else◌, u64, sub64,
}
use packet_analyzer.Prelude.Int.{ℤ, pos, ltb_ℤ, pos_part}

-- The variables of one of the two reports, and how often it has been printed.
pub record Printing : Type 0 where
  pub warmup_complete : Bool
  pub last_print_ns : ℕ
  pub prints : ℕ

-- An option's number, in units of so many nanoseconds.
abbrev pub interval_ns : ℤ → ℕ → ℕ
interval_ns interval unit = u64 (pos_part interval * unit)

-- One round of the loop before its read of the socket, with the report on or off: the end of the
-- warmup sets the time anew.
unfoldable pub round : ℕ → Bool → ℕ → ℕ → Printing → Printing
round warmup_end_ns on length now_ns p =
    let complete = p.warmup_complete || leb warmup_end_ns now_ns in
    let last = if not p.warmup_complete && complete then now_ns else p.last_print_ns in
    if complete && on && leb length (sub64 now_ns last)
    then record { warmup_complete = complete; last_print_ns = now_ns; prints = p.prints + 1 }
    else record { warmup_complete = complete; last_print_ns = last; prints = p.prints }

-- The rounds that do not end the run, at these times.
unfoldable pub rounds : ℕ → ℤ → ℕ → List ℕ → Printing → Printing
rounds warmup_end_ns interval unit [] p = p
rounds warmup_end_ns interval unit (now_ns ∷ later) p =
    rounds warmup_end_ns interval unit later
      (round warmup_end_ns (ltb_ℤ (pos 0) interval) (interval_ns interval unit) now_ns p)

-- Before the loop.
abbrev pub begin : ℤ → ℕ → Printing
begin warmup_sec loop_start_ns = record {
  warmup_complete = not (ltb_ℤ (pos 0) warmup_sec);
  last_print_ns = loop_start_ns;
  prints = 0;
}

-- A clock that does not run backwards, from one time to another.
abbrev pub Rising : ℕ → List ℕ → ℕ → Type 0
Rising start [] end = start ≤ end
Rising start (now ∷ later) end = (start ≤ now) × Rising now later end

Rising-le : (start : ℕ) (times : List ℕ) (end : ℕ) → Rising start times end → start ≤ end
Rising-le start [] end h = h
Rising-le start (now ∷ later) end h = omega (arith, h.0, Rising-le now later end h.1)

Rising-earlier :
    (a b : ℕ) (times : List ℕ) (end : ℕ) → a ≤ b → Rising b times end → Rising a times end
Rising-earlier a b [] end le h = omega (arith, le, h)
Rising-earlier a b (now ∷ later) end le h = (omega (arith, le, h.0), h.1)

-- The time that the printed reports take up.
round-budget :
    (warmup_end_ns : ℕ) (on : Bool) (length now_ns : ℕ) (p : Printing)
    → p.last_print_ns ≤ now_ns
    → now_ns < 2 ^ 64
    → let q = round warmup_end_ns on length now_ns p in
      (q.prints * length + p.last_print_ns ≤ p.prints * length + q.last_print_ns)
      × (q.last_print_ns ≤ now_ns)
unfolding round
round-budget warmup_end_ns on length now_ns p before small =
    let one_more : (p.prints + 1) * length ≡ p.prints * length + length = omega arith in
    (ground (arith, one_more, before, small), ground (arith, before))

rounds-budget :
    (warmup_end_ns : ℕ) (interval : ℤ) (unit end : ℕ) (times : List ℕ) (p : Printing)
    → Rising p.last_print_ns times end
    → end < 2 ^ 64
    → (rounds warmup_end_ns interval unit times p).prints * interval_ns interval unit
        + p.last_print_ns
      ≤ p.prints * interval_ns interval unit + end
unfolding rounds
rounds-budget warmup_end_ns interval unit end [] p h small = omega (arith, h)
rounds-budget warmup_end_ns interval unit end (now_ns ∷ later) p h small =
    let on = ltb_ℤ (pos 0) interval in
    let length = interval_ns interval unit in
    let below = Rising-le now_ns later end h.1 in
    let one = round-budget warmup_end_ns on length now_ns p h.0 (omega (arith, below, small)) in
    let q = round warmup_end_ns on length now_ns p in
    let later_on =
      rounds-budget warmup_end_ns interval unit end later q
        (Rising-earlier q.last_print_ns now_ns later end one.1 h.1) small in
    omega (arith, one.0, later_on)

-- The reports of a run with a clock that does not run backwards take up no more than the time from
-- the start of its loop: printed every so many nanoseconds, a report comes out at most as often as the
-- interval goes into that time, whenever the rounds are and wherever the warmup ends. Times are below
-- 2^64.
pub rounds-AtMost :
    (warmup_end_ns : ℕ) (warmup_sec interval : ℤ) (unit loop_start_ns end : ℕ) (times : List ℕ)
    → Rising loop_start_ns times end
    → end < 2 ^ 64
    → (rounds warmup_end_ns interval unit times (begin warmup_sec loop_start_ns)).prints
        * interval_ns interval unit
      ≤ end - loop_start_ns
rounds-AtMost warmup_end_ns warmup_sec interval unit loop_start_ns end times h small =
    let budget =
      rounds-budget warmup_end_ns interval unit end times (begin warmup_sec loop_start_ns) h
        small in
    omega (arith, budget)
