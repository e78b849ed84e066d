-- ===== src/Main/Phases.antt =====
-- What a measurement run counts, in its warmup and behind it.
use packet_analyzer.Prelude.{
  ℕ, ◌+◌, ◌^◌, ◌≤◌, ◌<◌, ◌≡◌, sym, subst, ◌⊎◌, inl, inr, refl, arith, Bool, true, false, not, ◌&&◌,
  Bool-cases, Option-cases, some, List, [], ◌∷◌, ltb, leb, ◌==◌, if◌then◌else◌, length, u32,
}
use packet_analyzer.Prelude.Int.{ℤ}
use packet_analyzer.Packet.Bounds.{create-some}
use packet_analyzer.Metrics.Counters.{Metrics, init, start, inc_captured, inc_queue_drops}
use packet_analyzer.Metrics.Latency.{update_queue_depth_max}
use packet_analyzer.Main.Sorted.{count}
use packet_analyzer.Main.Capture.{
  Plan, plan_of, Received, error, nothing, frame, Tick, Loop, Queued, accepted, queue_full,
  no_memory, queue_effect, last_round, begin_run, end_warmup, take_frame, round, capture,
}

-- A round that receives a frame between the end of the warmup and the end of the measurement.
abbrev pub has_frame : Received → Bool
has_frame error = false
has_frame nothing = false
has_frame (frame bytes) = not (length bytes == 0)

abbrev pub measuring : Plan → Tick → Bool
measuring plan t =
    has_frame t.received
    && leb plan.warmup_end_ns t.now_ns
    && not (ltb 0 plan.measure_end_ns && leb plan.measure_end_ns t.now_ns)

abbrev pub IsReceived : Received → Type 0
IsReceived (frame bytes) = length bytes ≤ 65535
IsReceived _ = Unit {0}

-- The clock does not go back and is not zero when it is read, frames fit the packet buffer, and no
-- signal arrives.
abbrev pub Undisturbed : ℕ → List Tick → Type 0
Undisturbed from [] = Unit {0}
Undisturbed from (t ∷ ticks) =
    ((from ≤ t.now_ns) × (0 < t.start_ns) × IsReceived t.received × (t.is_running ≡ true))
    × Undisturbed t.now_ns ticks

-- Before the warmup is over the metrics are not active and have counted no packet as captured; from
-- then on they are active, the warmup's end is not behind `now`, and they count no more queue drops than
-- packets captured.
abbrev pub InPhase : Plan → ℕ → Loop → Type 0
InPhase plan now l =
    ((l.warmup_complete ≡ false) × (l.metrics.start_time_ns ≡ 0) × (l.metrics.pkts_captured ≡ 0))
    ⊎ ((l.warmup_complete ≡ true)
        × (0 < l.metrics.start_time_ns)
        × (plan.warmup_end_ns ≤ now)
        × (l.metrics.queue_drops ≤ l.metrics.pkts_captured))

end_warmup-InPhase :
    (plan : Plan) (t : Tick) (l : Loop) (from : ℕ)
    → from ≤ t.now_ns
    → 0 < t.start_ns
    → InPhase plan from l
    → InPhase plan t.now_ns (end_warmup plan t l)
      × ((end_warmup plan t l).metrics.pkts_captured ≡ l.metrics.pkts_captured)
      × ((end_warmup plan t l).warmup_complete ≡ leb plan.warmup_end_ns t.now_ns)
      × ((end_warmup plan t l).run_is_running ≡ l.run_is_running)
unfolding end_warmup start init
end_warmup-InPhase plan t l from h k p = ground arith

-- What `thread_pool_enqueue` counts is neither of the two, and at most one queue drop.
queue_effect-kept :
    (q : Queued) (m : Metrics)
    → ((queue_effect q m).pkts_captured ≡ m.pkts_captured)
      × ((queue_effect q m).start_time_ns ≡ m.start_time_ns)
      × ((queue_effect q m).queue_drops ≤ m.queue_drops + 1)
unfolding queue_effect inc_queue_drops update_queue_depth_max
queue_effect-kept (accepted attempts depth) m = (refl, refl, omega arith)
queue_effect-kept queue_full m = (refl, refl, omega arith)
queue_effect-kept no_memory m = (refl, refl, omega arith)

take_frame-InPhase :
    (plan : Plan) (t : Tick) (bytes : List ℕ) (l : Loop)
    → length bytes ≤ 65535
    → l.metrics.pkts_captured + 1 < 2 ^ 64
    → InPhase plan t.now_ns l
    → (l' : Loop) × (take_frame plan t bytes l ≡ some l')
      × InPhase plan t.now_ns l'
      × (l'.metrics.pkts_captured ≡ l.metrics.pkts_captured + (if l.warmup_complete then 1 else 0))
unfolding take_frame inc_captured
take_frame-InPhase plan t bytes l fits few p =
    let (made, e) =
      create-some t.mallocs t.time t.capture_ns bytes (u32 (length bytes)) (omega arith) in
    let kept =
      queue_effect-kept t.queued
        (if l.warmup_complete then inc_captured l.metrics (u32 (length bytes)) else l.metrics) in
    elim (Option-cases (take_frame plan t bytes l)) [
      | inl undefined ↦ absurd (ground (arith, e))
      | inr (l', r) ↦ (l', r, ground (arith, e, kept), ground (arith, e, kept))
    ]

round-InPhase :
    (plan : Plan) (t : Tick) (l : Loop) (from : ℕ)
    → from ≤ t.now_ns
    → 0 < t.start_ns
    → IsReceived t.received
    → l.metrics.pkts_captured + 1 < 2 ^ 64
    → InPhase plan from l
    → (l' : Loop) × (round plan t l ≡ some l')
      × InPhase plan t.now_ns l'
      × (l'.metrics.pkts_captured ≡ l.metrics.pkts_captured + (if measuring plan t then 1 else 0))
unfolding round
round-InPhase plan t l from h k fits few p =
    let w = end_warmup-InPhase plan t l from h k p in
    go t.received fits (end_warmup plan t l) w.0 w.1 w.2
  where
    go :
        (r : Received)
        → IsReceived r
        → (m : Loop) → InPhase plan t.now_ns m
        → m.metrics.pkts_captured ≡ l.metrics.pkts_captured
        → m.warmup_complete ≡ leb plan.warmup_end_ns t.now_ns
        → (l' : Loop) × ((if m.warmup_complete
                && ltb 0 plan.measure_end_ns
                && leb plan.measure_end_ns t.now_ns
              then some (record m { run_is_running = false })
              else (elim r [
                | error ↦ some m
                | nothing ↦ some m
                | frame bytes ↦ if length bytes == 0 then some m else take_frame plan t bytes m
              ]))
            ≡ some l')
          × InPhase plan t.now_ns l'
          × (l'.metrics.pkts_captured
              ≡ l.metrics.pkts_captured
                + (if has_frame r
                      && leb plan.warmup_end_ns t.now_ns
                      && not (ltb 0 plan.measure_end_ns && leb plan.measure_end_ns t.now_ns)
                    then 1
                    else 0))
    go error f m q same warm =
        elim (Bool-cases
          (m.warmup_complete && ltb 0 plan.measure_end_ns && leb plan.measure_end_ns t.now_ns)) [
            | inl e ↦
                (record m { run_is_running = false }, ground (arith, e), q, ground (arith, same))
            | inr e ↦ (m, ground (arith, e), q, ground (arith, same))
          ]
    go nothing f m q same warm =
        elim (Bool-cases
          (m.warmup_complete && ltb 0 plan.measure_end_ns && leb plan.measure_end_ns t.now_ns)) [
            | inl e ↦
                (record m { run_is_running = false }, ground (arith, e), q, ground (arith, same))
            | inr e ↦ (m, ground (arith, e), q, ground (arith, same))
          ]
    go (frame bytes) f m q same warm =
        elim (Bool-cases
          (m.warmup_complete && ltb 0 plan.measure_end_ns && leb plan.measure_end_ns t.now_ns)) [
            | inl e ↦ (
              record m { run_is_running = false },
              ground (arith, e),
              q,
              ground (arith, same, warm, e),
            )
            | inr e ↦ elim (Bool-cases (length bytes == 0)) [
              | inl empty ↦ (m, ground (arith, e, empty), q, ground (arith, same, empty))
              | inr full ↦
                  let (l', r, q', counted) =
                    take_frame-InPhase plan t bytes m f (ground (arith, same)) q in
                  (l', ground (arith, e, full, r), q', ground (arith, same, warm, e, full, counted))
            ]
          ]

capture-InPhase :
    (plan : Plan) (ticks : List Tick) (l : Loop) (from : ℕ)
    → Undisturbed from ticks
    → l.metrics.pkts_captured + length ticks < 2 ^ 64
    → InPhase plan from l
    → (l' : Loop) × (capture plan ticks l ≡ some l')
      × InPhase plan (last_round plan ticks l from) l'
      × (l'.metrics.pkts_captured ≤ l.metrics.pkts_captured + count (measuring plan) ticks)
      × ((l'.run_is_running ≡ false)
          ⊎ (l'.metrics.pkts_captured ≡ l.metrics.pkts_captured + count (measuring plan) ticks))
unfolding capture last_round
capture-InPhase plan [] l from u few p = (l, refl, p, omega arith, inr (omega arith))
capture-InPhase plan (t ∷ ticks) l from u few p = elim (Bool-cases l.run_is_running) [
  | inl on ↦
      let (next, r, q, one) = round-InPhase plan t l from u.0.0 u.0.1 u.0.2 (omega arith) p in
      let (l', e, q', below, exact) =
        capture-InPhase plan ticks next t.now_ns u.1 (ground (arith, one)) q in
      let entered : last_round plan (t ∷ ticks) l from ≡ last_round plan ticks next t.now_ns =
        ground (arith, on, r, u.0.3) in
      (
        l',
        ground (arith, on, r, e, u.0.3),
        subst (λ (now : ℕ). InPhase plan now l') (sym entered) q',
        omega (arith, one, below),
        ground (arith, one, exact),
      )
  | inr off ↦
      let ended : last_round plan (t ∷ ticks) l from ≡ from = ground (arith, off) in
      (
        l,
        ground (arith, off),
        subst (λ (now : ℕ). InPhase plan now l) (sym ended) p,
        omega arith,
        inl off,
      )
]

-- In a run without signals, of fewer than 2^64 rounds, with a clock that does not go back and frames
-- of at most 65535 bytes, the loop touches no memory it may not. If the warmup is not over at its end,
-- its metrics are not active and have counted no packet as captured, whatever `thread_pool_enqueue` has
-- counted in them; else they are active, and the last round that was entered was not before the
-- warmup's end, and they count no more queue drops than captured packets: those of the warmup are
-- discarded. The number of packets that they count as captured is at most that of the frames
-- received from the end of the warmup to the end of the measurement, and equal to it unless the run has
-- ended.
pub run_measures :
    (warmup_sec actual_measure_sec : ℤ) (max_packets loop_start_ns start_ns : ℕ) (ticks : List Tick)
    → 0 < start_ns
    → Undisturbed loop_start_ns ticks
    → length ticks < 2 ^ 64
    → let plan = plan_of warmup_sec actual_measure_sec max_packets loop_start_ns in
      let first = begin_run warmup_sec start_ns in
      (l : Loop) × (capture plan ticks first ≡ some l)
      × InPhase plan (last_round plan ticks first loop_start_ns) l
      × (l.metrics.pkts_captured ≤ count (measuring plan) ticks)
      × ((l.run_is_running ≡ false) ⊎ (l.metrics.pkts_captured ≡ count (measuring plan) ticks))
unfolding plan_of begin_run start init
run_measures warmup_sec actual_measure_sec max_packets loop_start_ns start_ns ticks h u few =
    let plan = plan_of warmup_sec actual_measure_sec max_packets loop_start_ns in
    let first = begin_run warmup_sec start_ns in
    let phase : InPhase plan loop_start_ns first = ground arith in
    let none_yet : first.metrics.pkts_captured ≡ 0 = ground arith in
    let (l, e, q, below, exact) =
      capture-InPhase plan ticks first loop_start_ns u (omega (arith, none_yet)) phase in
    (l, e, q, omega (arith, below, none_yet), ground (arith, exact, none_yet))
