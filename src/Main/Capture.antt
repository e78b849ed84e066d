-- ===== src/Main/Capture.antt =====
-- One measurement run of src/main.c: the capture loop with its warmup. What a round meets from
-- outside is a `Tick`: the clocks, what was received, and whether a signal has arrived. The
-- reports that it prints are in `Main.Printing`, and the traffic generator is in `Main.Traffic`.
use packet_analyzer.Prelude.{
  ℕ, ◌+◌, ◌*◌, Bool, true, false, not, ◌&&◌, Option, none, some, List, [], ◌∷◌, ◌++◌, ◌>>=◌, ltb,
  leb, ◌==◌, if◌then◌else◌, length, u32, u64,
}
use packet_analyzer.Prelude.Int.{ℤ, pos, ltb_ℤ, pos_part}
use packet_analyzer.Packet.{Packet, Mallocs, create}
use packet_analyzer.Metrics.Counters.{Metrics, init, start, inc_captured, inc_queue_drops}
use packet_analyzer.Metrics.Latency.{Attempt, update_queue_depth_max}

-- The times at which the phases end. `measure_end_ns` is 0 without a limit.
pub record Plan : Type 0 where
  pub warmup_end_ns : ℕ
  pub measure_end_ns : ℕ
  pub max_packets : ℕ

-- From `warmup_sec`, `actual_measure_sec` and the clock at the start of the run. A positive number of
-- seconds is converted to `uint64_t`.
unfoldable pub plan_of : ℤ → ℤ → ℕ → ℕ → Plan
plan_of warmup_sec actual_measure_sec max_packets loop_start_ns =
    let warmup_end =
      if ltb_ℤ (pos 0) warmup_sec
      then u64 (loop_start_ns + u64 (pos_part warmup_sec * 1000000000))
      else loop_start_ns in
    record {
      warmup_end_ns = warmup_end;
      measure_end_ns =
          if ltb_ℤ (pos 0) actual_measure_sec
          then u64 (warmup_end + u64 (pos_part actual_measure_sec * 1000000000))
          else 0;
      max_packets = max_packets;
    }

-- What `socket_receive_packet` returns: an error, nothing, or the bytes of a frame.
pub data Received : Type 0 where
  error nothing : Received
  frame : List ℕ → Received

-- What becomes of a packet that is passed to `thread_pool_enqueue`: the depth of the queue with it and
-- how the watermark's loop is disturbed, or that the queue is full, or that there is no memory for a work
-- item. The queue itself is in `ThreadPool.System`.
pub data Queued : Type 0 where
  accepted : List Attempt → ℕ → Queued
  queue_full no_memory : Queued

-- The metrics that `thread_pool_enqueue` changes, whether they are active or not.
unfoldable pub queue_effect : Queued → Metrics → Metrics
queue_effect (accepted attempts depth) m = update_queue_depth_max attempts m (u32 depth)
queue_effect queue_full m = inc_queue_drops m
queue_effect no_memory m = m

pub record Tick : Type 0 where
  pub is_running : Bool
  pub now_ns : ℕ
  -- The clock when `metrics_start` reads it, and when `packet_create` does.
  pub start_ns : ℕ
  pub capture_ns : ℕ
  pub time : ℕ
  pub received : Received
  pub mallocs : Mallocs
  pub queued : Queued

pub record Loop : Type 0 where
  pub warmup_complete : Bool
  pub run_is_running : Bool
  pub packets_captured : ℕ
  pub metrics : Metrics
  -- The packets passed to `thread_pool_enqueue`, in order.
  pub offered : List Packet

-- Before the loop. The metrics start at once if there is no warmup.
unfoldable pub begin_run : ℤ → ℕ → Loop
begin_run warmup_sec start_ns =
    let no_warmup = not (ltb_ℤ (pos 0) warmup_sec) in
    record {
      warmup_complete = no_warmup;
      run_is_running = true;
      packets_captured = 0;
      metrics = if no_warmup then start init start_ns else init;
      offered = [];
    }

-- The end of the warmup resets the metrics and starts them.
unfoldable pub end_warmup : Plan → Tick → Loop → Loop
end_warmup plan t l =
    if not l.warmup_complete && leb plan.warmup_end_ns t.now_ns
    then record l { warmup_complete = true; metrics = start init t.start_ns }
    else l

-- A frame is counted, and copied into a packet that is queued.
unfoldable pub take_frame : Plan → Tick → List ℕ → Loop → Option Loop
take_frame plan t bytes l =
    let captured = u32 (l.packets_captured + 1) in
    let counted =
      if l.warmup_complete then inc_captured l.metrics (u32 (length bytes)) else l.metrics in
    create t.mallocs t.time t.capture_ns (some bytes) (u32 (length bytes)) >>= λ packet.
    some (record l {
      packets_captured = captured;
      metrics = elim packet [ none ↦ counted | some p ↦ queue_effect t.queued counted ];
      offered = elim packet [ none ↦ l.offered | some p ↦ l.offered ++ (p ∷ []) ];
      run_is_running =
          if ltb 0 plan.max_packets && leb plan.max_packets captured
          then false
          else l.run_is_running;
    })

-- One round of the loop, once it has been entered.
unfoldable pub round : Plan → Tick → Loop → Option Loop
round plan t before =
    let l = end_warmup plan t before in
    if l.warmup_complete && ltb 0 plan.measure_end_ns && leb plan.measure_end_ns t.now_ns
    then some (record l { run_is_running = false })
    else (elim t.received [
      | error ↦ some l
      | nothing ↦ some l
      | frame bytes ↦ if length bytes == 0 then some l else take_frame plan t bytes l
    ])

-- The loop over the rounds that there is time for.
unfoldable pub capture : Plan → List Tick → Loop → Option Loop
capture plan [] l = some l
capture plan (t ∷ ticks) l =
    if t.is_running && l.run_is_running
    then (elim (round plan t l) [ none ↦ none | some l' ↦ capture plan ticks l' ])
    else some l

-- The clock at the last round that is entered, from what it was before.
unfoldable pub last_round : Plan → List Tick → Loop → ℕ → ℕ
last_round plan [] l before = before
last_round plan (t ∷ ticks) l before =
    if t.is_running && l.run_is_running
    then (elim (round plan t l) [ none ↦ t.now_ns | some l' ↦ last_round plan ticks l' t.now_ns ])
    else before
