-- ===== src/Main/Enqueued.antt =====
-- `thread_pool_enqueue` of src/thread_pool.c as the capture loop of src/main.c meets it.
use packet_analyzer.Prelude.{ℕ, ◌+◌, ◌≡◌, arith, Option, none, some, List, leb, if◌then◌else◌}
use packet_analyzer.Packet.{Packet}
use packet_analyzer.Metrics.Counters.{Metrics}
use packet_analyzer.Metrics.Latency.{Attempt}
use packet_analyzer.ThreadPool.Queue.{Pool, Status, link, enqueue}
use packet_analyzer.Main.Capture.{Queued, accepted, queue_full, no_memory, queue_effect}

-- What becomes of a packet in this state of the pool.
abbrev pub queued_of : Pool → Option ℕ → List Attempt → Queued
queued_of pool none attempts = no_memory
queued_of pool (some a) attempts =
    if leb pool.max_queue_size pool.queue_size
    then queue_full
    else accepted attempts (pool.queue_size + 1)

-- The capture loop's effect on the metrics is that of the call, in every state of the pool.
pub enqueue-queue_effect :
    (pool pool' : Pool) (packet : Packet) (address : Option ℕ) (attempts : List Attempt)
    (m m' : Metrics) (r : Status)
    → enqueue pool (some packet) address attempts m ≡ some (r, pool', m')
    → m' ≡ queue_effect (queued_of pool address attempts) m
unfolding enqueue link queue_effect
enqueue-queue_effect pool pool' packet none attempts m m' r e = ground (arith, e)
enqueue-queue_effect pool pool' packet (some a) attempts m m' r e = ground (arith, e)
