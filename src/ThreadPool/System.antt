-- ===== src/ThreadPool/System.antt =====
-- The capture thread, the workers and the start of `thread_pool_destroy` as interleaved steps. What a
-- thread does under the lock is one step, up to `pthread_cond_wait`, which gives the lock back and
-- puts the thread to sleep; once it is awake and has the lock again it tests anew. `pool->packets_processed++` is outside the lock, so it is two: the read
-- and the write.
use packet_analyzer.Prelude.{
  ℕ, ◌+◌, ◌≡◌, true, false, none, some, List, [], ◌∷◌, ◌++◌, get_elem?, set, replicate, u32,
}
use packet_analyzer.Packet.{Packet}
use packet_analyzer.Metrics.Counters.{Metrics}
use packet_analyzer.Metrics.Latency.{Attempt}
use packet_analyzer.ThreadPool.Queue.{Pool, success, failure, enqueue, dequeue}

-- Where a worker stands: at the queue, asleep in `pthread_cond_wait`, with a packet it has unhooked, with the counter it has read,
-- or out of its loop.
pub data Phase : Type 0 where
  waiting : Phase
  sleeping : Phase
  holding : Packet → Phase
  counting : Packet → ℕ → Phase
  exited : Phase

-- The shared pool and metrics, and each worker. `accepted` and `taken` record what was enqueued and
-- unhooked, in order, and `finished` how many packets have been counted.
pub record System : Type 0 where
  pub pool : Pool
  pub metrics : Metrics
  pub workers : List Phase
  pub accepted : List Packet
  pub taken : List Packet
  pub finished : ℕ

-- A pool with its workers at the queue.
abbrev pub initial : Pool → Metrics → System
initial pool m = record {
  pool = pool;
  metrics = m;
  workers = replicate pool.num_threads waiting;
  accepted = [];
  taken = [];
  finished = 0;
}

abbrev pub NoneAsleep : List Phase → Type 0
NoneAsleep [] = Unit {0}
NoneAsleep (sleeping ∷ ws) = ⊥
NoneAsleep (_ ∷ ws) = NoneAsleep ws

-- `pthread_cond_signal`: it wakes one of the threads that are asleep, if there are any. That it may
-- wake more is covered by the step `wake`.
pub data Signalled (ws : List Phase) : List Phase → Type 0 where
  nobody : NoneAsleep ws → Signalled ws ws
  one : (w : ℕ) → get_elem? ws w ≡ some sleeping → Signalled ws (set ws w waiting)

-- `pthread_cond_broadcast`
abbrev pub broadcast : List Phase → List Phase
broadcast [] = []
broadcast (sleeping ∷ ws) = waiting ∷ broadcast ws
broadcast (w ∷ ws) = w ∷ broadcast ws

-- The section of `thread_pool_destroy` under the lock.
abbrev pub stopped : System → System
stopped s = record s { pool = record s.pool { is_running = false }; workers = broadcast s.workers }

-- `malloc` returns an address that is not in use.
pub data Step (s : System) : System → Type 0 where
  accept :
      (packet : Packet) (a : ℕ) (attempts : List Attempt) (pool' : Pool) (m' : Metrics)
      (workers' : List Phase)
      → s.pool.heap a ≡ none
      → enqueue s.pool (some packet) (some a) attempts s.metrics ≡ some (success, pool', m')
      → Signalled s.workers workers'
      → Step s (record s {
        pool = pool';
        metrics = m';
        workers = workers';
        accepted = s.accepted ++ (packet ∷ []);
      })
  refuse :
      (packet : Packet) (a : ℕ) (attempts : List Attempt) (pool' : Pool) (m' : Metrics)
      → s.pool.heap a ≡ none
      → enqueue s.pool (some packet) (some a) attempts s.metrics ≡ some (failure, pool', m')
      → Step s (record s { pool = pool'; metrics = m' })
  sleep :
      (w : ℕ)
      → get_elem? s.workers w ≡ some waiting
      → s.pool.queue_head ≡ none
      → s.pool.is_running ≡ true
      → Step s (record s { workers = set s.workers w sleeping })
  -- A wake-up without a signal, which POSIX allows.
  wake :
      (w : ℕ)
      → get_elem? s.workers w ≡ some sleeping
      → Step s (record s { workers = set s.workers w waiting })
  take :
      (w : ℕ) (packet : Packet) (pool' : Pool)
      → get_elem? s.workers w ≡ some waiting
      → s.pool.is_running ≡ true
      → dequeue s.pool ≡ some (packet, pool')
      → Step s (record s {
        pool = pool';
        workers = set s.workers w (holding packet);
        taken = s.taken ++ (packet ∷ []);
      })
  read_count :
      (w : ℕ) (packet : Packet)
      → get_elem? s.workers w ≡ some (holding packet)
      → Step s (record s { workers = set s.workers w (counting packet s.pool.packets_processed) })
  write_count :
      (w : ℕ) (packet : Packet) (n : ℕ)
      → get_elem? s.workers w ≡ some (counting packet n)
      → Step s (record s {
        pool = record s.pool { packets_processed = u32 (n + 1) };
        workers = set s.workers w waiting;
        finished = s.finished + 1;
      })
  leave :
      (w : ℕ)
      → get_elem? s.workers w ≡ some waiting
      → s.pool.is_running ≡ false
      → Step s (record s { workers = set s.workers w exited })
  stop : Step s (stopped s)

pub data Reachable (start : System) : System → Type 0 where
  here : Reachable start start
  after : (s t : System) → Reachable start s → Step s t → Reachable start t
