-- ===== src/ThreadPool/Shutdown.antt =====
-- What stays so while the workers leave a pool of src/thread_pool.c that has been stopped.
use packet_analyzer.Prelude.{
  ℕ, zero, suc, ◌∙◌, ◌+◌, ◌*◌, ◌≤◌, ◌≡◌, refl, arith, false, some, List, [], ◌∷◌, length, get_elem?,
  set,
}
use packet_analyzer.Packet.{Packet}
use packet_analyzer.Metrics.Counters.{Metrics}
use packet_analyzer.Metrics.Latency.{Attempt}
use packet_analyzer.ThreadPool.Queue.{Pool, Status, link, enqueue, dequeue}
use packet_analyzer.ThreadPool.System.{
  Phase, waiting, sleeping, holding, counting, exited, System, Signalled, nobody, one, broadcast,
  Step, accept, refuse, sleep, wake, take, read_count, write_count, leave, stop,
}
use packet_analyzer.ThreadPool.Phases.{exited-set, exited-Signalled, exited-broadcast}

-- The steps that a worker has before it in a stopped pool.
abbrev pub steps_left : Phase → ℕ
steps_left waiting = 1
steps_left sleeping = 1
steps_left (holding _) = 3
steps_left (counting _ _) = 2
steps_left exited = 0

abbrev pub all_steps_left : List Phase → ℕ
all_steps_left [] = 0
all_steps_left (w ∷ ws) = steps_left w + all_steps_left ws

abbrev pub AllExited : List Phase → Type 0
AllExited [] = Unit {0}
AllExited (w ∷ ws) = (w ≡ exited) × AllExited ws

-- Whether a step is one that a worker takes by itself: a wake-up without a signal is not.
abbrev pub by_worker : {s t : System} → Step s t → ℕ
by_worker (accept packet a attempts pool' m' workers' unused e signalled) = 0
by_worker (refuse packet a attempts pool' m' unused e) = 0
by_worker (sleep w at empty running) = 1
by_worker (wake w at) = 0
by_worker (take w packet pool' at running e) = 1
by_worker (read_count w packet at) = 1
by_worker (write_count w packet n at) = 1
by_worker (leave w at is_stopped) = 1
by_worker stop = 0

all_steps_left-set :
    (ws : List Phase) (w : ℕ) (x y : Phase)
    → get_elem? ws w ≡ some x
    → all_steps_left (set ws w y) + steps_left x ≡ all_steps_left ws + steps_left y
all_steps_left-set [] w x y e = absurd cc
all_steps_left-set (v ∷ ws) zero x y e = ground arith
all_steps_left-set (v ∷ ws) (suc w) x y e = omega (arith, all_steps_left-set ws w x y e)

pub enqueue-running :
    (pool pool' : Pool) (packet : Packet) (a : ℕ) (attempts : List Attempt) (m m' : Metrics)
    (r : Status)
    → enqueue pool (some packet) (some a) attempts m ≡ some (r, pool', m')
    → (pool'.is_running ≡ pool.is_running) × (pool'.num_threads ≡ pool.num_threads)
unfolding enqueue link
enqueue-running pool pool' packet a attempts m m' r e = ground arith

pub dequeue-running :
    (pool pool' : Pool) (packet : Packet)
    → dequeue pool ≡ some (packet, pool')
    → (pool'.is_running ≡ pool.is_running) × (pool'.num_threads ≡ pool.num_threads)
unfolding dequeue
dequeue-running pool pool' packet e = ground arith

all_steps_left-Signalled :
    (ws ws' : List Phase) → Signalled ws ws' → all_steps_left ws' ≡ all_steps_left ws
all_steps_left-Signalled ws ws' (nobody none_asleep) = refl
all_steps_left-Signalled ws ws' (one w at) =
    omega (arith, all_steps_left-set ws w sleeping waiting at)

all_steps_left-broadcast : (ws : List Phase) → all_steps_left (broadcast ws) ≡ all_steps_left ws
all_steps_left-broadcast [] = refl
all_steps_left-broadcast (waiting ∷ ws) = omega (arith, all_steps_left-broadcast ws)
all_steps_left-broadcast (sleeping ∷ ws) = omega (arith, all_steps_left-broadcast ws)
all_steps_left-broadcast (holding p ∷ ws) = omega (arith, all_steps_left-broadcast ws)
all_steps_left-broadcast (counting p n ∷ ws) = omega (arith, all_steps_left-broadcast ws)
all_steps_left-broadcast (exited ∷ ws) = omega (arith, all_steps_left-broadcast ws)

pub steps_left_le : (ws : List Phase) → all_steps_left ws ≤ 3 * length ws
steps_left_le [] = omega arith
steps_left_le (waiting ∷ ws) = omega (arith, steps_left_le ws)
steps_left_le (sleeping ∷ ws) = omega (arith, steps_left_le ws)
steps_left_le (holding p ∷ ws) = omega (arith, steps_left_le ws)
steps_left_le (counting p n ∷ ws) = omega (arith, steps_left_le ws)
steps_left_le (exited ∷ ws) = omega (arith, steps_left_le ws)

-- A stopped pool stays stopped, and a worker's step uses up one of those left.
pub Step-stopped :
    (s t : System) (step : Step s t)
    → s.pool.is_running ≡ false
    → (t.pool.is_running ≡ false)
      × (by_worker step + all_steps_left t.workers ≡ all_steps_left s.workers)
Step-stopped s t (accept packet a attempts pool' m' workers' unused e signalled) h = (
  (enqueue-running s.pool pool' packet a attempts s.metrics m' _ e).0 ∙ h,
  omega (arith, all_steps_left-Signalled s.workers workers' signalled),
)
Step-stopped s t (refuse packet a attempts pool' m' unused e) h =
    ((enqueue-running s.pool pool' packet a attempts s.metrics m' _ e).0 ∙ h, omega arith)
Step-stopped s t (sleep w at empty running) h = absurd cc
Step-stopped s t (wake w at) h =
    (h, omega (arith, all_steps_left-set s.workers w sleeping waiting at))
Step-stopped s t (take w packet pool' at running e) h = absurd cc
Step-stopped s t (read_count w packet at) h = (
  h,
  omega (
    arith,
    all_steps_left-set s.workers w (holding packet) (counting packet s.pool.packets_processed) at,
  ),
)
Step-stopped s t (write_count w packet n at) h =
    (h, omega (arith, all_steps_left-set s.workers w (counting packet n) waiting at))
Step-stopped s t (leave w at is_stopped) h =
    (h, omega (arith, all_steps_left-set s.workers w waiting exited at))
Step-stopped s t stop h = (refl, omega (arith, all_steps_left-broadcast s.workers))

pub Step-num_threads : (s t : System) → Step s t → t.pool.num_threads ≡ s.pool.num_threads
Step-num_threads s t (accept packet a attempts pool' m' workers' unused e signalled) =
    (enqueue-running s.pool pool' packet a attempts s.metrics m' _ e).1
Step-num_threads s t (refuse packet a attempts pool' m' unused e) =
    (enqueue-running s.pool pool' packet a attempts s.metrics m' _ e).1
Step-num_threads s t (sleep w at empty running) = refl
Step-num_threads s t (wake w at) = refl
Step-num_threads s t (take w packet pool' at running e) = (dequeue-running s.pool pool' packet e).1
Step-num_threads s t (read_count w packet at) = refl
Step-num_threads s t (write_count w packet n at) = refl
Step-num_threads s t (leave w at is_stopped) = refl
Step-num_threads s t stop = refl

-- A worker that has left has left for good.
pub Step-exited :
    (s t : System) (j : ℕ)
    → Step s t
    → get_elem? s.workers j ≡ some exited
    → get_elem? t.workers j ≡ some exited
Step-exited s t j (accept packet a attempts pool' m' workers' unused e signalled) h =
    exited-Signalled s.workers workers' j signalled h
Step-exited s t j (refuse packet a attempts pool' m' unused e) h = h
Step-exited s t j (sleep w at empty running) h =
    exited-set s.workers w j waiting sleeping at (λ e. cc) h
Step-exited s t j (wake w at) h = exited-set s.workers w j sleeping waiting at (λ e. cc) h
Step-exited s t j (take w packet pool' at running e) h =
    exited-set s.workers w j waiting (holding packet) at (λ e. cc) h
Step-exited s t j (read_count w packet at) h =
    exited-set s.workers w j (holding packet) _ at (λ e. cc) h
Step-exited s t j (write_count w packet n at) h =
    exited-set s.workers w j (counting packet n) waiting at (λ e. cc) h
Step-exited s t j (leave w at is_stopped) h = exited-set s.workers w j waiting exited at (λ e. cc) h
Step-exited s t j stop h = exited-broadcast s.workers j h
