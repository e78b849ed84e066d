-- ===== src/ThreadPool/Ends.antt =====
-- How `thread_pool_destroy` of src/thread_pool.c comes to its end.
use packet_analyzer.Prelude.{
  ℕ, zero, suc, ◌+◌, ◌-◌, ◌*◌, ◌≤◌, ◌<◌, ◌≡◌, ◌⊎◌, ◌∙◌, ap, subst, inl, inr, refl, arith, false,
  some, List, [], ◌∷◌, length, get_elem?, Bool-cases, ltb, ltb→lt,
}
use packet_analyzer.Metrics.Counters.{Metrics}
use packet_analyzer.Prelude.Int.{ℤ}
use packet_analyzer.ThreadPool.Queue.{Heap, Pool, create}
use packet_analyzer.ThreadPool.System.{
  Phase, waiting, sleeping, holding, counting, exited, System, NoneAsleep, initial, stopped, Step,
  read_count, write_count, leave, Reachable,
}
use packet_analyzer.ThreadPool.Phases.{NoneAsleep-get, length-broadcast}
use packet_analyzer.ThreadPool.Awake.{reachable-Awake}
use packet_analyzer.ThreadPool.Shutdown.{
  by_worker, all_steps_left, steps_left_le, Step-stopped, Step-num_threads,
}
use packet_analyzer.ThreadPool.Destroy.{
  Freed, Stage, called, joining, released, Destruction, Destroy, begin, meanwhile, join, release,
  Destroys, begun, next, call, release_pool-reachable,
}
use packet_analyzer.ThreadPool.Release.{Known, destroys-Known}

-- Whether a move is the call's own, or one that a worker takes by itself while the call joins; how many
-- of a run's are.
abbrev pub own : {d e : Destruction} → Destroy d e → ℕ
own (begin at) = 1
own (meanwhile i t at step) = by_worker step
own (join i at below has_left) = 1
own (release i frees left at all_joined freed) = 1

abbrev pub own_moves : {start d : Destruction} → Destroys start d → ℕ
own_moves begun = 0
own_moves (next d e run move) = own move + own_moves run

-- Moves that a call has before it, with so many threads.
abbrev moves_left : ℕ → Stage → List Phase → ℕ
moves_left n called ws = 4 * n + 2
moves_left n (joining i) ws = all_steps_left ws + (n - i) + 1
moves_left n (released frees left) ws = 0

-- A run uses up the moves, and keeps the number of threads.
destroys-moves_left :
    (num_threads max_queue_size : ℤ) (created : Pool) (m : Metrics) (s : System) (d : Destruction)
    → create num_threads max_queue_size ≡ some created
    → Reachable (initial created m) s
    → (run : Destroys (call s) d)
    → (d.system.pool.num_threads ≡ s.pool.num_threads)
      × (own_moves run + moves_left s.pool.num_threads d.stage d.system.workers
          ≤ 4 * s.pool.num_threads + 2)
destroys-moves_left num_threads max_queue_size created m s d e reach begun = (refl, omega arith)
destroys-moves_left num_threads max_queue_size created m s d e reach (next c f run (begin at)) =
    let ih = destroys-moves_left num_threads max_queue_size created m s c e reach run in
    let n = s.pool.num_threads in
    let before = destroys-Known (initial created m) s c reach run in
    let awake = reachable-Awake num_threads max_queue_size created m c.system e before.0 in
    let bound =
      subst (λ (x : Stage). own_moves run + moves_left n x c.system.workers ≤ 4 * n + 2) at ih.1 in
    let steps = steps_left_le (stopped c.system).workers in
    let size = length-broadcast c.system.workers in
    (ih.0, omega (arith, bound, steps, size, awake.threads, ih.0))
destroys-moves_left num_threads max_queue_size created m s d e reach
      (next c f run (meanwhile i t at step)) =
    let ih = destroys-moves_left num_threads max_queue_size created m s c e reach run in
    let n = s.pool.num_threads in
    let before = destroys-Known (initial created m) s c reach run in
    let known : Known (joining i) c.system = subst (λ (x : Stage). Known x c.system) at before.1 in
    let bound =
      subst (λ (x : Stage). own_moves run + moves_left n x c.system.workers ≤ 4 * n + 2) at ih.1 in
    let used = (Step-stopped c.system t step known.0).1 in
    (Step-num_threads c.system t step ∙ ih.0, omega (arith, bound, used))
destroys-moves_left num_threads max_queue_size created m s d e reach
      (next c f run (join i at below has_left)) =
    let ih = destroys-moves_left num_threads max_queue_size created m s c e reach run in
    let n = s.pool.num_threads in
    let bound =
      subst (λ (x : Stage). own_moves run + moves_left n x c.system.workers ≤ 4 * n + 2) at ih.1 in
    (ih.0, omega (arith, bound, ih.0, below))
destroys-moves_left num_threads max_queue_size created m s d e reach
      (next c f run (release i frees left at all_joined freed)) =
    let ih = destroys-moves_left num_threads max_queue_size created m s c e reach run in
    let n = s.pool.num_threads in
    let bound =
      subst (λ (x : Stage). own_moves run + moves_left n x c.system.workers ≤ 4 * n + 2) at ih.1 in
    (ih.0, omega (arith, bound))

-- A worker of a stopped pool can take a step or has left.
worker_moves :
    (s : System) (w : ℕ) (x : Phase)
    → s.pool.is_running ≡ false
    → NoneAsleep s.workers
    → get_elem? s.workers w ≡ some x
    → (x ≡ exited) ⊎ ((t : System) × (step : Step s t) × (by_worker step ≡ 1))
worker_moves s w waiting h awake at = inr (_, leave w at h, refl)
worker_moves s w sleeping h awake at = absurd (NoneAsleep-get s.workers w awake at)
worker_moves s w (holding p) h awake at = inr (_, read_count w p at, refl)
worker_moves s w (counting p n) h awake at = inr (_, write_count w p n at, refl)
worker_moves s w exited h awake at = inl refl

get_elem?-below :
    (ws : List Phase) (i : ℕ) → i < length ws → (x : Phase) × (get_elem? ws i ≡ some x)
get_elem?-below [] i h = absurd (omega arith)
get_elem?-below (w ∷ ws) zero h = (w, refl)
get_elem?-below (w ∷ ws) (suc i) h = get_elem?-below ws i (omega (arith, h))

-- The call can go on, if need be after a step of a worker.
goes_on :
    (num_threads max_queue_size : ℤ) (created : Pool) (m : Metrics) (d : Destruction) (i : ℕ)
    → create num_threads max_queue_size ≡ some created
    → Reachable (initial created m) d.system
    → d.stage ≡ joining i
    → d.system.pool.is_running ≡ false
    → (e : Destruction) × (move : Destroy d e) × (own move ≡ 1)
goes_on num_threads max_queue_size created m d i e reach at off =
    let awake = reachable-Awake num_threads max_queue_size created m d.system e reach in
    elim (Bool-cases (ltb i d.system.pool.num_threads)) [
      | inl below ↦
          let less = ltb→lt i d.system.pool.num_threads below in
          let (x, found) =
            get_elem?-below d.system.workers i (omega (arith, less, awake.threads)) in
          elim awake.none_asleep [
            | inl running ↦ absurd cc
            | inr none_asleep ↦ elim (worker_moves d.system i x off none_asleep found) [
              | inl has_left ↦ (_, join i at less (found ∙ ap some has_left), refl)
              | inr (t, step, one) ↦ (_, meanwhile i t at step, one)
            ]
          ]
      | inr above ↦
          let (items, left, freed, in_order, linked, cleared) =
            release_pool-reachable num_threads max_queue_size created m d.system e reach in
          (_, release i _ left at (ground (arith, above)) freed, refl)
    ]

-- `thread_pool_destroy` comes to its end, in whatever state of the threads it is called and however they
-- are interleaved with it: until it returns there is always a next move, of the call itself or of a
-- worker that can go on by itself, without another wake-up; and there are at most four of these for
-- each thread and two more.
pub destroy_ends :
    (num_threads max_queue_size : ℤ) (created : Pool) (m : Metrics) (s : System) (d : Destruction)
    → create num_threads max_queue_size ≡ some created
    → Reachable (initial created m) s
    → (run : Destroys (call s) d)
    → (own_moves run ≤ 4 * s.pool.num_threads + 2)
      × (((frees : List Freed) × (left : Heap) × (d.stage ≡ released frees left))
          ⊎ ((e : Destruction) × (move : Destroy d e) × (own move ≡ 1)))
destroy_ends num_threads max_queue_size created m s d e reach run =
    let bound = destroys-moves_left num_threads max_queue_size created m s d e reach run in
    let known = destroys-Known (initial created m) s d reach run in
    (omega (arith, bound.1), go d.stage refl known.1)
  where
    reached : Reachable (initial created m) d.system
    reached = (destroys-Known (initial created m) s d reach run).0

    go :
        (at : Stage)
        → d.stage ≡ at
        → Known at d.system
        → ((frees : List Freed) × (left : Heap) × (d.stage ≡ released frees left))
          ⊎ ((f : Destruction) × (move : Destroy d f) × (own move ≡ 1))
    go called e_stage k = inr (_, begin e_stage, refl)
    go (joining i) e_stage k =
        inr (goes_on num_threads max_queue_size created m d i e reached e_stage k.0)
    go (released frees left) e_stage k = inl (frees, left, e_stage)
