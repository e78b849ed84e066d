-- ===== src/ThreadPool/Release.antt =====
-- What `thread_pool_destroy` of src/thread_pool.c has done when it returns.
use packet_analyzer.Prelude.{
  ℕ, suc, ◌+◌, ◌<◌, ◌≡◌, ◌∙◌, ap, subst, sym, inl, inr, refl, arith, false, none, some, List, [],
  ◌∷◌, ◌++◌, length, get_elem?, Bool-cases, ltb, ltb→lt,
}
use packet_analyzer.Packet.{Packet}
use packet_analyzer.Metrics.Counters.{Metrics}
use packet_analyzer.Prelude.Int.{ℤ}
use packet_analyzer.ThreadPool.Queue.{Heap, Pool, create}
use packet_analyzer.ThreadPool.Chain.{Linked}
use packet_analyzer.ThreadPool.Fifo.{packets}
use packet_analyzer.ThreadPool.System.{Phase, exited, System, initial, stop, Reachable, after}
use packet_analyzer.ThreadPool.Awake.{reachable-Awake}
use packet_analyzer.ThreadPool.Shutdown.{Step-stopped, Step-exited}
use packet_analyzer.ThreadPool.Destroy.{
  Freed, queue_lock, queue_cond, threads, pool, release_pool, Stage, called, joining, released,
  Destruction, begin, meanwhile, join, release, Destroys, begun, next, call, freed_items, Cleared,
  release_pool-reachable,
}

-- What the call knows of the threads where it stands.
abbrev pub Known : Stage → System → Type 0
Known called s = Unit {0}
Known (joining i) s =
    (s.pool.is_running ≡ false) × ((j : ℕ) → j < i → get_elem? s.workers j ≡ some exited)
Known (released frees left) s =
    (release_pool s.pool ≡ some (frees, left))
    × ((j : ℕ) → j < s.pool.num_threads → get_elem? s.workers j ≡ some exited)

one_more_joined :
    (ws : List Phase) (i : ℕ)
    → ((j : ℕ) → j < i → get_elem? ws j ≡ some exited)
    → get_elem? ws i ≡ some exited
    → (j : ℕ) → j < i + 1
    → get_elem? ws j ≡ some exited
one_more_joined ws i h last j below = elim (Bool-cases (ltb j i)) [
  | inl e ↦ h j (ltb→lt j i e)
  | inr e ↦
      let same : i ≡ j = ground (arith, e, below) in
      subst (λ (k : ℕ). get_elem? ws k ≡ some exited) same last
]

-- The system of a destruction is reached by the threads' steps, and what the call knows is so.
pub destroys-Known :
    (start s : System) (d : Destruction)
    → Reachable start s
    → Destroys (call s) d
    → Reachable start d.system × Known d.stage d.system
destroys-Known start s d reach begun = (reach, tt)
destroys-Known start s d reach (next c e run (begin at)) =
    let before = destroys-Known start s c reach run in
    (after _ _ before.0 stop, (refl, λ j below. absurd (omega (arith, below))))
destroys-Known start s d reach (next c e run (meanwhile i t at step)) =
    let before = destroys-Known start s c reach run in
    let known : Known (joining i) c.system = subst (λ (x : Stage). Known x c.system) at before.1 in
    (
      after _ _ before.0 step,
      (
        (Step-stopped c.system t step known.0).0,
        λ j below. Step-exited c.system t j step (known.1 j below),
      ),
    )
destroys-Known start s d reach (next c e run (join i at below_all has_left)) =
    let before = destroys-Known start s c reach run in
    let known : Known (joining i) c.system = subst (λ (x : Stage). Known x c.system) at before.1 in
    (before.0, (known.0, one_more_joined c.system.workers i known.1 has_left))
destroys-Known start s d reach (next c e run (release i frees left at all_joined freed)) =
    let before = destroys-Known start s c reach run in
    let known : Known (joining i) c.system = subst (λ (x : Stage). Known x c.system) at before.1 in
    (before.0, (freed, λ j below. known.1 j (omega (arith, below, all_joined))))

abbrev pub AllExited : List Phase → Type 0
AllExited [] = Unit {0}
AllExited (w ∷ ws) = (w ≡ exited) × AllExited ws

AllExited-get :
    (ws : List Phase) → ((j : ℕ) → j < length ws → get_elem? ws j ≡ some exited) → AllExited ws
AllExited-get [] h = tt
AllExited-get (w ∷ ws) h = (
  ground (arith, h 0 (omega arith)),
  AllExited-get ws (λ j below. h (suc j) (omega (arith, below))),
)

-- When `thread_pool_destroy` returns, whatever the threads did before it and meanwhile: every worker has
-- left, so that none uses what is freed; what has been freed is the packet and the work item of exactly
-- those entries that were accepted and never taken, once each and in the order of their arrival, and
-- then the lock, the condition variable, the array of threads and the pool, once each; and of the heap's
-- work items those are gone and all others as they were.
pub destroy-Cleared :
    (num_threads max_queue_size : ℤ) (created : Pool) (m : Metrics) (s : System) (d : Destruction)
    (frees : List Freed) (left : Heap)
    → create num_threads max_queue_size ≡ some created
    → Reachable (initial created m) s
    → Destroys (call s) d
    → d.stage ≡ released frees left
    → AllExited d.system.workers
      × ((items : List (ℕ × Packet)) × (frees
            ≡ freed_items items ++ (queue_lock ∷ queue_cond ∷ threads ∷ pool ∷ []))
          × (d.system.accepted ≡ d.system.taken ++ packets items)
          × Linked d.system.pool.heap d.system.pool.queue_head items d.system.pool.queue_tail
          × Cleared d.system.pool.heap left items)
destroy-Cleared num_threads max_queue_size created m s d frees left e reach run at =
    let end = destroys-Known (initial created m) s d reach run in
    let known : Known (released frees left) d.system =
      subst (λ (x : Stage). Known x d.system) at end.1 in
    let awake = reachable-Awake num_threads max_queue_size created m d.system e end.0 in
    let (items, left', freed, in_order, linked, cleared) =
      release_pool-reachable num_threads max_queue_size created m d.system e end.0 in
    let same = sym known.0 ∙ freed in
    (
      AllExited-get d.system.workers (λ j below. known.1 j (omega (arith, below, awake.threads))),
      (
        items,
        ap (λ o. (elim o as (λ x. List Freed) [ none ↦ [] | some r ↦ r.0 ])) same,
        in_order,
        linked,
        subst (λ (h : Heap). Cleared d.system.pool.heap h items)
            (sym (ap (λ o. (elim o as (λ x. Heap) [ none ↦ left | some r ↦ r.1 ])) same)) cleared,
      ),
    )
