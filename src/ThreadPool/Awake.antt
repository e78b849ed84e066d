-- ===== src/ThreadPool/Awake.antt =====
-- In a pool of src/thread_pool.c that has been stopped, no worker is asleep.
use packet_analyzer.Prelude.{
  ℕ, zero, suc, ◌∙◌, ◌≡◌, ◌⊎◌, inl, inr, refl, ap, arith, true, some, [], ◌∷◌, length, length-set,
  set, replicate,
}
use packet_analyzer.Prelude.Int.{ℤ}
use packet_analyzer.Metrics.Counters.{Metrics}
use packet_analyzer.ThreadPool.Queue.{Pool, create}
use packet_analyzer.ThreadPool.System.{
  Phase, waiting, sleeping, holding, counting, exited, System, NoneAsleep, initial, Step, accept,
  refuse, sleep, wake, take, read_count, write_count, leave, stop, Reachable, here, after,
}
use packet_analyzer.ThreadPool.Phases.{
  length-Signalled, length-broadcast, NoneAsleep-set, NoneAsleep-broadcast, NoneAsleep-Signalled,
}
use packet_analyzer.ThreadPool.Shutdown.{enqueue-running, dequeue-running}

-- There is a worker for each thread, and in a stopped pool none of them is asleep.
pub record Awake (s : System) : Type 0 where
  pub threads : length s.workers ≡ s.pool.num_threads
  pub none_asleep : (s.pool.is_running ≡ true) ⊎ NoneAsleep s.workers

-- A step that only moves one worker on, to a phase that is not asleep.
Awake-set :
    (s : System) (w : ℕ) (y : Phase)
    → NoneAsleep (y ∷ [])
    → Awake s
    → (length (set s.workers w y) ≡ s.pool.num_threads)
      × ((s.pool.is_running ≡ true) ⊎ NoneAsleep (set s.workers w y))
Awake-set s w y a h = (
  length-set s.workers w y ∙ h.threads,
  elim h.none_asleep [
    | inl running ↦ inl running
    | inr none_asleep ↦ inr (NoneAsleep-set s.workers w y none_asleep a)
  ],
)

pub Step-Awake : (s t : System) → Step s t → Awake s → Awake t
Step-Awake s t (accept packet a attempts pool' m' workers' unused e signalled) h =
    let kept = enqueue-running s.pool pool' packet a attempts s.metrics m' _ e in
    record {
      threads = omega (arith, length-Signalled s.workers workers' signalled, h.threads, kept.1);
      none_asleep = elim h.none_asleep [
        | inl running ↦ inl (kept.0 ∙ running)
        | inr none_asleep ↦ inr (NoneAsleep-Signalled s.workers workers' signalled none_asleep)
      ];
    }
Step-Awake s t (refuse packet a attempts pool' m' unused e) h =
    let kept = enqueue-running s.pool pool' packet a attempts s.metrics m' _ e in
    record {
      threads = omega (arith, h.threads, kept.1);
      none_asleep = elim h.none_asleep [
        | inl running ↦ inl (kept.0 ∙ running)
        | inr none_asleep ↦ inr none_asleep
      ];
    }
Step-Awake s t (sleep w at empty running) h = record {
  threads = length-set s.workers w sleeping ∙ h.threads;
  none_asleep = inl running;
}
Step-Awake s t (wake w at) h =
    let next = Awake-set s w waiting tt h in record { threads = next.0; none_asleep = next.1 }
Step-Awake s t (take w packet pool' at running e) h =
    let kept = dequeue-running s.pool pool' packet e in
    record {
      threads = omega (arith, length-set s.workers w (holding packet), h.threads, kept.1);
      none_asleep = inl (kept.0 ∙ running);
    }
Step-Awake s t (read_count w packet at) h =
    let next = Awake-set s w (counting packet s.pool.packets_processed) tt h in
    record { threads = next.0; none_asleep = next.1 }
Step-Awake s t (write_count w packet n at) h =
    let next = Awake-set s w waiting tt h in record { threads = next.0; none_asleep = next.1 }
Step-Awake s t (leave w at is_stopped) h =
    let next = Awake-set s w exited tt h in record { threads = next.0; none_asleep = next.1 }
Step-Awake s t stop h = record {
  threads = length-broadcast s.workers ∙ h.threads;
  none_asleep = inr (NoneAsleep-broadcast s.workers);
}

length-replicate_waiting : (n : ℕ) → length (replicate n waiting) ≡ n
length-replicate_waiting zero = refl
length-replicate_waiting (suc n) = ap suc (length-replicate_waiting n)

create-running :
    (num_threads max_queue_size : ℤ) (pool : Pool)
    → create num_threads max_queue_size ≡ some pool
    → pool.is_running ≡ true
unfolding create
create-running num_threads max_queue_size pool e = ground arith

pub reachable-Awake :
    (num_threads max_queue_size : ℤ) (pool : Pool) (m : Metrics) (s : System)
    → create num_threads max_queue_size ≡ some pool
    → Reachable (initial pool m) s
    → Awake s
reachable-Awake num_threads max_queue_size pool m s e here = record {
  threads = length-replicate_waiting pool.num_threads;
  none_asleep = inl (create-running num_threads max_queue_size pool e);
}
reachable-Awake num_threads max_queue_size pool m s e (after r t reach step) =
    Step-Awake r t step (reachable-Awake num_threads max_queue_size pool m r e reach)
