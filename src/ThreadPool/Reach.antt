-- ===== src/ThreadPool/Reach.antt =====
-- The steps of the threads from a pool that has just been created.
use packet_analyzer.Prelude.{
  ℕ, zero, suc, ◌+◌, ◌≡◌, ◌≢◌, refl, ◌∙◌, sym, ap, subst, arith, false, none, some, [], inl, inr,
  replicate, u32,
}
use packet_analyzer.Prelude.Int.{ℤ}
use packet_analyzer.Metrics.Counters.{Metrics}
use packet_analyzer.ThreadPool.Queue.{Pool, create}
use packet_analyzer.ThreadPool.Fifo.{Holds, create-Holds}
use packet_analyzer.ThreadPool.Moves.{
  made_of, Holds-other, accept-Orderly, refuse-Orderly, take-Orderly,
}
use packet_analyzer.ThreadPool.System.{
  waiting, sleeping, holding, counting, exited, System, initial, Step, accept, refuse, sleep, wake,
  take, read_count, write_count, leave, stop, Reachable, here, after,
}
use packet_analyzer.ThreadPool.Safety.{
  busy, broadcast-busy, AllReadsBelow, Orderly, busy-set, AllReadsBelow-set, AllReadsBelow-suc,
  read_below,
}

Step-Orderly : (s t : System) → Orderly s → Step s t → Orderly t
Step-Orderly s t o (accept packet a attempts pool' m' workers' unused e signalled) =
    accept-Orderly s packet a attempts pool' m' workers' o unused e signalled
Step-Orderly s t o (refuse packet a attempts pool' m' unused e) =
    refuse-Orderly s packet a attempts pool' m' o unused e
Step-Orderly s t o (sleep w at empty running) = record {
  items = o.items;
  holds = o.holds;
  in_order = o.in_order;
  each_once = omega (arith, o.each_once, busy-set s.workers w waiting sleeping at);
  count = o.count;
  reads = AllReadsBelow-set s.finished s.workers w sleeping o.reads tt;
}
Step-Orderly s t o (wake w at) = record {
  items = o.items;
  holds = o.holds;
  in_order = o.in_order;
  each_once = omega (arith, o.each_once, busy-set s.workers w sleeping waiting at);
  count = o.count;
  reads = AllReadsBelow-set s.finished s.workers w waiting o.reads tt;
}
Step-Orderly s t o (take w packet pool' at running e) = take-Orderly s w packet pool' o at e
Step-Orderly s t o (read_count w packet at) = record {
  items = o.items;
  holds = o.holds;
  in_order = o.in_order;
  each_once = omega (
    arith,
    o.each_once,
    busy-set s.workers w (holding packet) (counting packet s.pool.packets_processed) at,
  );
  count = o.count;
  reads = AllReadsBelow-set s.finished s.workers w _ o.reads o.count;
}
Step-Orderly s t o (write_count w packet n at) = record {
  items = o.items;
  holds = Holds-other s.pool o.items (u32 (n + 1)) s.pool.is_running o.holds;
  in_order = o.in_order;
  each_once = omega (arith, o.each_once, busy-set s.workers w (counting packet n) waiting at);
  count = omega (arith, read_below s.finished s.workers w packet n o.reads at);
  reads =
      AllReadsBelow-set (s.finished + 1) s.workers w waiting
        (AllReadsBelow-suc s.finished s.workers o.reads) tt;
}
Step-Orderly s t o (leave w at stopped) = record {
  items = o.items;
  holds = o.holds;
  in_order = o.in_order;
  each_once = omega (arith, o.each_once, busy-set s.workers w waiting exited at);
  count = o.count;
  reads = AllReadsBelow-set s.finished s.workers w exited o.reads tt;
}
Step-Orderly s t o stop = record {
  items = o.items;
  holds = Holds-other s.pool o.items s.pool.packets_processed false o.holds;
  in_order = o.in_order;
  each_once = omega (arith, o.each_once, (broadcast-busy s.workers s.finished o.reads).0);
  count = o.count;
  reads = (broadcast-busy s.workers s.finished o.reads).1;
}

busy-replicate : (n : ℕ) → (busy (replicate n waiting) ≡ 0) × AllReadsBelow 0 (replicate n waiting)
busy-replicate zero = (refl, tt)
busy-replicate (suc n) = let h = busy-replicate n in (omega (arith, h.0), (tt, h.1))

pub create-processed :
    (num_threads max_queue_size : ℤ) (pool : Pool)
    → create num_threads max_queue_size ≡ some pool
    → pool.packets_processed ≡ 0
unfolding create
create-processed num_threads max_queue_size pool e = ground arith

-- In every state that the threads can reach from a created pool, the queue is a well-formed chain of
-- at most its maximum of packets; the packets accepted are those taken by workers followed by those
-- queued, in the order of their arrival, so each is taken once; every packet taken is either counted
-- or with exactly one worker; and the processed count is at most the number of packets counted.
pub reachable-Orderly :
    (num_threads max_queue_size : ℤ) (pool : Pool) (m : Metrics) (s : System)
    → create num_threads max_queue_size ≡ some pool
    → Reachable (initial pool m) s
    → Orderly s
reachable-Orderly num_threads max_queue_size pool m s e here =
    elim (create-Holds num_threads max_queue_size) [
      | inl (sizes, (p, made, holds, running)) ↦
          let workers = busy-replicate pool.num_threads in
          record {
            items = [];
            holds = subst (λ q. Holds q []) (ap (made_of p) (sym made ∙ e)) holds;
            in_order = refl;
            each_once = omega (arith, workers.0);
            count = omega (arith, create-processed num_threads max_queue_size pool e);
            reads = workers.1;
          }
      | inr (sizes, made) ↦ absurd (some_ne_none (sym made ∙ e))
    ]
  where
    some_ne_none : none ≢ some pool
    some_ne_none h = cc
reachable-Orderly num_threads max_queue_size pool m s e (after r t reach step) =
    Step-Orderly r t (reachable-Orderly num_threads max_queue_size pool m r e reach) step
