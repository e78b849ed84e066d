-- ===== src/ThreadPool/Counting.antt =====
-- `packets_processed` with one worker, and with two.
use packet_analyzer.Prelude.{
  ℕ, zero, suc, ◌+◌, ◌≡◌, ◌≢◌, refl, ◌∙◌, sym, ap, subst, arith, some, List, [], ◌∷◌, get_elem?,
  set, replicate, u32, ◌<◌, ◌^◌,
}
use packet_analyzer.Prelude.Int.{ℤ, pos}
use packet_analyzer.Packet.{Packet}
use packet_analyzer.Metrics.Counters.{Metrics}
use packet_analyzer.ThreadPool.Queue.{Pool, success, failure, create, get_processed_count}
use packet_analyzer.ThreadPool.System.{
  Phase, waiting, sleeping, holding, counting, exited, System, Signalled, nobody, one, broadcast,
  initial, Step, accept, refuse, sleep, wake, take, read_count, write_count, leave, stop, Reachable,
  here, after,
}
use packet_analyzer.ThreadPool.Safety.{enqueue-processed, dequeue-processed}
use packet_analyzer.ThreadPool.Phases.{get_elem?-set_self, get_elem?-set_ne}
use packet_analyzer.ThreadPool.Reach.{create-processed}

abbrev ReadsExactly : ℕ → Phase → Type 0
ReadsExactly n (counting _ k) = k ≡ u32 n
ReadsExactly n _ = Unit {0}

-- One worker, and the 32 bits of the count are right; what the worker has read of it is, too.
record Exact (s : System) : Type 0 where
  worker : Phase
  only : s.workers ≡ worker ∷ []
  count : s.pool.packets_processed ≡ u32 s.finished
  reads : ReadsExactly s.finished worker

set_only :
    (ws : List Phase) (w : ℕ) (only x y : Phase)
    → ws ≡ only ∷ []
    → get_elem? ws w ≡ some x
    → (set ws w y ≡ y ∷ []) × (only ≡ x)
set_only [] w only x y e h = absurd cc
set_only (v ∷ []) zero only x y e h = (refl, ground arith)
set_only (v ∷ []) (suc w) only x y e h = absurd cc
set_only (v ∷ u ∷ ws) w only x y e h = absurd cc

-- The one worker once a thread, or all, have been woken.
woken :
    (n : ℕ) (ws ws' : List Phase) (only : Phase)
    → Signalled ws ws'
    → ws ≡ only ∷ []
    → ReadsExactly n only
    → (worker : Phase) × (ws' ≡ worker ∷ []) × ReadsExactly n worker
woken n ws ws' only (nobody none_asleep) e r = (only, e, r)
woken n ws ws' only (one w at) e r = (waiting, (set_only ws w only sleeping waiting e at).0, tt)

all_woken :
    (ws : List Phase) (only : Phase) (n : ℕ)
    → ws ≡ only ∷ []
    → ReadsExactly n only
    → (worker : Phase) × (broadcast ws ≡ worker ∷ []) × ReadsExactly n worker
all_woken ws waiting n e r = (waiting, ap broadcast e, tt)
all_woken ws sleeping n e r = (waiting, ap broadcast e, tt)
all_woken ws (holding p) n e r = (holding p, ap broadcast e, tt)
all_woken ws (counting p k) n e r = (counting p k, ap broadcast e, r)
all_woken ws exited n e r = (exited, ap broadcast e, tt)

one_more : (k n : ℕ) → k ≡ u32 n → u32 (k + 1) ≡ u32 (n + 1)
one_more k n e = omega (arith, e)

Step-Exact : (s t : System) → Exact s → Step s t → Exact t
Step-Exact s t x (accept packet a attempts pool' m' workers' unused e signalled) = record {
  worker = (woken s.finished s.workers workers' x.worker signalled x.only x.reads).0;
  only = (woken s.finished s.workers workers' x.worker signalled x.only x.reads).1;
  count = enqueue-processed s.pool pool' packet a attempts s.metrics m' success e ∙ x.count;
  reads = (woken s.finished s.workers workers' x.worker signalled x.only x.reads).2;
}
Step-Exact s t x (refuse packet a attempts pool' m' unused e) = record {
  worker = x.worker;
  only = x.only;
  count = enqueue-processed s.pool pool' packet a attempts s.metrics m' failure e ∙ x.count;
  reads = x.reads;
}
Step-Exact s t x (sleep w at empty running) = record {
  worker = sleeping;
  only = (set_only s.workers w x.worker waiting sleeping x.only at).0;
  count = x.count;
  reads = tt;
}
Step-Exact s t x (wake w at) = record {
  worker = waiting;
  only = (set_only s.workers w x.worker sleeping waiting x.only at).0;
  count = x.count;
  reads = tt;
}
Step-Exact s t x (take w packet pool' at running e) = record {
  worker = holding packet;
  only = (set_only s.workers w x.worker waiting (holding packet) x.only at).0;
  count = dequeue-processed s.pool pool' packet e ∙ x.count;
  reads = tt;
}
Step-Exact s t x (read_count w packet at) = record {
  worker = counting packet s.pool.packets_processed;
  only = (set_only s.workers w x.worker (holding packet) _ x.only at).0;
  count = x.count;
  reads = x.count;
}
Step-Exact s t x (write_count w packet n at) = record {
  worker = waiting;
  only = (set_only s.workers w x.worker (counting packet n) waiting x.only at).0;
  count = one_more n s.finished (
      subst (ReadsExactly s.finished)
        (set_only s.workers w x.worker (counting packet n) waiting x.only at).1 x.reads);
  reads = tt;
}
Step-Exact s t x (leave w at stopped) = record {
  worker = exited;
  only = (set_only s.workers w x.worker waiting exited x.only at).0;
  count = x.count;
  reads = tt;
}
Step-Exact s t x stop =
    let (worker, only, reads) = all_woken s.workers x.worker s.finished x.only x.reads in
    record { worker = worker; only = only; count = x.count; reads = reads }

create-num_threads :
    (max_queue_size : ℤ) (pool : Pool)
    → create (pos 1) max_queue_size ≡ some pool
    → pool.num_threads ≡ 1
unfolding create
create-num_threads max_queue_size pool e = ground arith

-- A pool with one worker thread counts exactly: whatever the threads do, `thread_pool_get_processed_count`
-- returns the number of packets that the worker has counted, as long as that is below 2^31, the range
-- of the `int`.
pub one_worker_counts :
    (max_queue_size : ℤ) (pool : Pool) (m : Metrics) (s : System)
    → create (pos 1) max_queue_size ≡ some pool
    → Reachable (initial pool m) s
    → s.finished < 2 ^ 31
    → get_processed_count (some s.pool) ≡ pos s.finished
unfolding get_processed_count
one_worker_counts max_queue_size pool m s e r small =
    let bits : s.pool.packets_processed ≡ s.finished = omega (arith, (exact s r).count, small) in
    rw bits (ground (arith, small))
  where
    exact : (t : System) → Reachable (initial pool m) t → Exact t
    exact t here = record {
      worker = waiting;
      only = ap (λ n. replicate n waiting) (create-num_threads max_queue_size pool e);
      count = create-processed (pos 1) max_queue_size pool e;
      reads = tt;
    }
    exact t (after r' t' reach step) = Step-Exact r' t (exact r' reach) step

-- Two workers that each hold a packet can lose an update: the processed count is not written under
-- the lock, and from every such state the threads can reach one where both packets are counted and
-- the processed count, in its 32 bits, has grown by one only.
pub lost_update :
    (start s : System) (w v : ℕ) (p q : Packet)
    → Reachable start s
    → w ≢ v
    → get_elem? s.workers w ≡ some (holding p)
    → get_elem? s.workers v ≡ some (holding q)
    → (t : System) × Reachable start t
      × (t.finished ≡ s.finished + 2)
      × (t.pool.packets_processed ≡ u32 (s.pool.packets_processed + 1))
lost_update start s w v p q r d at_w at_v = (
  _,
  after _ _
      (after _ _ (after _ _ (after _ _ r (read_count w p at_w)) (read_count v q holds_v))
        (write_count w p n counts_w))
      (write_count v q n counts_v),
  omega arith,
  refl,
)
  where
    n : ℕ
    n = s.pool.packets_processed

    one : List Phase
    one = set s.workers w (counting p n)

    two : List Phase
    two = set one v (counting q n)

    three : List Phase
    three = set two w waiting

    holds_v : get_elem? one v ≡ some (holding q)
    holds_v = get_elem?-set_ne s.workers w v (counting p n) d ∙ at_v

    counts_w : get_elem? two w ≡ some (counting p n)
    counts_w =
        get_elem?-set_ne one v w (counting q n) (λ e. d (sym e))
        ∙ get_elem?-set_self s.workers w (holding p) (counting p n) at_w

    counts_v : get_elem? three v ≡ some (counting q n)
    counts_v =
        get_elem?-set_ne two w v waiting d
        ∙ get_elem?-set_self one v (holding q) (counting q n) holds_v
