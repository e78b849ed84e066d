-- ===== src/ThreadPool/Moves.antt =====
-- The steps that change the queue, one by one.
use packet_analyzer.Prelude.{
  ℕ, ◌≡◌, ◌≢◌, ◌∙◌, sym, ap, subst, arith, Bool, Option, none, some, List, [], ◌∷◌, ◌++◌,
  append_assoc, inl, inr, length-append, get_elem?, set,
}
use packet_analyzer.Packet.{Packet}
use packet_analyzer.Metrics.Counters.{Metrics}
use packet_analyzer.Metrics.Latency.{Attempt}
use packet_analyzer.ThreadPool.Queue.{Pool, Status, success, failure, enqueue, dequeue}
use packet_analyzer.ThreadPool.Chain.{Apart}
use packet_analyzer.ThreadPool.Fifo.{
  Holds, packets, packets-append, enqueue_appends, dequeue_takes_oldest,
}
use packet_analyzer.ThreadPool.System.{Phase, waiting, holding, System, Signalled}
use packet_analyzer.ThreadPool.Safety.{
  Orderly, busy, AllReadsBelow, Signalled-busy, busy-set, AllReadsBelow-set, Linked-Apart,
  enqueue-processed, dequeue-processed, dequeue_empty,
}

abbrev status_of : Status → Option (Status × Pool × Metrics) → Status
status_of d none = d
status_of d (some (r, _, _)) = r

abbrev pool_of : Pool → Option (Status × Pool × Metrics) → Pool
pool_of d none = d
pool_of d (some (_, p, _)) = p

abbrev pub made_of : Pool → Option Pool → Pool
made_of d none = d
made_of d (some p) = p

abbrev taken_of : (Packet × Pool) → Option (Packet × Pool) → Packet × Pool
taken_of d none = d
taken_of d (some r) = r

-- The queue does not read the processed count or the flag.
pub Holds-other :
    (pool : Pool) (items : List (ℕ × Packet)) (n : ℕ) (running : Bool)
    → Holds pool items
    → Holds (record pool { packets_processed = n; is_running = running }) items
Holds-other pool items n running h = record {
  linked = h.linked;
  distinct = h.distinct;
  counted = h.counted;
  bounded = h.bounded;
}

pub accept-Orderly :
    (s : System) (packet : Packet) (a : ℕ) (attempts : List Attempt) (pool' : Pool) (m' : Metrics)
    (workers' : List Phase)
    → Orderly s
    → s.pool.heap a ≡ none
    → enqueue s.pool (some packet) (some a) attempts s.metrics ≡ some (success, pool', m')
    → Signalled s.workers workers'
    → Orderly (record s {
      pool = pool';
      metrics = m';
      workers = workers';
      accepted = s.accepted ++ (packet ∷ []);
    })
accept-Orderly s packet a attempts pool' m' workers' o unused e signalled =
    elim (enqueue_appends s.pool o.items packet a attempts s.metrics o.holds apart) [
      | inl (room, (p, run, holds, max)) ↦ record {
        items = o.items ++ ((a, packet) ∷ []);
        holds =
            subst (λ q. Holds q (o.items ++ ((a, packet) ∷ []))) (ap (pool_of p) (sym run ∙ e))
              holds;
        in_order =
            ap (λ ps. ps ++ (packet ∷ [])) o.in_order
            ∙ append_assoc s.taken (packets o.items) (packet ∷ [])
            ∙ ap (λ ps. s.taken ++ ps) (sym (packets-append o.items a packet));
        each_once = omega (arith, o.each_once, woken.0);
        count = omega (arith, o.count, kept);
        reads = woken.1;
      }
      | inr (full, run) ↦ absurd (failed (ap (status_of success) (sym run ∙ e)))
    ]
  where
    kept : pool'.packets_processed ≡ s.pool.packets_processed
    kept = enqueue-processed s.pool pool' packet a attempts s.metrics m' success e

    woken : (busy workers' ≡ busy s.workers) × AllReadsBelow s.finished workers'
    woken = Signalled-busy s.workers workers' s.finished signalled o.reads

    apart : Apart a o.items
    apart =
        Linked-Apart s.pool.heap s.pool.queue_head s.pool.queue_tail o.items a o.holds.linked unused

    failed : failure ≢ success
    failed h = cc

pub refuse-Orderly :
    (s : System) (packet : Packet) (a : ℕ) (attempts : List Attempt) (pool' : Pool) (m' : Metrics)
    → Orderly s
    → s.pool.heap a ≡ none
    → enqueue s.pool (some packet) (some a) attempts s.metrics ≡ some (failure, pool', m')
    → Orderly (record s { pool = pool'; metrics = m' })
refuse-Orderly s packet a attempts pool' m' o unused e =
    elim (enqueue_appends s.pool o.items packet a attempts s.metrics o.holds apart) [
      | inl (room, (p, run, holds, max)) ↦ absurd (passed (ap (status_of failure) (sym run ∙ e)))
      | inr (full, run) ↦ record {
        items = o.items;
        holds = subst (λ q. Holds q o.items) (ap (pool_of s.pool) (sym run ∙ e)) o.holds;
        in_order = o.in_order;
        each_once = o.each_once;
        count = omega (arith, o.count, kept);
        reads = o.reads;
      }
    ]
  where
    kept : pool'.packets_processed ≡ s.pool.packets_processed
    kept = enqueue-processed s.pool pool' packet a attempts s.metrics m' failure e

    apart : Apart a o.items
    apart =
        Linked-Apart s.pool.heap s.pool.queue_head s.pool.queue_tail o.items a o.holds.linked unused

    passed : success ≢ failure
    passed h = cc

pub take-Orderly :
    (s : System) (w : ℕ) (packet : Packet) (pool' : Pool)
    → Orderly s
    → get_elem? s.workers w ≡ some waiting
    → dequeue s.pool ≡ some (packet, pool')
    → Orderly (record s {
      pool = pool';
      workers = set s.workers w (holding packet);
      taken = s.taken ++ (packet ∷ []);
    })
take-Orderly s w packet pool' o at e = go o.items o.holds o.in_order
  where
    go :
        (items : List (ℕ × Packet))
        → Holds s.pool items
        → s.accepted ≡ s.taken ++ packets items
        → Orderly (record s {
          pool = pool';
          workers = set s.workers w (holding packet);
          taken = s.taken ++ (packet ∷ []);
        })
    go [] holds in_order = absurd (empty (sym (dequeue_empty s.pool holds) ∙ e))
      where
        empty : ◌≢◌ {A = Option (Packet × Pool)} none (some (packet, pool'))
        empty h = cc
    go ((a, p) ∷ rest) holds in_order =
        let (q, run, left, max) = dequeue_takes_oldest s.pool a p rest holds in
        let same = ap (taken_of (p, q)) (sym run ∙ e) in
        record {
          items = rest;
          holds = subst (λ r. Holds r rest) (ap (λ r. r.1) same) left;
          in_order =
              in_order
              ∙ ap (λ r. s.taken ++ (r ∷ packets rest)) (ap (λ r. r.0) same)
              ∙ sym (append_assoc s.taken (packet ∷ []) (packets rest));
          each_once = omega (
            arith,
            o.each_once,
            length-append s.taken (packet ∷ []),
            busy-set s.workers w waiting (holding packet) at,
          );
          count = omega (arith, o.count, dequeue-processed s.pool pool' packet e);
          reads = AllReadsBelow-set s.finished s.workers w (holding packet) o.reads tt;
        }
