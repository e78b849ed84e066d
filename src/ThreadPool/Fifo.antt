-- ===== src/ThreadPool/Fifo.antt =====
-- The linked queue of the pool against a bounded queue of packets: first in, first out.
use packet_analyzer.Prelude.{
  ℕ, zero, suc, subst, ◌+◌, ◌-◌, ◌≤◌, ◌<◌, ◌≡◌, ◌⊎◌, inl, inr, refl, ◌∙◌, ap, arith, true, false,
  none, some, List, [], ◌∷◌, ◌++◌, length, length-append, leb, u32, Bool-cases,
}
use packet_analyzer.Prelude.Int.{ℤ, pos, negsuc, ◌≤ℤ◌}
use packet_analyzer.Packet.{Packet}
use packet_analyzer.Metrics.Counters.{Metrics, inc_queue_drops}
use packet_analyzer.Metrics.Latency.{Attempt, update_queue_depth_max}
use packet_analyzer.ThreadPool.Queue.{
  update, Pool, create, success, failure, link, enqueue, dequeue,
}
use packet_analyzer.ThreadPool.Chain.{
  Linked, Apart, Distinct, Linked-update, Linked-append, Distinct-append, Linked-tail,
}

-- The pool's queue holds `items`, each at its address, and counts them.
pub record Holds (pool : Pool) (items : List (ℕ × Packet)) : Type 0 where
  pub linked : Linked pool.heap pool.queue_head items pool.queue_tail
  pub distinct : Distinct items
  pub counted : pool.queue_size ≡ length items
  pub bounded : pool.queue_size ≤ pool.max_queue_size

-- The packets, oldest first.
abbrev pub packets : List (ℕ × Packet) → List Packet
packets [] = []
packets ((a, p) ∷ items) = p ∷ packets items

abbrev opened : ℕ → ℕ → Pool
opened n m = record {
  heap = λ a. none;
  num_threads = n;
  queue_head = none;
  queue_tail = none;
  queue_size = 0;
  max_queue_size = m;
  is_running = true;
  packets_processed = 0;
}

-- A pool is made for positive sizes only, and starts running with an empty queue.
pub create-Holds :
    (num_threads max_queue_size : ℤ)
    → (((pos 1 ≤ℤ num_threads) × (pos 1 ≤ℤ max_queue_size))
        × ((pool : Pool) × (create num_threads max_queue_size ≡ some pool)
            × Holds pool []
            × (pool.is_running ≡ true)))
      ⊎ (((num_threads ≤ℤ pos 0) ⊎ (max_queue_size ≤ℤ pos 0))
          × (create num_threads max_queue_size ≡ none))
unfolding create
create-Holds (pos (suc n)) (pos (suc m)) =
    let holds : Holds (opened (suc n) (suc m)) [] = record {
      linked = (refl, refl);
      distinct = tt;
      counted = refl;
      bounded = ground arith;
    } in
    inl ((ground arith, ground arith), (opened (suc n) (suc m), ground arith, holds, refl))
create-Holds (pos zero) m = inr (inl (ground arith), ground arith)
create-Holds (negsuc n) m = inr (inl (ground arith), ground arith)
create-Holds (pos (suc n)) (pos zero) = inr (inr (ground arith), ground arith)
create-Holds (pos (suc n)) (negsuc m) = inr (inr (ground arith), ground arith)

-- What must come of hooking in a new item.
link-Linked :
    (pool : Pool) (items : List (ℕ × Packet)) (a : ℕ) (p : Packet)
    → Linked pool.heap pool.queue_head items pool.queue_tail
    → Apart a items
    → Distinct items
    → pool.heap a ≡ some (record { packet = p; next = none })
    → (linked : Pool) × (link pool a ≡ some linked)
      × Linked linked.heap linked.queue_head (items ++ ((a, p) ∷ [])) linked.queue_tail
      × (linked.queue_size ≡ pool.queue_size)
      × (linked.max_queue_size ≡ pool.max_queue_size)
unfolding link
link-Linked pool [] a p l d ds h = (
  record pool { queue_head = some a; queue_tail = some a },
  ground (arith, l.1),
  (refl, h, refl),
  refl,
  refl,
)
link-Linked pool ((b, q) ∷ items) a p l d ds h =
    let t = Linked-tail pool.heap pool.queue_head pool.queue_tail b q items l in
    let at_tail : Linked pool.heap pool.queue_head ((b, q) ∷ items) (some t.0) =
      subst (λ e. Linked pool.heap pool.queue_head ((b, q) ∷ items) e) t.2 l in
    (
      record pool {
        heap = update pool.heap t.0 (some (record t.1 { next = some a }));
        queue_tail = some a;
      },
      ground (arith, t.2, t.3),
      Linked-append pool.heap a t.0 t.1 p pool.queue_head ((b, q) ∷ items) (λ e. cc) d ds at_tail h
          t.3,
      refl,
      refl,
    )

pub packets-append :
    (items : List (ℕ × Packet)) (a : ℕ) (p : Packet)
    → packets (items ++ ((a, p) ∷ [])) ≡ packets items ++ (p ∷ [])
packets-append [] a p = refl
packets-append ((b, q) ∷ items) a p = ap (λ ps. q ∷ ps) (packets-append items a p)

abbrev stored : Pool → Packet → ℕ → Pool
stored pool packet a = record pool {
  heap = update pool.heap a (some (record { packet = packet; next = none }));
}

enqueue-link :
    (pool : Pool) (packet : Packet) (a n : ℕ) (attempts : List Attempt) (m : Metrics)
    (linked : Pool)
    → leb pool.max_queue_size pool.queue_size ≡ false
    → link (stored pool packet a) a ≡ some linked
    → linked.queue_size ≡ n
    → enqueue pool (some packet) (some a) attempts m
      ≡ some (
        success,
        record linked { queue_size = linked.queue_size + 1 },
        update_queue_depth_max attempts m (u32 (n + 1)),
      )
unfolding enqueue
enqueue-link pool packet a n attempts m linked room e size = rw room (rw e (rw size refl))

-- A packet is put behind those already queued, at the address `malloc` returned, as long as the
-- queue holds fewer than its maximum; at the maximum it is refused, the pool is left as it was and
-- one queue drop is counted. The address is that of no item in the queue.
pub enqueue_appends :
    (pool : Pool) (items : List (ℕ × Packet)) (packet : Packet) (a : ℕ) (attempts : List Attempt)
    (m : Metrics)
    → Holds pool items
    → Apart a items
    → ((length items < pool.max_queue_size)
        × ((pool' : Pool) × (enqueue pool (some packet) (some a) attempts m
              ≡ some (success, pool', update_queue_depth_max attempts m (u32 (length items + 1))))
            × Holds pool' (items ++ ((a, packet) ∷ []))
            × (pool'.max_queue_size ≡ pool.max_queue_size)))
      ⊎ ((length items ≡ pool.max_queue_size)
          × (enqueue pool (some packet) (some a) attempts m
              ≡ some (failure, pool, inc_queue_drops m)))
unfolding enqueue
enqueue_appends pool items packet a attempts m h d =
    elim (Bool-cases (leb pool.max_queue_size pool.queue_size)) [
      | inl full ↦ inr (ground (arith, h.counted, h.bounded), ground arith)
      | inr room ↦ inl (ground (arith, h.counted), put room)
    ]
  where
    put :
        leb pool.max_queue_size pool.queue_size ≡ false
        → (pool' : Pool) × (enqueue pool (some packet) (some a) attempts m
            ≡ some (success, pool', update_queue_depth_max attempts m (u32 (length items + 1))))
          × Holds pool' (items ++ ((a, packet) ∷ []))
          × (pool'.max_queue_size ≡ pool.max_queue_size)
    put room =
        let (linked, e, chain, size, max) =
          link-Linked (stored pool packet a) items a packet
            (Linked-update pool.heap a _ pool.queue_head pool.queue_tail items d h.linked) d
            h.distinct (ground arith) in
        (
          record linked { queue_size = linked.queue_size + 1 },
          enqueue-link pool packet a (length items) attempts m linked room e (size ∙ h.counted),
          record {
            linked = chain;
            distinct = Distinct-append items a packet d h.distinct;
            counted = ground (arith, h.counted, size, length-append items ((a, packet) ∷ []));
            bounded = ground (arith, size, max);
          },
          max,
        )

-- From a queue that is not empty the oldest packet is taken off, the others stay as they were and in
-- order, and the maximum stays.
pub dequeue_takes_oldest :
    (pool : Pool) (a : ℕ) (packet : Packet) (rest : List (ℕ × Packet))
    → Holds pool ((a, packet) ∷ rest)
    → (pool' : Pool) × (dequeue pool ≡ some (packet, pool'))
      × Holds pool' rest
      × (pool'.max_queue_size ≡ pool.max_queue_size)
unfolding dequeue
dequeue_takes_oldest pool a packet [] h = (
  record pool {
    heap = update pool.heap a none;
    queue_head = none;
    queue_tail = none;
    queue_size = pool.queue_size - 1;
  },
  rw h.linked.0 (rw h.linked.1 refl),
  record {
    linked = (refl, refl);
    distinct = tt;
    counted = ground (arith, h.counted);
    bounded = ground (arith, h.bounded);
  },
  refl,
)
dequeue_takes_oldest pool a packet ((b, q) ∷ rest) h = (
  record pool {
    heap = update pool.heap a none;
    queue_head = some b;
    queue_tail = pool.queue_tail;
    queue_size = pool.queue_size - 1;
  },
  rw h.linked.0 (rw h.linked.1 refl),
  record {
    linked =
        Linked-update pool.heap a none (some b) pool.queue_tail ((b, q) ∷ rest) h.distinct.0
          h.linked.2;
    distinct = h.distinct.1;
    counted = ground (arith, h.counted);
    bounded = ground (arith, h.bounded);
  },
  refl,
)
