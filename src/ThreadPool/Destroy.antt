-- ===== src/ThreadPool/Destroy.antt =====
-- `thread_pool_destroy` of src/thread_pool.c: it stops the pool and wakes its workers, joins them one by
-- one while they and other threads go on, and then releases what is left.
use packet_analyzer.Prelude.{
  ℕ, zero, suc, ◌+◌, ◌≤◌, ◌<◌, ◌≡◌, refl, arith, Option, none, some, List, [], ◌∷◌, ◌++◌, ◌>>=◌,
  length, get_elem?,
}
use packet_analyzer.Packet.{Packet}
use packet_analyzer.Metrics.Counters.{Metrics}
use packet_analyzer.Prelude.Int.{ℤ}
use packet_analyzer.ThreadPool.Queue.{Heap, Pool, update, create}
use packet_analyzer.ThreadPool.Chain.{Linked, Distinct, Linked-update}
use packet_analyzer.ThreadPool.Fifo.{packets}
use packet_analyzer.ThreadPool.System.{exited, System, initial, stopped, Step, Reachable}
use packet_analyzer.ThreadPool.Reach.{reachable-Orderly}

-- What is released: a packet by `packet_free`, a work item, the lock, the condition variable, the array
-- of the threads and the pool.
pub data Freed : Type 0 where
  packet : Packet → Freed
  item : ℕ → Freed
  queue_lock queue_cond threads pool : Freed

-- The loop over the items that are left. `none` is a dangling pointer, or more items than `fuel`.
unfoldable pub free_loop : ℕ → Heap → Option ℕ → Option (List Freed × Heap)
free_loop fuel heap none = some ([], heap)
free_loop zero heap (some a) = none
free_loop (suc fuel) heap (some a) = heap a >>= λ current.
    free_loop fuel (update heap a none) current.next >>= λ r.
    some (packet current.packet ∷ item a ∷ r.0, r.1)

-- What comes behind the joins: what is freed, in order, and the heap of work items that is left. A queue
-- of `queue_size` items needs no more fuel than that.
unfoldable pub release_pool : Pool → Option (List Freed × Heap)
release_pool p = free_loop p.queue_size p.heap p.queue_head >>= λ r.
    some (r.0 ++ (queue_lock ∷ queue_cond ∷ threads ∷ pool ∷ []), r.1)

-- Where the call stands: at its start, before the join of a thread, or at its end.
pub data Stage : Type 0 where
  called : Stage
  joining : ℕ → Stage
  released : List Freed → Heap → Stage

pub record Destruction : Type 0 where
  pub system : System
  pub stage : Stage

-- `thread_pool_destroy` and the threads, interleaved. `pthread_join` returns when the thread has left.
pub data Destroy (d : Destruction) : Destruction → Type 0 where
  begin : d.stage ≡ called → Destroy d (record { system = stopped d.system; stage = joining 0 })
  meanwhile :
      (i : ℕ) (t : System)
      → d.stage ≡ joining i
      → Step d.system t
      → Destroy d (record { system = t; stage = joining i })
  join :
      (i : ℕ)
      → d.stage ≡ joining i
      → i < d.system.pool.num_threads
      → get_elem? d.system.workers i ≡ some exited
      → Destroy d (record { system = d.system; stage = joining (i + 1) })
  release :
      (i : ℕ) (frees : List Freed) (left : Heap)
      → d.stage ≡ joining i
      → d.system.pool.num_threads ≤ i
      → release_pool d.system.pool ≡ some (frees, left)
      → Destroy d (record { system = d.system; stage = released frees left })

pub data Destroys (start : Destruction) : Destruction → Type 0 where
  begun : Destroys start start
  next : (d e : Destruction) → Destroys start d → Destroy d e → Destroys start e

-- A call in a state of the threads.
abbrev pub call : System → Destruction
call s = record { system = s; stage = called }

-- The items of a queue with their packets, as they are freed.
abbrev pub freed_items : List (ℕ × Packet) → List Freed
freed_items [] = []
freed_items ((a, p) ∷ items) = packet p ∷ item a ∷ freed_items items

-- The items of a chain are gone, and everything else is as before.
abbrev pub Cleared : Heap → Heap → List (ℕ × Packet) → Type 0
Cleared before left [] = (a : ℕ) → left a ≡ before a
Cleared before left ((b, p) ∷ items) = (left b ≡ none) × Cleared (update before b none) left items

Cleared-none :
    (before left : Heap) (a : ℕ) (items : List (ℕ × Packet))
    → before a ≡ none
    → Cleared before left items
    → left a ≡ none
Cleared-none before left a [] e c = rw (c a) e
Cleared-none before left a ((b, p) ∷ items) e c =
    Cleared-none (update before b none) left a items (ground (arith, e)) c.1

free_loop-Linked :
    (heap : Heap) (head tail : Option ℕ) (items : List (ℕ × Packet))
    → Linked heap head items tail
    → Distinct items
    → (left : Heap) × (free_loop (length items) heap head ≡ some (freed_items items, left))
      × Cleared heap left items
unfolding free_loop
free_loop-Linked heap head tail [] l d = (heap, rw l.0 refl, λ a. refl)
free_loop-Linked heap head tail ((a, p) ∷ []) l d =
    let left = update heap a none in (left, rw (l.0, l.1) refl, (ground arith, λ b. refl))
free_loop-Linked heap head tail ((a, p) ∷ (b, q) ∷ rest) l d =
    let (left, freed, cleared) =
      free_loop-Linked (update heap a none) (some b) tail ((b, q) ∷ rest)
        (Linked-update heap a none (some b) tail ((b, q) ∷ rest) d.0 l.2) d.1 in
    (
      left,
      rw (l.0, l.1, freed) refl,
      (Cleared-none (update heap a none) left a ((b, q) ∷ rest) (ground arith) cleared, cleared),
    )

-- From a reachable state, the release behind the joins succeeds, with what it frees.
pub release_pool-reachable :
    (num_threads max_queue_size : ℤ) (created : Pool) (m : Metrics) (s : System)
    → create num_threads max_queue_size ≡ some created
    → Reachable (initial created m) s
    → (items : List (ℕ × Packet)) × (left : Heap) × (release_pool s.pool
        ≡ some (freed_items items ++ (queue_lock ∷ queue_cond ∷ threads ∷ pool ∷ []), left))
      × (s.accepted ≡ s.taken ++ packets items)
      × Linked s.pool.heap s.pool.queue_head items s.pool.queue_tail
      × Cleared s.pool.heap left items
unfolding release_pool
release_pool-reachable num_threads max_queue_size created m s e reach =
    let o = reachable-Orderly num_threads max_queue_size created m s e reach in
    let (left, freed, cleared) =
      free_loop-Linked s.pool.heap s.pool.queue_head s.pool.queue_tail o.items o.holds.linked
        o.holds.distinct in
    (o.items, left, rw (o.holds.counted, freed) refl, o.in_order, o.holds.linked, cleared)
