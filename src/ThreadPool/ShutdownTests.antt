-- ===== src/ThreadPool/ShutdownTests.antt =====
-- A pool of one worker that is stopped with a packet in its queue.
use packet_analyzer.Prelude.{
  ◌<◌, ◌==◌, ◌+◌, arith, ℕ, ◌*◌, ◌≤◌, ◌≡◌, ◌⊎◌, refl, true, false, none, some, List, [], ◌∷◌, ◌++◌,
}
use packet_analyzer.Prelude.Int.{pos}
use packet_analyzer.Packet.{Packet}
use packet_analyzer.ThreadPool.Creation.{create_threads, create_threads_started}
use packet_analyzer.Metrics.Counters.{init}
use packet_analyzer.ThreadPool.Queue.{Heap, Pool, create, link, enqueue, dequeue}
use packet_analyzer.ThreadPool.Chain.{Linked}
use packet_analyzer.ThreadPool.Fifo.{packets}
use packet_analyzer.ThreadPool.System.{
  System, nobody, initial, accept, take, sleep, read_count, write_count, leave, Reachable, here,
  after,
}
use packet_analyzer.ThreadPool.Destroy.{
  Freed, packet, item, queue_lock, queue_cond, threads, free_loop, release_pool, released,
  Destruction, Destroy, begin, meanwhile, join, release, Destroys, begun, next, call, freed_items,
  Cleared,
}
use packet_analyzer.ThreadPool.Release.{AllExited, destroy-Cleared}
use packet_analyzer.ThreadPool.Ends.{own, own_moves, destroy_ends}

abbrev byte : ℕ → Packet
byte b = record {
  timestamp = 1;
  capture_ts_ns = 500;
  packet_length = 1;
  raw_data = some (b ∷ []);
  ethernet = none;
  ipv4 = none;
  tcp = none;
  udp = none;
  payload = none;
  payload_length = 0;
}

abbrev pool : Pool
pool = record {
  heap = λ a. none;
  num_threads = 1;
  queue_head = none;
  queue_tail = none;
  queue_size = 0;
  max_queue_size = 2;
  is_running = true;
  packets_processed = 0;
}

pool_created : create (pos 1) (pos 2) ≡ some pool
unfolding create
pool_created = refl

abbrev two_threads : Pool
two_threads = record pool { num_threads = 2 }

two_created : create (pos 2) (pos 2) ≡ some two_threads
unfolding create
two_created = refl

-- Two packets accepted while nobody is asleep, and the first taken.
one_left : (s : System) × Reachable (initial pool init) s
unfolding enqueue dequeue link
one_left = (
  _,
  after _ _
      (after _ _ (after _ _ here (accept (byte 7) 16 [] _ _ _ refl refl (nobody tt)))
        (accept (byte 9) 32 [] _ _ _ refl refl (nobody tt)))
      (take 0 (byte 7) _ refl refl refl),
)

-- The call that stops this pool, joins its worker and frees the packet that is left.
whole_call :
    (d : Destruction) × Destroys (call one_left.0) d
    × (left : Heap) × (d.stage
        ≡ released
            (packet (byte 9) ∷ item 32 ∷ queue_lock ∷ queue_cond ∷ threads ∷ Freed.pool ∷ [])
            left)
unfolding one_left free_loop release_pool
whole_call = (
  _,
  next _ _
      (next _ _
        (next _ _
          (next _ _
            (next _ _ (next _ _ begun (begin refl))
              (meanwhile 0 _ refl (read_count 0 (byte 7) refl)))
            (meanwhile 0 _ refl (write_count 0 (byte 7) 0 refl)))
          (meanwhile 0 _ refl (leave 0 refl refl)))
        (join 0 refl (omega arith) refl))
      (release 1 _ _ refl (omega arith) refl),
  _,
  refl,
)

-- A worker that sleeps when the pool is stopped.
asleep : (s : System) × Reachable (initial pool init) s
asleep = (_, after _ _ here (sleep 0 refl refl refl))

destroy-Cleared_example :
    AllExited whole_call.0.system.workers
    × ((items : List (ℕ × Packet)) × (packet (byte 9)
            ∷ item 32
            ∷ queue_lock
            ∷ queue_cond
            ∷ threads
            ∷ Freed.pool
            ∷ []
          ≡ freed_items items ++ (queue_lock ∷ queue_cond ∷ threads ∷ Freed.pool ∷ []))
        × (whole_call.0.system.accepted ≡ whole_call.0.system.taken ++ packets items)
        × Linked whole_call.0.system.pool.heap whole_call.0.system.pool.queue_head items
            whole_call.0.system.pool.queue_tail
        × Cleared whole_call.0.system.pool.heap whole_call.2 items)
destroy-Cleared_example =
    destroy-Cleared (pos 1) (pos 2) pool init one_left.0 whole_call.0
      (packet (byte 9) ∷ item 32 ∷ queue_lock ∷ queue_cond ∷ threads ∷ Freed.pool ∷ []) whole_call.2
      pool_created one_left.1 whole_call.1 whole_call.3

-- The pool has been stopped, and the call is at its join.
stopped_call : (d : Destruction) × Destroys (call asleep.0) d
stopped_call = (_, next _ _ begun (begin refl))

destroy_ends_example :
    (own_moves stopped_call.1 ≤ 4 * asleep.0.pool.num_threads + 2)
    × (((frees : List Freed) × (left : Heap) × (stopped_call.0.stage ≡ released frees left))
        ⊎ ((e : Destruction) × (move : Destroy stopped_call.0 e) × (own move ≡ 1)))
destroy_ends_example =
    destroy_ends (pos 1) (pos 2) pool init asleep.0 stopped_call.0 pool_created asleep.1
      stopped_call.1

-- The second of two threads cannot be started.
create_threads_started_example :
    ((create_threads true true (λ i. i == 0) (pos 2) (pos 2) ≡ some (some two_threads))
      × ((i : ℕ) → i < two_threads.num_threads → (i == 0) ≡ true))
    ⊎ ((create_threads true true (λ i. i == 0) (pos 2) (pos 2) ≡ none)
        × ((i : ℕ) × (i < two_threads.num_threads) × ((i == 0) ≡ false)))
create_threads_started_example =
    create_threads_started (λ i. i == 0) (pos 2) (pos 2) two_threads two_created
