-- ===== src/ThreadPool/Creation.antt =====
-- `thread_pool_create` of src/thread_pool.c with allocations and threads that may fail. An outer `none`
-- is undefined behaviour, and the inner one the null pointer that is returned.
use packet_analyzer.Prelude.{
  ℕ, subst, zero, suc, ◌+◌, ◌≤◌, ◌<◌, ◌≡◌, ◌⊎◌, inl, inr, refl, arith, Bool, true, false, Option,
  none, some, ◌>>=◌, ltb, if◌then◌else◌, Bool-cases, Option-cases, ltb→lt,
}
use packet_analyzer.Prelude.Int.{ℤ}
use packet_analyzer.ThreadPool.Queue.{Pool, create}

-- The loop over `pthread_create`, from thread `i` on: the first that fails.
unfoldable pub start_loop : (ℕ → Bool) → ℕ → ℕ → Option ℕ
start_loop starts zero i = none
start_loop starts (suc left) i =
    let later = start_loop starts left (i + 1) in if starts i then later else some i

-- The loop over `pthread_join` in `thread_pool_destroy`. To join an entry that no thread was created
-- for is undefined.
unfoldable pub join_loop : ℕ → ℕ → ℕ → Option ℕ
join_loop created zero i = some i
join_loop created (suc left) i =
    let later = join_loop created left (i + 1) in if ltb i created then later else none

-- The two `malloc`s come first. If a thread cannot be started, the pool is destroyed: its queue is
-- empty, and all its entries are joined.
unfoldable pub create_threads : Bool → Bool → (ℕ → Bool) → ℤ → ℤ → Option (Option Pool)
create_threads malloc_pool malloc_threads starts num_threads max_queue_size =
    elim (create num_threads max_queue_size) [
      | none ↦ some none
      | some pool ↦
          if malloc_pool
          then (if malloc_threads
              then (elim (start_loop starts pool.num_threads 0) [
                | none ↦ some (some pool)
                | some i ↦ join_loop i pool.num_threads 0 >>= λ joined. some none
              ])
              else some none)
          else some none
    ]

start_loop-below :
    (starts : ℕ → Bool) (left i j : ℕ)
    → start_loop starts left i ≡ some j
    → (i ≤ j) × (j < i + left) × (starts j ≡ false)
unfolding start_loop
start_loop-below starts zero i j h = absurd cc
start_loop-below starts (suc left) i j h = elim (Bool-cases (starts i)) [
  | inl e ↦
      let ih = start_loop-below starts left (i + 1) j (ground (arith, e, h)) in
      (omega (arith, ih.0), omega (arith, ih.1), ih.2)
  | inr e ↦
      let same : i ≡ j = ground (arith, e, h) in
      (omega (arith, same), omega (arith, same), subst (λ (k : ℕ). starts k ≡ false) same e)
]

start_loop-none :
    (starts : ℕ → Bool) (left i j : ℕ)
    → start_loop starts left i ≡ none
    → i ≤ j
    → j < i + left
    → starts j ≡ true
unfolding start_loop
start_loop-none starts zero i j h low high = absurd (omega arith)
start_loop-none starts (suc left) i j h low high = elim (Bool-cases (starts i)) [
  | inl e ↦ elim (Bool-cases (ltb i j)) [
    | inl l ↦
        let less = ltb→lt i j l in
        start_loop-none starts left (i + 1) j (ground (arith, e, h)) (omega (arith, less))
          (omega (arith, high))
    | inr l ↦ let same : i ≡ j = ground (arith, l, low) in subst (λ (k : ℕ). starts k ≡ true) same e
  ]
  | inr e ↦ absurd (ground (arith, e, h))
]

join_loop-none :
    (created left i : ℕ) → i ≤ created → created < i + left → join_loop created left i ≡ none
unfolding join_loop
join_loop-none created zero i low high = absurd (omega arith)
join_loop-none created (suc left) i low high = elim (Bool-cases (ltb i created)) [
  | inl e ↦
      let less = ltb→lt i created e in
      rw e (join_loop-none created left (i + 1) (omega (arith, less)) (omega (arith, high)))
  | inr e ↦ rw e refl
]

-- For sizes that make a pool and with memory, `thread_pool_create` returns the pool exactly if every
-- `pthread_create` succeeds. If one fails, it joins threads that were never created.
pub create_threads_started :
    (starts : ℕ → Bool) (num_threads max_queue_size : ℤ) (pool : Pool)
    → create num_threads max_queue_size ≡ some pool
    → ((create_threads true true starts num_threads max_queue_size ≡ some (some pool))
        × ((i : ℕ) → i < pool.num_threads → starts i ≡ true))
      ⊎ ((create_threads true true starts num_threads max_queue_size ≡ none)
          × ((i : ℕ) × (i < pool.num_threads) × (starts i ≡ false)))
unfolding create_threads
create_threads_started starts num_threads max_queue_size pool h =
    elim (Option-cases (start_loop starts pool.num_threads 0)) [
      | inl e ↦ inl (
        rw (h, create_threads) (rw e refl),
        λ i l. start_loop-none starts pool.num_threads 0 i e (omega arith) (omega (arith, l)),
      )
      | inr (j, e) ↦
          let below = start_loop-below starts pool.num_threads 0 j e in
          let joins = join_loop-none j pool.num_threads 0 (omega arith) (omega (arith, below.1)) in
          inr (rw (h, create_threads) (rw (e, joins) refl), (j, omega (arith, below.1), below.2))
    ]
