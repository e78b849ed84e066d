-- ===== src/Metrics/Watermark.antt =====
-- The compare-exchange loop of the watermarks under interference.
use packet_analyzer.Prelude.{ℕ, ◌≤◌, ◌≡◌, arith, List, [], ◌∷◌}
use packet_analyzer.Metrics.Latency.{Attempt, raise, raise_all, exchange_loop}

-- The largest of the thread's value, of what the variable was and of what any other thread has raised
-- it to.
abbrev pub peak : ℕ → List Attempt → ℕ → ℕ
peak value [] shared = raise shared value
peak value (a ∷ attempts) shared = raise (peak value attempts shared) a.seen

peak-raise :
    (value : ℕ) (attempts : List Attempt) (shared seen : ℕ)
    → peak value attempts (raise shared seen) ≡ raise (peak value attempts shared) seen
peak-raise value [] shared seen = ground arith
peak-raise value (x ∷ attempts) shared seen = ground (arith, peak-raise value attempts shared seen)

-- A value that is there already adds nothing.
raise_all-peak :
    (value : ℕ) (attempts : List Attempt) (shared : ℕ)
    → value ≤ shared
    → raise_all attempts shared ≡ peak value attempts shared
raise_all-peak value [] shared h = ground (arith, h)
raise_all-peak value (a ∷ attempts) shared h = ground (
  arith,
  raise_all-peak value attempts (raise shared a.seen),
  peak-raise value attempts shared a.seen,
  h,
)

peak-absorb :
    (value : ℕ) (attempts : List Attempt) (shared : ℕ)
    → shared ≤ value
    → peak value attempts value ≡ peak value attempts shared
peak-absorb value [] shared h = ground (arith, h)
peak-absorb value (a ∷ attempts) shared h = ground (arith, peak-absorb value attempts shared h)

-- Whatever the other threads do between the attempts, as long as they only raise the watermark, it is
-- in the end exactly the largest of the thread's value, of what it was, and of all that the others
-- have raised it to: no raise is lost, neither the thread's nor another's, and nothing else is stored.
-- The thread's copy is at most what the watermark was.
pub exchange_loop-peak :
    (value : ℕ) (attempts : List Attempt) (current shared : ℕ)
    → current ≤ shared
    → exchange_loop value attempts current shared ≡ peak value attempts shared
unfolding exchange_loop
exchange_loop-peak value [] current shared h = ground (arith, h)
exchange_loop-peak value (a ∷ attempts) current shared h =
    let shared' = raise shared a.seen in
    ground (
      arith,
      h,
      exchange_loop-peak value attempts shared' shared',
      peak-raise value attempts shared a.seen,
      raise_all-peak value attempts shared',
      raise_all-peak value attempts value,
      peak-absorb value attempts shared',
    )
