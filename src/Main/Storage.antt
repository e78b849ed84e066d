-- ===== src/Main/Storage.antt =====
-- What the storage of the runs holds when the last run is over.
use packet_analyzer.Prelude.{
  ℕ, zero, suc, ◌+◌, ◌-◌, ◌≤◌, ◌<◌, ◌≡◌, ◌⊎◌, inl, inr, refl, ◌∙◌, sym, ap, subst, arith, Option,
  none, some, List, [], ◌∷◌, ◌++◌, append_assoc, map, ◌>>=◌, ltb, get_elem?, store, replicate,
  length, length-append, Bool-cases,
}
use packet_analyzer.Floating.{Floating}
use packet_analyzer.Metrics.Snapshot.{Snapshot}
use packet_analyzer.Main.Runs.{Run, zero_run, allocate_runs, run_of, store_run, run_loop, measure}

get_elem?-append {ℓ} :
    {A : Type ℓ} (xs : List A) (y : A) (ys : List A)
    → get_elem? (xs ++ (y ∷ ys)) (length xs) ≡ some y
get_elem?-append [] y ys = refl
get_elem?-append (x ∷ xs) y ys = get_elem?-append xs y ys

store-append {ℓ} :
    {A : Type ℓ} (xs : List A) (y z : A) (ys : List A)
    → store (xs ++ (y ∷ ys)) (length xs) z ≡ some (xs ++ (z ∷ ys))
unfolding store
store-append [] y z ys = refl
store-append (x ∷ xs) y z ys = rw (store-append xs y z ys) refl

module _ (F : Floating) where
  open F use {Double}

  store_run-append :
      (done : List (Run Double)) (r : Run Double) (rest : List (Run Double)) (s : Snapshot Double)
      → store_run F (some (done ++ (r ∷ rest))) (length done) s
        ≡ some (some (done ++ (run_of F r s ∷ rest)))
  unfolding store_run
  store_run-append done r rest s =
      rw (get_elem?-append done r rest) (rw (store-append done r (run_of F r s) rest) refl)

  run_loop_lem :
      (done : List (Run Double)) (k : ℕ) (snapshots : List (Snapshot Double))
      → length snapshots ≤ k
      → run_loop F (some (done ++ replicate k (zero_run F))) (length done) snapshots
        ≡ some (
            some (
              done
              ++ (map (run_of F (zero_run F)) snapshots
                  ++ replicate (k - length snapshots) (zero_run F))))
  unfolding run_loop
  run_loop_lem done k [] h = let e : k - 0 ≡ k = omega arith in rw e refl
  run_loop_lem done zero (s ∷ snapshots) h = absurd (omega arith)
  run_loop_lem done (suc k) (s ∷ snapshots) h =
      let r = run_of F (zero_run F) s in
      let ih = run_loop_lem (done ++ (r ∷ [])) k snapshots (omega arith) in
      let size : length (done ++ (r ∷ [])) ≡ length done + 1 =
        omega (arith, length-append done (r ∷ [])) in
      let left : suc k - length (s ∷ snapshots) ≡ k - length snapshots = omega arith in
      let rest = append_assoc done (r ∷ []) (replicate k (zero_run F)) in
      let all =
        append_assoc done (r ∷ []) (
          map (run_of F (zero_run F)) snapshots ++ replicate (k - length snapshots) (zero_run F)) in
      let target : Option (Option (List (Run Double))) = some (
        some (
          done
          ++ (r
              ∷ (map (run_of F (zero_run F)) snapshots
                  ++ replicate (suc k - length (s ∷ snapshots)) (zero_run F))))) in
      rw (store_run-append done (zero_run F) (replicate k (zero_run F)) s, run_loop)
        (subst (λ xs. run_loop F (some xs) (length done + 1) snapshots ≡ target) rest
          (subst
            (λ n.
              run_loop F (some ((done ++ (r ∷ [])) ++ replicate k (zero_run F))) n snapshots
              ≡ target)
            size
            (ih
              ∙ ap (λ xs. some (some xs))
                  (all
                    ∙ ap
                        (λ n.
                          done
                          ++ (r
                              ∷ (map (run_of F (zero_run F)) snapshots
                                  ++ replicate n (zero_run F))))
                        (sym left)))))

  run_loop-none :
      (snapshots : List (Snapshot Double)) (i : ℕ)
      → (run_loop F none i snapshots >>= λ runs. runs) ≡ none
  unfolding run_loop store_run
  run_loop-none [] i = refl
  run_loop-none (s ∷ snapshots) i = refl

  -- With one run the storage is a null pointer and `main` goes through it, whether or not the run is
  -- interrupted; with more, each run that took place is stored at its index, and those cut off by a
  -- signal stay zero.
  pub measure_stores_runs :
      (num_runs : ℕ) (snapshots : List (Snapshot Double))
      → 0 < num_runs
      → length snapshots ≤ num_runs
      → ((num_runs ≡ 1) × (measure F num_runs snapshots ≡ none))
        ⊎ ((1 < num_runs)
            × (measure F num_runs snapshots
                ≡ some (
                    map (run_of F (zero_run F)) snapshots
                    ++ replicate (num_runs - length snapshots) (zero_run F))))
  unfolding measure allocate_runs
  measure_stores_runs num_runs snapshots some_runs few = elim (Bool-cases (ltb 1 num_runs)) [
    | inl many ↦ inr (
      ground arith,
      rw many (ap (λ o. o >>= λ runs. runs) (run_loop_lem [] num_runs snapshots few)),
    )
    | inr single ↦ inl (ground arith, rw single (run_loop-none snapshots 0))
  ]
