-- ===== src/Batch/Results.antt =====
-- The results of a whole batch.
use newtua_py.Base.{
  ℕ, zero, suc, ◌+◌, ◌<◌, ◌≤◌, ◌≡◌, refl, sym, ap, ◌∙◌, arith, inl, inr, String, Bool, Option, none,
  some, List, [], ◌∷◌, length, map, get_elem?, replicate, get_elem?-none, get_elem?-lt,
}
use newtua_py.Base.Int.{ℤ}
use native.Mathlib.Decide.{dec_lt}
use newtua_py.Errors.{Result, ok}
use newtua_py.Exec.{Exec, pure, continue, ◌>>=◌}
use newtua_py.Batch.Pool.{
  Task, Outcome, Pool, Pools, make_executor, workers, submitted, collected, run_backend,
}
use newtua_py.Batch.{BatchResult, tasks_from, Callbacks, deliver, kept, run_many}
use newtua_py.Batch.Order.{
  paired, slots, kept-slots, length-slots, slot_past, same_elements, Completes, Ordinary, Quiet,
  outcome_of,
}
use newtua_py.Batch.Delivery.{collected_lem, Partly, deliver_all}

pub length-tasks_from :
    {W J A : Type 0} (run : J → Exec W A) (i : ℕ) (jobs : List J)
    → length (tasks_from run i jobs) ≡ length jobs
length-tasks_from run i [] = refl
length-tasks_from run i (job ∷ jobs) = ap suc (length-tasks_from run (i + 1) jobs)

pub length-submitted :
    {W A : Type 0} (cancel : Option (ℕ → Bool)) (k : ℕ) (tasks : List (Task W A))
    → length (submitted cancel k tasks) ≤ length tasks
unfolding submitted
length-submitted cancel k [] = ground arith
length-submitted none k (t ∷ tasks) = omega (arith, length-submitted none (k + 1) tasks)
length-submitted (some is_set) k (t ∷ tasks) =
    ground (arith, length-submitted (some is_set) (k + 1) tasks)

length-replicate : {X : Type 0} (n : ℕ) (x : X) → length (replicate n x) ≡ n
length-replicate zero x = refl
length-replicate (suc n) x = ap suc (length-replicate n x)

get_elem?-replicate : {X : Type 0} (n i : ℕ) (x : X) → i < n → get_elem? (replicate n x) i ≡ some x
get_elem?-replicate zero i x h = absurd (omega arith)
get_elem?-replicate (suc n) zero x h = refl
get_elem?-replicate (suc n) (suc i) x h = get_elem?-replicate n i x (omega arith)

module _ {J A : Type 0} (jobs : List J) (outs : List (Result A)) where
  abbrev no_results : List (Option (BatchResult J A))
  no_results = replicate (length jobs) none

  no_results-Partly : Partly jobs outs no_results
  no_results-Partly = record {
    same_length = length-replicate (length jobs) none;
    filled = λ i. elim (dec_lt i (length jobs)) [
      | yes inside ↦ inr (get_elem?-replicate (length jobs) i none inside)
      | no outside ↦ inl (
          get_elem?-none (replicate (length jobs) none) i
            (omega (arith, length-replicate {X = Option (BatchResult J A)} (length jobs) none))
          ∙ sym (get_elem?-none (slots jobs outs) i (omega (arith, length-slots jobs outs))))
    ];
  }

  -- When every outcome is in its place, the rest is empty.
  all_done :
      (final : List (Option (BatchResult J A)))
      → Partly jobs outs final
      → ((i : ℕ) → i < length outs → get_elem? final i ≡ get_elem? (slots jobs outs) i)
      → final ≡ slots jobs outs
  all_done final h done = same_elements final (slots jobs outs) λ i. elim (dec_lt i (length outs)) [
    | yes inside ↦ done i inside
    | no past ↦ elim (h.filled i) [
      | inl same ↦ same
      | inr empty ↦
          let bound = get_elem?-lt final i none empty in
          empty ∙ sym (slot_past jobs outs i (omega arith) (omega (arith, h.same_length)))
    ]
  ]

pub run_backend_lem :
    {W A : Type 0} (X : Pools W A) (backend : String) (max_workers : Option ℤ)
    (tasks : List (Task W A)) (cancel : Option (ℕ → Bool)) (w : W) (pool : Pool W A)
    (raw : List (Outcome A))
    → make_executor X backend (workers X max_workers) ≡ ok pool
    → collected (pool (submitted cancel 0 tasks) w).0 ≡ ok raw
    → run_backend X backend max_workers tasks cancel w
      ≡ (ok raw, (pool (submitted cancel 0 tasks) w).1)
unfolding run_backend
run_backend_lem X backend max_workers tasks cancel w pool raw chosen all = rw (chosen, all)

-- The end of `run_many`, from the outcomes on.
returned_kept :
    {W J A : Type 0} (callbacks : Callbacks W J A) (jobs : List J)
    (p : Result (List (Outcome A)) × W) (raw : List (Outcome A)) (w : W)
    (final : List (Option (BatchResult J A)))
    → p ≡ (ok raw, w)
    → (deliver callbacks jobs raw (replicate (length jobs) none) w).0 ≡ ok final
    → (continue p.0
        (λ raw. deliver callbacks jobs raw (replicate (length jobs) none) >>= λ results.
          pure (kept results))
        p.1).0
      ≡ ok (kept final)
unfolding ◌>>=◌
returned_kept {W} {J} {A} callbacks jobs p raw w final e h =
    ap
      (λ (q : Result (List (Outcome A)) × W).
        (continue q.0
          (λ raw. deliver callbacks jobs raw (replicate (length jobs) none) >>= λ results.
            pure (kept results))
          q.1).0)
      e
    ∙ ap
        (λ r.
          (continue r (λ results. pure (kept results))
            (deliver callbacks jobs raw (replicate (length jobs) none) w).1).0)
        h

-- Whatever the executor does, if its futures come back in any order with the outcomes `outs` of the
-- submitted tasks, no task ends in an exception that is no `Exception`, and the callbacks raise
-- nothing, then the batch returns one result for each submitted job, in the order of the jobs: the
-- job with its value, or with its exception made a typed one. Jobs behind a cancellation are absent.
pub run_many_lem :
    {W J A : Type 0} (X : Pools W A) (backend : String) (max_workers : Option ℤ)
    (cancel : Option (ℕ → Bool)) (callbacks : Callbacks W J A) (run : J → Exec W A) (jobs : List J)
    (w : W) (pool : Pool W A) (outs : List (Result A))
    → make_executor X backend (workers X max_workers) ≡ ok pool
    → length outs ≡ length (submitted cancel 0 (tasks_from run 0 jobs))
    → Completes outs (pool (submitted cancel 0 (tasks_from run 0 jobs)) w).0
    → Ordinary outs
    → Quiet callbacks
    → (run_many X backend max_workers cancel callbacks run jobs w).0 ≡ ok (paired jobs outs)
unfolding run_many kept ◌>>=◌
run_many_lem X backend max_workers cancel callbacks run jobs w pool outs chosen counted
      (agree, whole) ordinary quiet =
    let tasks = submitted cancel 0 (tasks_from run 0 jobs) in
    let futures = (pool tasks w).0 in
    let w' = (pool tasks w).1 in
    let fits : length outs ≤ length jobs =
      omega
        (arith, length-submitted cancel 0 (tasks_from run 0 jobs), length-tasks_from run 0 jobs) in
    let d =
      deliver_all jobs outs callbacks quiet fits futures (no_results jobs outs) w' agree
        (no_results-Partly jobs outs) in
    let same = all_done jobs outs d.final d.partly (λ i h. d.done i (inr (whole i h))) in
    let collects =
      run_backend_lem X backend max_workers (tasks_from run 0 jobs) cancel w pool
        (map outcome_of futures) chosen (collected_lem outs futures ordinary agree) in
    returned_kept callbacks jobs
      (run_backend X backend max_workers (tasks_from run 0 jobs) cancel w) (map outcome_of futures)
      w' d.final collects d.returned
    ∙ ap (λ r. ok (kept r)) same
    ∙ ap ok (kept-slots jobs outs)
