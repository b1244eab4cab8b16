-- ===== src/Batch/Gevent/Batches.antt =====
-- A batch on the threads of gevent.
use newtua_py.Base.{
  ℕ, zero, suc, ◌+◌, ◌<◌, ◌≡◌, refl, arith, Bool, true, Bool-cases, inl, inr, Option, none, some,
  List, [], ◌∷◌, length, get_elem?, get_elem?-lt, sym, ap, ◌∙◌,
}
use newtua_py.Base.Int.{ℤ}
use mathlib.Core.Option.{some-injective}
use newtua_py.Errors.{Exc, Result, ok, err, class_of, is_exception}
use newtua_py.Exec.{Exec}
use newtua_py.Batch.Pool.{Task, Pools, thread, make_executor, workers, submitted}
use newtua_py.Batch.{Callbacks, tasks_from, run_many}
use newtua_py.Batch.Order.{paired, Quiet}
use newtua_py.Batch.Results.{run_many_lem}
use newtua_py.Batch.Gevent.{gevent_executor}
use newtua_py.Batch.Gevent.Futures.{Runs, RanTask, gevent_lem}

module _ {W A : Type 0} where
  submitted_first :
      (cancel : Option (ℕ → Bool)) (m k : ℕ) (tasks : List (Task W A)) (task : Task W A)
      → get_elem? (submitted cancel m tasks) k ≡ some task
      → get_elem? tasks k ≡ some task
  unfolding submitted
  submitted_first cancel m k [] task h = cc
  submitted_first none m zero (t ∷ tasks) task h = h
  submitted_first none m (suc k) (t ∷ tasks) task h = submitted_first none (m + 1) k tasks task h
  submitted_first (some is_set) m zero (t ∷ tasks) task h = elim (Bool-cases (is_set m)) [
    | inl cancelled ↦ let nothing = rw cancelled at h in cc
    | inr going_on ↦ rw going_on at h
  ]
  submitted_first (some is_set) m (suc k) (t ∷ tasks) task h = elim (Bool-cases (is_set m)) [
    | inl cancelled ↦ let nothing = rw cancelled at h in cc
    | inr going_on ↦ submitted_first (some is_set) (m + 1) k tasks task (rw going_on at h)
  ]

  tasks_numbered :
      {J : Type 0} (run : J → Exec W A) (j : ℕ) (jobs : List J) (k i : ℕ) (task : Exec W A)
      → get_elem? (tasks_from run j jobs) k ≡ some (i, task)
      → i ≡ j + k
  tasks_numbered run j [] k i task h = cc
  tasks_numbered run j (job ∷ jobs) zero i task h = ground arith
  tasks_numbered run j (job ∷ jobs) (suc k) i task h =
      omega (arith, tasks_numbered run (j + 1) jobs k i task h)

  -- A task runs the job at its place.
  task_of :
      {J : Type 0} (run : J → Exec W A) (j : ℕ) (jobs : List J) (k i : ℕ) (task : Exec W A)
      → get_elem? (tasks_from run j jobs) k ≡ some (i, task)
      → (job : J) × (get_elem? jobs k ≡ some job) × (task ≡ run job)
  task_of run j [] k i task h = cc
  task_of run j (job ∷ jobs) zero i task h = (job, refl, cc)
  task_of run j (job ∷ jobs) (suc k) i task h = task_of run (j + 1) jobs k i task h

  -- An outcome of the job at a place: what it came to in some state of the world.
  abbrev pub RanJob : {J : Type 0} → (J → Exec W A) → List J → ℕ → Result A → Type 0
  RanJob {J} run jobs k r =
      (job : J) × (w : W) × (get_elem? jobs k ≡ some job) × ((run job w).0 ≡ r)

  ran_job :
      {J : Type 0} (run : J → Exec W A) (jobs : List J) (cancel : Option (ℕ → Bool)) (k : ℕ)
      (r : Result A)
      → RanTask (submitted cancel 0 (tasks_from run 0 jobs)) k r
      → RanJob run jobs k r
  ran_job run jobs cancel k r (i, task, w, there, came) =
      let (job, own, same) =
        task_of run 0 jobs k i task
          (submitted_first cancel 0 k (tasks_from run 0 jobs) (i, task) there) in
      (job, w, own, ap (λ (m : Exec W A). (m w).0) (sym same) ∙ came)

over_gevent_thread :
    {W A : Type 0} (X : Pools W A) (n : ℤ) (schedule : ℕ → List ℕ)
    → X.gevent ≡ some (ok true)
    → X.gevent_threadpool n ≡ ok schedule
    → make_executor X thread n ≡ ok (gevent_executor schedule)
unfolding make_executor
over_gevent_thread X n schedule patched pool = rw (patched, pool) refl

-- Where gevent has patched the threads, let its pool run every closure that was spawned, at whatever
-- time; let no job end in an exception that is no `Exception`, and the callbacks raise nothing. Then
-- a batch returns one result for each submitted job, in the order of the jobs: what that job itself
-- came to when it ran. Nothing is assumed of futures here: they are those of `_GeventExecutor`.
pub gevent_batch_lem :
    {W J A : Type 0} (X : Pools W A) (max_workers : Option ℤ) (cancel : Option (ℕ → Bool))
    (callbacks : Callbacks W J A) (run : J → Exec W A) (jobs : List J) (w : W)
    (schedule : ℕ → List ℕ)
    → X.gevent ≡ some (ok true)
    → X.gevent_threadpool (workers X max_workers) ≡ ok schedule
    → ((n k : ℕ) → k < n → Runs k (schedule n))
    → ((job : J) (w' : W) (exc : Exc)
        → (run job w').0 ≡ err exc
        → is_exception (class_of exc) ≡ true)
    → Quiet callbacks
    → (outs : List (Result A)) × ((run_many X thread max_workers cancel callbacks run jobs w).0
        ≡ ok (paired jobs outs))
      × (length outs ≡ length (submitted cancel 0 (tasks_from run 0 jobs)))
      × ((k : ℕ)
          → k < length outs
          → (r : Result A) × (get_elem? outs k ≡ some r) × RanJob run jobs k r)
gevent_batch_lem X max_workers cancel callbacks run jobs w schedule patched pool runs ordinary
      quiet =
    let tasks = submitted cancel 0 (tasks_from run 0 jobs) in
    let (outs, counted, completes, by_tasks) =
      gevent_lem schedule tasks w
        (λ k i task h. omega (
          arith,
          tasks_numbered run 0 jobs k i task
              (submitted_first cancel 0 k (tasks_from run 0 jobs) (i, task) h),
        ))
        runs in
    (
      outs,
      run_many_lem X thread max_workers cancel callbacks run jobs w (gevent_executor schedule) outs
          (over_gevent_thread X (workers X max_workers) schedule patched pool) counted completes
          (λ i exc at.
            let (r, there, by_task) =
              by_tasks i (omega (arith, counted, get_elem?-lt outs i (err exc) at)) in
            let (job, w', at_job, came) = ran_job run jobs cancel i r by_task in
            ordinary job w' exc (came ∙ some-injective r (err exc) (sym there ∙ at)))
          quiet,
      counted,
      λ k inside.
          let (r, there, by_task) = by_tasks k (omega (arith, counted)) in
          (r, there, ran_job run jobs cancel k r by_task),
    )
