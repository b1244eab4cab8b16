-- ===== src/Batch/Pool.antt =====
-- Running tasks on an executor: `_make_executor` and `_run_backend` of python/newtua/_batch.py.
use newtua_py.Base.{
  ℕ, zero, suc, ◌+◌, String, ◌<>◌, text_eq, Bool, false, Option, none, some, List, [], ◌∷◌,
  if◌then◌else◌,
}
use newtua_py.Base.Int.{ℤ, pos}
use newtua_py.Errors.{Exc, Result, ok, err, new, class_of, is_exception, value_error, as_typed}
use newtua_py.Exec.{Exec}
use newtua_py.Batch.Gevent.{gevent_executor}

-- A call behind one that returned.
abbrev and_then : {A B : Type 0} → Result A → (A → Result B) → Result B
and_then (ok a) f = f a
and_then (err exc) f = err exc

-- A task with its number.
abbrev pub Task : Type 0 → Type 0 → Type 0
Task W A = ℕ × Exec W A

-- A task's number with its value or its error.
abbrev pub Outcome : Type 0 → Type 0
Outcome A = ℕ × Option A × Option Exc

-- An executor: it runs the tasks that were submitted to it, in whatever way, and its futures come
-- back in the order in which `as_completed` yields them.
abbrev pub Pool : Type 0 → Type 0 → Type 0
Pool W A = List (Task W A) → W → List (ℕ × Result A) × W

-- The executors: `ThreadPoolExecutor` and `ProcessPoolExecutor`, and gevent's `ThreadPool` by the
-- order in which it runs so many closures; each may refuse its number of workers. `gevent` is what `gevent.monkey.is_module_patched("threading")` gives, if
-- gevent is imported.
pub record Pools (W A : Type 0) : Type 0 where
  pub gevent : Option (Result Bool)
  pub cpu_count : Option ℕ
  pub gevent_threadpool : ℤ → Result (ℕ → List ℕ)
  pub thread_pool : ℤ → Result (Pool W A)
  pub process_pool : ℤ → Result (Pool W A)

-- `_gevent_patched_threading`
abbrev pub gevent_patched_threading : Option (Result Bool) → Result Bool
gevent_patched_threading none = ok false
gevent_patched_threading (some (ok patched)) = ok patched
gevent_patched_threading (some (err exc)) =
    if is_exception (class_of exc) then ok false else err exc

-- `Backend.THREAD` and `Backend.PROCESS` equal these texts.
abbrev pub thread : String
thread = "thread"

abbrev pub process : String
process = "process"

-- The loop that submits; `cancel` is what `is_set()` answers at each of its calls.
unfoldable pub submitted :
    {W A : Type 0} → Option (ℕ → Bool) → ℕ → List (Task W A) → List (Task W A)
submitted cancel k [] = []
submitted none k (t ∷ tasks) = t ∷ submitted none (k + 1) tasks
submitted (some is_set) k (t ∷ tasks) =
    let rest = submitted (some is_set) (k + 1) tasks in if is_set k then [] else t ∷ rest

outcome : {A : Type 0} → ℕ → Result A → Result (Outcome A)
outcome i (ok value) = ok (i, some value, none)
outcome i (err exc) =
    if is_exception (class_of exc) then ok (i, none, some (as_typed exc)) else err exc

-- The loop over `as_completed`.
unfoldable pub collected : {A : Type 0} → List (ℕ × Result A) → Result (List (Outcome A))
unfolding outcome
collected [] = ok []
collected ((i, r) ∷ futures) =
    and_then (outcome i r) (λ o. and_then (collected futures) (λ out. ok (o ∷ out)))

abbrev or_one : Option ℕ → ℤ
or_one none = pos 1
or_one (some zero) = pos 1
or_one (some (suc n)) = pos (suc n)

module _ {W A : Type 0} (X : Pools W A) where
  -- `_GeventExecutor(max_workers)`
  over_gevent : Result (ℕ → List ℕ) → Result (Pool W A)
  over_gevent (ok schedule) = ok (gevent_executor schedule)
  over_gevent (err exc) = err exc

  thread_executor : Result Bool → ℤ → Result (Pool W A)
  thread_executor (err exc) n = err exc
  thread_executor (ok patched) n =
      if patched then over_gevent (X.gevent_threadpool n) else X.thread_pool n

  -- `_make_executor`
  unfoldable pub make_executor : String → ℤ → Result (Pool W A)
  unfolding thread_executor over_gevent
  make_executor backend n =
      if text_eq backend thread
      then thread_executor (gevent_patched_threading X.gevent) n
      else if text_eq backend process
      then X.process_pool n
      else err (new value_error ("unknown backend '" <> backend <> "'; use 'thread' or 'process'"))

  -- `max_workers or os.cpu_count() or 1`
  abbrev pub workers : Option ℤ → ℤ
  workers none = or_one X.cpu_count
  workers (some (pos zero)) = or_one X.cpu_count
  workers (some n) = n

  run_pool : Option (ℕ → Bool) → List (Task W A) → Result (Pool W A) → Exec W (List (Outcome A))
  run_pool cancel tasks (err exc) w = (err exc, w)
  run_pool cancel tasks (ok pool) w =
      let (futures, w') = pool (submitted cancel 0 tasks) w in (collected futures, w')

  -- `_run_backend`
  unfoldable pub run_backend :
      String → Option ℤ → List (Task W A) → Option (ℕ → Bool) → Exec W (List (Outcome A))
  unfolding run_pool
  run_backend backend max_workers tasks cancel =
      run_pool cancel tasks (make_executor backend (workers max_workers))
