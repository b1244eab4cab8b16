-- ===== src/Batch.antt =====
-- Extracting or listing many archives in parallel: `extract_many` and `list_many` of
-- python/newtua/_batch.py.
pub mod Jobs
pub mod Pool
pub mod Gevent
pub mod Order
pub mod Delivery
pub mod Results
pub mod Rejected
pub mod Reported
use newtua_py.Base.{
  ℕ, zero, suc, ◌+◌, ◌==◌, String, ◌<>◌, text_eq, Bool, true, false, ◌&&◌, Option, none, some, List,
  [], ◌∷◌, length, map, get_elem?, set, replicate, if◌then◌else◌,
}
use newtua_py.Base.Int.{ℤ, pos, negsuc}
use newtua_py.Errors.{
  Exc, Result, ok, err, new, class_of, is_exception, value_error, index_error, as_typed,
}
use newtua_py.Exec.{Exec, pure, raise, lift, gets, continue, ◌>>=◌, ◌>>◌}
use newtua_py.Events.{ProgressEvent, RawEvent, Callback, wrap_progress}
use newtua_py.Listing.{RawEntry, Entry, Ref, at, named, under, entry, entries_from_raw, resolve_all}
use newtua_py.Host.{Disk}
use newtua_py.Engine.{PathCalls, Report}
use newtua_py.Batch.Jobs.{ExtractJob, GivenJob, normalise_job, extract_one, list_one}
use newtua_py.Batch.Pool.{Task, Outcome, Pools, process, run_backend}

-- `BatchResult` of a job and a report, and `ListingResult` of an archive and its entries.
pub record BatchResult (J A : Type 0) : Type 0 where
  pub job : J
  pub value : Option A
  pub error : Option Exc

-- The two callbacks, if they are given.
abbrev pub Callbacks : Type 0 → Type 0 → Type 0 → Type 0
Callbacks W J A = Option (J → A → Exec W (Unit {0})) × Option (J → Exc → Exec W (Unit {0}))

-- `[r for r in results if r is not None]`
pub kept : {J A : Type 0} → List (Option (BatchResult J A)) → List (BatchResult J A)
kept [] = []
kept (none ∷ results) = kept results
kept (some r ∷ results) = r ∷ kept results

module _ {W J A : Type 0} where
  -- `enumerate`, with the thunk of each job.
  abbrev pub tasks_from : (J → Exec W A) → ℕ → List J → List (Task W A)
  tasks_from run i [] = []
  tasks_from run i (job ∷ jobs) = (i, run job) ∷ tasks_from run (i + 1) jobs

  -- Behind the store of one result. An outcome with neither a value nor an error does not occur.
  notify : Callbacks W J A → J → Option A → Option Exc → Exec W (Unit {0})
  notify (some on_result, _) job (some value) none = on_result job value
  notify (none, _) job value none = pure tt
  notify (some on_result, _) job none none = pure tt
  notify (_, some on_error) job value (some exc) = on_error job exc
  notify (_, none) job value (some exc) = pure tt

  deliver_to :
      Callbacks W J A
      → Option J
      → Outcome A
      → (List (Option (BatchResult J A)) → Exec W (List (Option (BatchResult J A))))
      → List (Option (BatchResult J A))
      → Exec W (List (Option (BatchResult J A)))
  deliver_to callbacks none o rest results = raise (new index_error "list index out of range")
  deliver_to callbacks (some job) (i, value, error) rest results = do
    notify callbacks job value error
    rest (set results i (some (record { job = job; value = value; error = error })))

  -- The loop that fills `results` and calls the callbacks.
  pub deliver :
      Callbacks W J A
      → List J
      → List (Outcome A)
      → List (Option (BatchResult J A))
      → Exec W (List (Option (BatchResult J A)))
  deliver callbacks jobs [] results = pure results
  deliver callbacks jobs (o ∷ raw) results =
      deliver_to callbacks (get_elem? jobs o.0) o (deliver callbacks jobs raw) results

  -- The part that `extract_many` and `list_many` share, from the call of `_run_backend` on.
  unfoldable pub run_many :
      Pools W A
      → String
      → Option ℤ
      → Option (ℕ → Bool)
      → Callbacks W J A
      → (J → Exec W A)
      → List J
      → Exec W (List (BatchResult J A))
  unfolding deliver deliver_to notify kept
  run_many X backend max_workers cancel callbacks run jobs = do
    raw ← run_backend X backend max_workers (tasks_from run 0 jobs) cancel
    results ← deliver callbacks jobs raw (replicate (length jobs) none)
    pure (kept results)

any_progress : {U : Type 0} → List (ExtractJob U) → Bool
any_progress [] = false
any_progress (job ∷ jobs) = elim job.progress [ some _ ↦ true | none ↦ any_progress jobs ]

module _ (C : PathCalls) {U : Type 0} where
  -- `extract_many`
  unfoldable pub extract_many :
      Pools (Disk × U) Report
      → List (GivenJob U)
      → String
      → Option ℤ
      → Callbacks (Disk × U) (ExtractJob U) Report
      → Option (ℕ → Bool)
      → Exec (Disk × U) (List (BatchResult (ExtractJob U) Report))
  unfolding any_progress
  extract_many X jobs backend max_workers callbacks cancel =
      if text_eq backend process && any_progress (map normalise_job jobs)
      then raise (
          new value_error
            "progress callbacks are not supported with backend='process'; use backend='thread'")
      else run_many X backend max_workers cancel callbacks (extract_one C) (map normalise_job jobs)

  -- `list_many`
  unfoldable pub list_many :
      Pools (Disk × U) (List Entry)
      → List String
      → Option String
      → Option String
      → String
      → Option ℤ
      → Callbacks (Disk × U) String (List Entry)
      → Option (ℕ → Bool)
      → Exec (Disk × U) (List (BatchResult String (List Entry)))
  list_many X archives password encoding backend max_workers callbacks cancel =
      run_many X backend max_workers cancel callbacks (list_one C password encoding) archives
