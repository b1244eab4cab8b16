-- ===== src/Batch/Rejected.antt =====
-- Batches that are refused before anything runs.
use newtua_py.Base.{
  ℕ, zero, suc, ◌≡◌, ◌≢◌, arith, String, ◌<>◌, text_eq, text_eq_iff, Bool, true, false, Option,
  some, List, [], ◌∷◌, map, get_elem?,
}
use newtua_py.Base.Int.{ℤ}
use newtua_py.Errors.{err, new, value_error}
use newtua_py.Exec.{◌>>=◌}
use newtua_py.Events.{ProgressEvent, Callback}
use newtua_py.Listing.{Entry}
use newtua_py.Host.{Disk}
use newtua_py.Engine.{PathCalls, Report}
use newtua_py.Batch.Jobs.{ExtractJob, GivenJob, normalise_job}
use newtua_py.Batch.Pool.{Pools, process, thread, make_executor, workers, run_backend}
use newtua_py.Batch.{Callbacks, any_progress, run_many, extract_many, list_many}

any_progress_at :
    {U : Type 0} (jobs : List (GivenJob U)) (i : ℕ) (g : GivenJob U) (f : Callback U ProgressEvent)
    → get_elem? jobs i ≡ some g
    → (normalise_job g).progress ≡ some f
    → any_progress (map normalise_job jobs) ≡ true
unfolding any_progress
any_progress_at [] i g f p q = cc
any_progress_at (h ∷ jobs) zero g f p q = ground arith
any_progress_at (h ∷ jobs) (suc i) g f p q =
    let rest = any_progress_at jobs i g f p q in ground arith

-- With the process backend, a job with a progress callback anywhere in the batch makes
-- `extract_many` raise `ValueError` before it runs or calls anything.
pub extract_many_progress :
    (C : PathCalls) {U : Type 0} (X : Pools (Disk × U) Report) (jobs : List (GivenJob U))
    (max_workers : Option ℤ) (callbacks : Callbacks (Disk × U) (ExtractJob U) Report)
    (cancel : Option (ℕ → Bool)) (w : Disk × U) (i : ℕ) (g : GivenJob U)
    (f : Callback U ProgressEvent)
    → get_elem? jobs i ≡ some g
    → (normalise_job g).progress ≡ some f
    → (message : String) × (extract_many C X jobs process max_workers callbacks cancel w
        ≡ (err (new value_error message), w))
unfolding extract_many ◌>>=◌
extract_many_progress C X jobs max_workers callbacks cancel w i g f p q = (
  "progress callbacks are not supported with backend='process'; use backend='thread'",
  rw (any_progress_at jobs i g f p q),
)

run_backend_unknown :
    {W A : Type 0} (X : Pools W A) (backend : String) (n : ℤ)
    → backend ≢ thread
    → backend ≢ process
    → make_executor X backend n
      ≡ err (new value_error ("unknown backend '" <> backend <> "'; use 'thread' or 'process'"))
unfolding make_executor
run_backend_unknown X backend n a b =
    ground (arith, text_eq_iff backend thread, text_eq_iff backend process)

-- A backend that is neither "thread" nor "process" makes both batch calls raise `ValueError` before
-- they run or call anything, whatever the jobs are.
unknown_backend_lem :
    (C : PathCalls) {U : Type 0} (X : Pools (Disk × U) Report) (Y : Pools (Disk × U) (List Entry))
    (jobs : List (GivenJob U)) (archives : List String) (password encoding : Option String)
    (backend : String) (max_workers : Option ℤ)
    (callbacks : Callbacks (Disk × U) (ExtractJob U) Report)
    (list_callbacks : Callbacks (Disk × U) String (List Entry)) (cancel : Option (ℕ → Bool))
    (w : Disk × U)
    → backend ≢ thread
    → backend ≢ process
    → (message : String) × (extract_many C X jobs backend max_workers callbacks cancel w
        ≡ (err (new value_error message), w))
      × (list_many C Y archives password encoding backend max_workers list_callbacks cancel w
          ≡ (err (new value_error message), w))
unfolding extract_many list_many run_many run_backend ◌>>=◌
unknown_backend_lem C X Y jobs archives password encoding backend max_workers callbacks
      list_callbacks cancel w a b =
    let not_process : text_eq backend process ≡ false =
      ground (arith, text_eq_iff backend process) in
    (
      "unknown backend '" <> backend <> "'; use 'thread' or 'process'",
      rw (not_process, run_backend_unknown X backend (workers X max_workers) a b),
      rw (run_backend_unknown Y backend (workers Y max_workers) a b),
    )
