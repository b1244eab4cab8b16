-- ===== src/Batch/Gevent.antt =====
-- `_GeventExecutor` of python/newtua/_batch.py: futures over a thread pool of gevent.
pub mod Futures
pub mod Batches
use newtua_py.Base.{ℕ, Option, none, some, List, [], ◌∷◌, length, get_elem?, set, replicate}
use newtua_py.Errors.{Result}
use newtua_py.Exec.{Exec}

-- A `cf.Future`: not run yet, cancelled, or done with the value or the exception of its task.
pub data Future (A : Type 0) : Type 0 where
  waiting : Future A
  called_off : Future A
  done : Result A → Future A

module _ {W A : Type 0} where
  -- The local function `run` of one future, with what comes behind it: a future that is waiting is
  -- set to running, and gets what the task returns or raises; any other is left alone. What is
  -- yielded is the number of the future and its outcome.
  run_at :
      Option (ℕ × Exec W A)
      → Option (Future A)
      → ℕ
      → (List (Future A) → W → List (ℕ × Result A) × W)
      → List (Future A)
      → W
      → List (ℕ × Result A) × W
  run_at none future k rest futures w = rest futures w
  run_at (some task) none k rest futures w = rest futures w
  run_at (some task) (some called_off) k rest futures w = rest futures w
  run_at (some task) (some (done r)) k rest futures w = rest futures w
  run_at (some (i, task)) (some waiting) k rest futures w =
      let (r, w') = task w in
      let (yielded, w'') = rest (set futures k (done r)) w' in ((i, r) ∷ yielded, w'')

  run_closures : List ℕ → List (ℕ × Exec W A) → List (Future A) → W → List (ℕ × Result A) × W
  run_closures [] tasks futures w = ([], w)
  run_closures (k ∷ ks) tasks futures w =
      run_at (get_elem? tasks k) (get_elem? futures k) k (run_closures ks tasks) futures w

  -- `submit` of each task, and the futures in the order in which they are done. The pool is the
  -- order in which it runs the closures that were spawned, by their places.
  unfoldable pub gevent_executor : (ℕ → List ℕ) → List (ℕ × Exec W A) → W → List (ℕ × Result A) × W
  unfolding run_closures run_at
  gevent_executor schedule tasks w =
      run_closures (schedule (length tasks)) tasks (replicate (length tasks) waiting) w
