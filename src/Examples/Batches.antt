-- ===== src/Examples/Batches.antt =====
-- Batches whose tasks complete in the reverse order, and batches that are refused.
use newtua_py.Base.{
  ap, ◌∙◌, ℕ, zero, suc, ◌+◌, ◌<◌, ◌≡◌, ◌⊎◌, refl, inl, inr, String, Bool, true, false, Option,
  none, some, List, [], ◌∷◌, ◌++◌, length, ltb, get_elem?, arith,
}
use newtua_py.Errors.{Exc, Result, ok, err, new, value_error, is_exception, class_of}
use newtua_py.Exec.{Exec}
use newtua_py.Events.{ProgressEvent, Callback}
use newtua_py.Engine.{PathCalls}
use newtua_py.Batch.Jobs.{GivenJob, whole, shorthand}
use newtua_py.Batch.Pool.{Pool, Pools, process, thread, make_executor, workers, submitted}
use newtua_py.Batch.{Callbacks, run_many, extract_many, tasks_from}
use newtua_py.Batch.Order.{paired, Completes, Mentions, Ordinary, Quiet}
use newtua_py.Batch.Results.{run_many_lem}
use newtua_py.Batch.Reported.{Notice, recorders, reports, report_of, reported_lem}
use newtua_py.Batch.Gevent.Futures.{Runs}
use newtua_py.Batch.Gevent.Batches.{RanJob, gevent_batch_lem}
use newtua_py.Batch.Rejected.{extract_many_progress}
use newtua_py.Examples.{engine_error, stamps}

-- The last task is run first and comes back first.
abbrev backwards : {W A : Type 0} → Pool W A
backwards [] w = ([], w)
backwards ((i, task) ∷ tasks) w =
    let (futures, w') = backwards tasks w in let (r, w'') = task w' in (futures ++ (i, r) ∷ [], w'')

abbrev pools : {W A : Type 0} → Pools W A
pools = record {
  gevent = none;
  cpu_count = some 4;
  gevent_threadpool = λ n. err (new value_error "");
  thread_pool = λ n. ok backwards;
  process_pool = λ n. ok backwards;
}

abbrev counters : Pools ℕ ℕ
counters = pools

-- A job doubles its number, but for the number 1, and counts the tasks; the fourth is cancelled.
abbrev double : ℕ → Exec ℕ ℕ
double zero n = (ok 0, suc n)
double (suc zero) n = (err engine_error, suc n)
double (suc (suc k)) n = (ok (k + k + 4), suc n)

abbrev numbers : List ℕ
numbers = 5 ∷ 1 ∷ 7 ∷ 9 ∷ []

abbrev outcomes : List (Result ℕ)
outcomes = ok 10 ∷ err engine_error ∷ ok 14 ∷ []

abbrev third_check : Option (ℕ → Bool)
third_check = some (λ k. ltb 2 k)

thread_chosen : make_executor counters thread (workers counters none) ≡ ok backwards
unfolding make_executor
thread_chosen = refl

three_submitted : length outcomes ≡ length (submitted third_check 0 (tasks_from double 0 numbers))
unfolding submitted
three_submitted = refl

mentioned :
    (i : ℕ) → i < 3 → Mentions {A = ℕ} i ((2, ok 14) ∷ (1, err engine_error) ∷ (0, ok 10) ∷ [])
mentioned zero h = inr (inr (inl refl))
mentioned (suc zero) h = inr (inl refl)
mentioned (suc (suc zero)) h = inl refl
mentioned (suc (suc (suc i))) h = absurd (omega arith)

outcomes-Completes :
    Completes outcomes (backwards (submitted third_check 0 (tasks_from double 0 numbers)) 0).0
unfolding submitted
outcomes-Completes = ((refl, (refl, (refl, tt))), mentioned)

outcomes-Ordinary : Ordinary outcomes
outcomes-Ordinary zero exc h = cc
outcomes-Ordinary (suc zero) exc h = ground arith
outcomes-Ordinary (suc (suc zero)) exc h = cc
outcomes-Ordinary (suc (suc (suc i))) exc h = cc

abbrev silent : {W J A : Type 0} → Callbacks W J A
silent = (none, none)

silent-Quiet : Quiet {W = ℕ} {J = ℕ} {A = ℕ} silent
silent-Quiet = (λ f job value w h. cc, λ f job exc w h. cc)

run_many_example :
    (run_many counters thread none third_check silent double numbers 0).0
    ≡ ok (paired numbers outcomes)
run_many_example =
    run_many_lem counters thread none third_check silent double numbers 0 backwards outcomes
      thread_chosen three_submitted outcomes-Completes outcomes-Ordinary silent-Quiet

-- The same jobs, beside a log of what the callbacks are told.
abbrev double_logged : ℕ → Exec (ℕ × List (Notice ℕ ℕ)) ℕ
double_logged k (n, log) = let (r, n') = double k n in (r, (n', log))

abbrev logged_pools : Pools (ℕ × List (Notice ℕ ℕ)) ℕ
logged_pools = pools

logged_chosen : make_executor logged_pools thread (workers logged_pools none) ≡ ok backwards
unfolding make_executor
logged_chosen = refl

logged_submitted :
    length outcomes ≡ length (submitted third_check 0 (tasks_from double_logged 0 numbers))
unfolding submitted
logged_submitted = refl

logged-Completes :
    Completes outcomes
      (backwards (submitted third_check 0 (tasks_from double_logged 0 numbers)) (0, [])).0
unfolding submitted
logged-Completes = ((refl, (refl, (refl, tt))), mentioned)

reported_example :
    let (futures, t) =
      backwards (submitted third_check 0 (tasks_from double_logged 0 numbers)) (0, []) in
    ((run_many logged_pools thread none third_check recorders double_logged numbers (0, [])).1
      ≡ (t.0, t.1 ++ reports numbers futures))
    × ((i : ℕ) (r : Result ℕ) (job : ℕ)
        → get_elem? outcomes i ≡ some r
        → get_elem? numbers i ≡ some job
        → (k : ℕ) × (get_elem? (reports numbers futures) k ≡ some (report_of job r)))
reported_example =
    reported_lem logged_pools thread none third_check double_logged numbers (0, []) backwards
      outcomes logged_chosen logged_submitted logged-Completes outcomes-Ordinary

-- A pool of gevent that runs the last closure first.
abbrev countdown : ℕ → List ℕ
countdown zero = []
countdown (suc n) = n ∷ countdown n

countdown-Runs : (n k : ℕ) → k < n → Runs k (countdown n)
countdown-Runs zero k h = absurd (omega arith)
countdown-Runs (suc n) k h = elim (at_end n k h) [
  | inl same ↦ inl same
  | inr before ↦ inr (countdown-Runs n k before)
]
  where
    at_end : (n k : ℕ) → k < suc n → (k ≡ n) ⊎ (k < n)
    at_end n k h = ground arith

abbrev green : Pools ℕ ℕ
green = record {
  gevent = some (ok true);
  cpu_count = none;
  gevent_threadpool = λ n. ok countdown;
  thread_pool = λ n. err (new value_error "");
  process_pool = λ n. err (new value_error "");
}

double-ordinary :
    (job w : ℕ) (exc : Exc) → (double job w).0 ≡ err exc → is_exception (class_of exc) ≡ true
double-ordinary zero w exc h = cc
double-ordinary (suc zero) w exc h =
    let ordinary : is_exception (class_of engine_error) ≡ true = refl in
    ap (λ e. is_exception (class_of e)) (same_exception h) ∙ ordinary
  where
    same_exception : {exc : Exc} (h : (double 1 0).0 ≡ err exc) → exc ≡ engine_error
    same_exception h = cc
double-ordinary (suc (suc k)) w exc h = cc

gevent_batch_example :
    (outs : List (Result ℕ)) × ((run_many green thread none third_check silent double numbers 0).0
      ≡ ok (paired numbers outs))
    × (length outs ≡ length (submitted third_check 0 (tasks_from double 0 numbers)))
    × ((k : ℕ)
        → k < length outs
        → (r : Result ℕ) × (get_elem? outs k ≡ some r) × RanJob double numbers k r)
gevent_batch_example =
    gevent_batch_lem green none third_check silent double numbers 0 countdown refl refl
      countdown-Runs double-ordinary silent-Quiet

abbrev path_calls : PathCalls
path_calls = record {
  list_path = λ d p password encoding. ok ([], "zip", "utf-8");
  extract_path =
      λ U job callback w. (ok (record { extracted = 1; failed = 0; aborted = false }), w);
  read_path = λ d p i password encoding. ok [];
  open_stream_path = λ d p i password encoding. ok [];
  open_stream_windows_path = λ d p i password encoding. ok [];
  fromtimestamp = stamps;
}

abbrev watch : Callback (Unit {0}) ProgressEvent
watch e u = (ok none, u)

abbrev watched : GivenJob (Unit {0})
watched = whole (record {
  archive = "b.zip";
  dest = "out";
  password = none;
  encoding = none;
  selection = none;
  wrapper = true;
  strict = false;
  preserve = true;
  progress = some watch;
})

abbrev given : List (GivenJob (Unit {0}))
given = shorthand "a.zip" "out" ∷ watched ∷ []

extract_many_progress_example :
    (message : String) × (extract_many path_calls pools given process none silent none ([], tt)
      ≡ (err (new value_error message), ([], tt)))
extract_many_progress_example =
    extract_many_progress path_calls pools given none silent none ([], tt) 1 watched watch refl refl
