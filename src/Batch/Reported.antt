-- ===== src/Batch/Reported.antt =====
-- The callbacks of a batch: who is told of what, and in which order.
use newtua_py.Base.{
  ℕ, suc, ◌≤◌, ◌≡◌, sym, ap, ◌∙◌, arith, ◌⊎◌, inl, inr, String, Bool, Option, none, some, List, [],
  ◌∷◌, ◌++◌, length, map, get_elem?, get_elem?-lt, set, replicate,
}
use newtua_py.Base.Int.{ℤ}
use mathlib.Core.List.{append-nil, append_assoc}
use newtua_py.Errors.{Exc, Result, ok, err, as_typed}
use newtua_py.Exec.{Exec, pure, continue, ◌>>=◌}
use newtua_py.Batch.Pool.{Outcome, Pool, Pools, make_executor, workers, submitted, run_backend}
use newtua_py.Batch.{
  BatchResult, tasks_from, Callbacks, deliver, deliver_to, kept, notify, run_many,
}
use newtua_py.Batch.Order.{Agree, Mentions, Completes, Ordinary, outcome_of, slot_at, result_of}
use newtua_py.Batch.Delivery.{collected_lem}
use newtua_py.Batch.Results.{run_backend_lem, length-submitted, length-tasks_from}

-- What a callback is told.
abbrev pub Notice : Type 0 → Type 0 → Type 0
Notice J A = J × (A ⊎ Exc)

abbrev pub report_of : {J A : Type 0} → J → Result A → Notice J A
report_of job (ok value) = (job, inl value)
report_of job (err exc) = (job, inr (as_typed exc))

-- Callbacks that write down what they are told, beside whatever else there is.
abbrev pub recorders : {W J A : Type 0} → Callbacks (W × List (Notice J A)) J A
recorders = (
  some (λ job value (w, log). (ok tt, (w, log ++ (job, inl value) ∷ []))),
  some (λ job exc (w, log). (ok tt, (w, log ++ (job, inr exc) ∷ []))),
)

abbrev report_at : {J A : Type 0} → Option J → Result A → List (Notice J A) → List (Notice J A)
report_at none r rest = rest
report_at (some job) r rest = report_of job r ∷ rest

-- What there is to tell of the futures, in their order.
unfoldable pub reports : {J A : Type 0} → List J → List (ℕ × Result A) → List (Notice J A)
reports jobs [] = []
reports jobs ((i, r) ∷ futures) = report_at (get_elem? jobs i) r (reports jobs futures)

module _ {J A : Type 0} (jobs : List J) where
  reports-some :
      (i : ℕ) (r : Result A) (futures : List (ℕ × Result A)) (job : J)
      → get_elem? jobs i ≡ some job
      → reports jobs ((i, r) ∷ futures) ≡ report_of job r ∷ reports jobs futures
  unfolding reports
  reports-some i r futures job p = ap (λ o. report_at o r (reports jobs futures)) p

  -- The loop writes one line for each future, in their order.
  deliver-reports :
      {W : Type 0} (outs : List (Result A)) (futures : List (ℕ × Result A))
      (results : List (Option (BatchResult J A))) (w : W) (log : List (Notice J A))
      → length outs ≤ length jobs
      → Agree outs futures
      → (final : List (Option (BatchResult J A))) × (deliver recorders jobs
            (map outcome_of futures)
            results
            (w, log)
          ≡ (ok final, (w, log ++ reports jobs futures)))
  unfolding deliver deliver_to notify reports ◌>>=◌
  deliver-reports outs [] results w log fits agree =
      (results, ap (λ l. (ok results, (w, l))) (sym (append-nil log)))
  deliver-reports outs ((i, ok value) ∷ futures) results w log fits (p, agree) =
      let (job, at_job, _) = slot_at jobs outs i (ok value) fits p in
      let result = some (result_of job (ok value)) in
      let (final, rest) =
        deliver-reports outs futures (set results i result) w (log ++ (job, inl value) ∷ []) fits
          agree in
      (
        final,
        ap
              (λ o.
                deliver_to recorders o (i, some value, none)
                  (deliver recorders jobs (map outcome_of futures)) results (w, log))
              at_job
            ∙ rest
            ∙ ap (λ l. (ok final, (w, l)))
                (append_assoc log ((job, inl value) ∷ []) (reports jobs futures)
                  ∙ ap (λ l. log ++ l) (sym (reports-some i (ok value) futures job at_job))),
      )
  deliver-reports outs ((i, err exc) ∷ futures) results w log fits (p, agree) =
      let (job, at_job, _) = slot_at jobs outs i (err exc) fits p in
      let result = some (result_of job (err exc)) in
      let told = as_typed exc in
      let (final, rest) =
        deliver-reports outs futures (set results i result) w (log ++ (job, inr told) ∷ []) fits
          agree in
      (
        final,
        ap
              (λ o.
                deliver_to recorders o (i, none, some told)
                  (deliver recorders jobs (map outcome_of futures)) results (w, log))
              at_job
            ∙ rest
            ∙ ap (λ l. (ok final, (w, l)))
                (append_assoc log ((job, inr told) ∷ []) (reports jobs futures)
                  ∙ ap (λ l. log ++ l) (sym (reports-some i (err exc) futures job at_job))),
      )

  -- Who is mentioned among the futures is told of.
  reported :
      (outs : List (Result A)) (futures : List (ℕ × Result A))
      → length outs ≤ length jobs
      → Agree outs futures
      → (i : ℕ) (r : Result A) (job : J) → Mentions i futures
      → get_elem? outs i ≡ some r
      → get_elem? jobs i ≡ some job
      → (k : ℕ) × (get_elem? (reports jobs futures) k ≡ some (report_of job r))
  reported outs [] fits agree i r job none_left is_r is_job = elim none_left [ ]
  reported outs ((j, r') ∷ futures) fits (p, agree) i r job (inl same) is_r is_job =
      let is_job' : get_elem? jobs j ≡ some job = cc in
      let same_r : r' ≡ r = cc in
      (
        0,
        ap (λ x. get_elem? (reports jobs ((j, x) ∷ futures)) 0) same_r
            ∙ ap (λ l. get_elem? l 0) (reports-some j r futures job is_job'),
      )
  reported outs ((j, r') ∷ futures) fits (p, agree) i r job (inr later) is_r is_job =
      let (job', at_job, _) = slot_at jobs outs j r' fits p in
      let (k, found) = reported outs futures fits agree i r job later is_r is_job in
      (suc k, ap (λ l. get_elem? l (suc k)) (reports-some j r' futures job' at_job) ∙ found)

-- The end of `run_many`, where the loop returns.
delivered :
    {S J A : Type 0} (callbacks : Callbacks S J A) (jobs : List J)
    (p : Result (List (Outcome A)) × S) (raw : List (Outcome A)) (s t : S)
    (final : List (Option (BatchResult J A)))
    → p ≡ (ok raw, s)
    → deliver callbacks jobs raw (replicate (length jobs) none) s ≡ (ok final, t)
    → (continue p.0
        (λ raw. deliver callbacks jobs raw (replicate (length jobs) none) >>= λ results.
          pure (kept results))
        p.1).1
      ≡ t
unfolding ◌>>=◌
delivered {S} {J} {A} callbacks jobs p raw s t final e h =
    ap
      (λ (q : Result (List (Outcome A)) × S).
        (continue q.0
          (λ raw. deliver callbacks jobs raw (replicate (length jobs) none) >>= λ results.
            pure (kept results))
          q.1).1)
      e
    ∙ ap
        (λ (q : Result (List (Option (BatchResult J A))) × S).
          (continue q.0 (λ results. pure (kept results)) q.1).1)
        h

-- Let the futures of the executor come back in any order with the outcomes `outs` of the submitted
-- tasks, each a value or an `Exception`, and let the callbacks write down what they are told. Then a
-- batch makes one call for each future, in the order in which they completed, after all of them are
-- there, and changes nothing else; and each submitted job is told of, with its value or its typed
-- exception.
pub reported_lem :
    {W J A : Type 0} (X : Pools (W × List (Notice J A)) A) (backend : String)
    (max_workers : Option ℤ) (cancel : Option (ℕ → Bool)) (run : J → Exec (W × List (Notice J A)) A)
    (jobs : List J) (s : W × List (Notice J A)) (pool : Pool (W × List (Notice J A)) A)
    (outs : List (Result A))
    → make_executor X backend (workers X max_workers) ≡ ok pool
    → length outs ≡ length (submitted cancel 0 (tasks_from run 0 jobs))
    → Completes outs (pool (submitted cancel 0 (tasks_from run 0 jobs)) s).0
    → Ordinary outs
    → let (futures, t) = pool (submitted cancel 0 (tasks_from run 0 jobs)) s in
      ((run_many X backend max_workers cancel recorders run jobs s).1
        ≡ (t.0, t.1 ++ reports jobs futures))
      × ((i : ℕ) (r : Result A) (job : J)
          → get_elem? outs i ≡ some r
          → get_elem? jobs i ≡ some job
          → (k : ℕ) × (get_elem? (reports jobs futures) k ≡ some (report_of job r)))
unfolding run_many ◌>>=◌
reported_lem {W} {J} {A} X backend max_workers cancel run jobs s pool outs chosen counted
      (agree, whole) ordinary =
    let tasks = submitted cancel 0 (tasks_from run 0 jobs) in
    let futures = (pool tasks s).0 in
    let t = (pool tasks s).1 in
    let fits : length outs ≤ length jobs =
      omega
        (arith, length-submitted cancel 0 (tasks_from run 0 jobs), length-tasks_from run 0 jobs) in
    let (final, loop) =
      deliver-reports jobs outs futures (replicate (length jobs) none) t.0 t.1 fits agree in
    (
      delivered recorders jobs (run_backend X backend max_workers (tasks_from run 0 jobs) cancel s)
          (map outcome_of futures) t (t.0, t.1 ++ reports jobs futures) final
          (run_backend_lem X backend max_workers (tasks_from run 0 jobs) cancel s pool
            (map outcome_of futures) chosen (collected_lem outs futures ordinary agree))
          loop,
      λ i r job is_r is_job.
          reported jobs outs futures fits agree i r job (whole i (get_elem?-lt outs i r is_r)) is_r
            is_job,
    )
