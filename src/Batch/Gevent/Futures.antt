-- ===== src/Batch/Gevent/Futures.antt =====
-- Lemmas on the futures of `_GeventExecutor` and on the closures that its pool runs.
use newtua_py.Base.{
  ℕ, zero, suc, ◌<◌, ◌≡◌, ◌≢◌, refl, sym, ap, ◌∙◌, subst, arith, ◌⊎◌, inl, inr, Option, none, some,
  List, [], ◌∷◌, length, get_elem?, get_elem?-some, get_elem?-lt, set, length-set,
  get_elem?-set_self, get_elem?-set_ne, replicate,
}
use newtua_py.Errors.{Result}
use newtua_py.Exec.{Exec}
use newtua_py.Batch.Order.{Mentions, Agree, Completes}
use newtua_py.Batch.Gevent.{
  Future, waiting, called_off, done, run_at, run_closures, gevent_executor,
}

-- A place that is in the order of a pool.
abbrev pub Runs : ℕ → List ℕ → Type 0
Runs j [] = ⊥
Runs j (k ∷ ks) = (j ≡ k) ⊎ Runs j ks

-- Each future that was yielded is done with that outcome.
abbrev AllDone : {A : Type 0} → List (Future A) → List (ℕ × Result A) → Type 0
AllDone futures [] = Unit
AllDone futures ((i, r) ∷ yielded) = (get_elem? futures i ≡ some (done r)) × AllDone futures yielded

same_place : (i j : ℕ) → (i ≡ j) ⊎ (i ≢ j)
same_place i j = ground arith

-- An outcome is what the task at that place came to, when it ran.
abbrev pub RanTask : {W A : Type 0} → List (ℕ × Exec W A) → ℕ → Result A → Type 0
RanTask {W} {A} tasks k r =
    (i : ℕ) × (task : Exec W A) × (w : W) × (get_elem? tasks k ≡ some (i, task)) × ((task w).0 ≡ r)

module _ {W A : Type 0} (tasks : List (ℕ × Exec W A))
    (numbered : (k i : ℕ) (task : Exec W A) → get_elem? tasks k ≡ some (i, task) → i ≡ k) where
  -- What running the closures at some places does to the futures, with what it yields.
  pub record Ran (ks : List ℕ) (futures : List (Future A)) (yielded : List (ℕ × Result A))
      : Type 0 where
    pub final : List (Future A)
    pub same_length : length final ≡ length futures
    pub still_done :
        (k : ℕ) (r : Result A)
        → get_elem? futures k ≡ some (done r)
        → get_elem? final k ≡ some (done r)
    pub agree : AllDone final yielded
    pub finished :
        (k : ℕ)
        → k < length futures
        → Runs k ks
        → (get_elem? futures k ≡ some called_off)
          ⊎ ((r : Result A) × (get_elem? final k ≡ some (done r)))
    pub mentioned :
        (k : ℕ) (r : Result A)
        → get_elem? final k ≡ some (done r)
        → (get_elem? futures k ≡ some (done r)) ⊎ Mentions k yielded
    pub ran_by :
        (k : ℕ) (r : Result A)
        → get_elem? final k ≡ some (done r)
        → (get_elem? futures k ≡ some (done r)) ⊎ RanTask tasks k r

  nothing-Ran : (futures : List (Future A)) → Ran [] futures []
  nothing-Ran futures = record {
    final = futures;
    same_length = refl;
    still_done = λ k r h. h;
    agree = tt;
    finished = λ k h none_left. elim none_left [ ];
    mentioned = λ k r h. inl h;
    ran_by = λ k r h. inl h;
  }

  -- A closure that finds its future cancelled, done or missing does nothing.
  idle :
      (k : ℕ) (ks : List ℕ) (futures : List (Future A)) (yielded : List (ℕ × Result A))
      → (k < length futures
          → (get_elem? futures k ≡ some called_off)
            ⊎ ((r : Result A) × (get_elem? futures k ≡ some (done r))))
      → Ran ks futures yielded
      → Ran (k ∷ ks) futures yielded
  idle k ks futures yielded why ran = record {
    final = ran.final;
    same_length = ran.same_length;
    still_done = ran.still_done;
    agree = ran.agree;
    finished = λ j h which. elim which [
      | inr later ↦ ran.finished j h later
      | inl same ↦ elim (why (omega arith)) [
        | inl off ↦ inl (ap (λ x. get_elem? futures x) same ∙ off)
        | inr (r, is_done) ↦
            inr (r, ran.still_done j r (ap (λ x. get_elem? futures x) same ∙ is_done))
      ]
    ];
    mentioned = ran.mentioned;
    ran_by = ran.ran_by;
  }

  -- One that finds it waiting runs the task.
  one-Ran :
      (k : ℕ) (ks : List ℕ) (futures : List (Future A)) (r : Result A)
      (yielded : List (ℕ × Result A))
      → get_elem? futures k ≡ some waiting
      → RanTask tasks k r
      → Ran ks (set futures k (done r)) yielded
      → Ran (k ∷ ks) futures ((k, r) ∷ yielded)
  one-Ran k ks futures r yielded waits by_task ran =
      let inside = get_elem?-lt futures k waiting waits in
      let own = ran.still_done k r (get_elem?-set_self futures k (done r) inside) in
      record {
        final = ran.final;
        same_length = ran.same_length ∙ length-set futures k (done r);
        still_done = λ j r' h. elim (same_place k j) [
          | inl same ↦ cc
          | inr differs ↦ ran.still_done j r' (get_elem?-set_ne futures k j (done r) differs ∙ h)
        ];
        agree = (own, ran.agree);
        finished = λ j h which. elim (same_place k j) [
          | inl same ↦ inr (r, ap (λ x. get_elem? ran.final x) (sym same) ∙ own)
          | inr differs ↦ elim which [
            | inl same ↦ absurd (differs (sym same))
            | inr later ↦
                elim (ran.finished j (omega (arith, length-set futures k (done r))) later) [
                  | inl off ↦ inl (sym (get_elem?-set_ne futures k j (done r) differs) ∙ off)
                  | inr finished ↦ inr finished
                ]
          ]
        ];
        mentioned = λ j r' h. elim (same_place k j) [
          | inl same ↦ inr (inl (sym same))
          | inr differs ↦ elim (ran.mentioned j r' h) [
            | inl before ↦ inl (sym (get_elem?-set_ne futures k j (done r) differs) ∙ before)
            | inr later ↦ inr (inr later)
          ]
        ];
        ran_by = λ j r' h. elim (same_place k j) [
          | inl same ↦ inr (
              subst (λ x. RanTask tasks x r') same
                (subst (RanTask tasks k)
                  (let e = sym own ∙ ap (λ x. get_elem? ran.final x) same ∙ h in cc) by_task))
          | inr differs ↦ elim (ran.ran_by j r' h) [
            | inl before ↦ inl (sym (get_elem?-set_ne futures k j (done r) differs) ∙ before)
            | inr by_own ↦ inr by_own
          ]
        ];
      }

  abbrev AllRan : List ℕ → Type 0
  AllRan ks =
      (futures : List (Future A)) (w : W)
      → length futures ≡ length tasks
      → Ran ks futures (run_closures ks tasks futures w).0

  Ran-at :
      (task : Option (ℕ × Exec W A)) (future : Option (Future A)) (k : ℕ) (ks : List ℕ)
      (futures : List (Future A)) (w : W)
      → get_elem? tasks k ≡ task
      → get_elem? futures k ≡ future
      → length futures ≡ length tasks
      → AllRan ks
      → Ran (k ∷ ks) futures (run_at task future k (run_closures ks tasks) futures w).0
  unfolding run_at
  Ran-at none future k ks futures w no_task there same ran =
      idle k ks futures _
        (λ h. let (task, found) = get_elem?-some tasks k (omega (arith, same)) in cc)
        (ran futures w same)
  Ran-at (some task) none k ks futures w its_task missing same ran =
      idle k ks futures _ (λ h. let (future, found) = get_elem?-some futures k h in cc)
        (ran futures w same)
  Ran-at (some task) (some called_off) k ks futures w its_task off same ran =
      idle k ks futures _ (λ h. inl off) (ran futures w same)
  Ran-at (some task) (some (done r)) k ks futures w its_task is_done same ran =
      idle k ks futures _ (λ h. inr (r, is_done)) (ran futures w same)
  Ran-at (some (i, task)) (some waiting) k ks futures w its_task waits same ran =
      let r = (task w).0 in
      let futures' = set futures k (done r) in
      let rest = ran futures' (task w).1 (length-set futures k (done r) ∙ same) in
      subst (λ j. Ran (k ∷ ks) futures ((j, r) ∷ (run_closures ks tasks futures' (task w).1).0))
        (sym (numbered k i task its_task))
        (one-Ran k ks futures r (run_closures ks tasks futures' (task w).1).0 waits
          (i, task, w, its_task, refl) rest)

  run_closures-Ran : (ks : List ℕ) → AllRan ks
  unfolding run_closures
  run_closures-Ran [] futures w same = nothing-Ran futures
  run_closures-Ran (k ∷ ks) futures w same =
      Ran-at (get_elem? tasks k) (get_elem? futures k) k ks futures w refl refl same
        (run_closures-Ran ks)

-- The outcomes of futures that are all done.
results : {A : Type 0} → List (Future A) → List (Result A)
results [] = []
results (waiting ∷ futures) = results futures
results (called_off ∷ futures) = results futures
results (done r ∷ futures) = r ∷ results futures

module _ {A : Type 0} where
  abbrev Complete : List (Future A) → Type 0
  Complete futures =
      (k : ℕ) → k < length futures → (r : Result A) × (get_elem? futures k ≡ some (done r))

  later : (f : Future A) (futures : List (Future A)) → Complete (f ∷ futures) → Complete futures
  later f futures h k inside = h (suc k) (omega arith)

  length-results :
      (futures : List (Future A)) → Complete futures → length (results futures) ≡ length futures
  unfolding results
  length-results [] h = refl
  length-results (waiting ∷ futures) h = let (r, is_done) = h 0 (omega arith) in cc
  length-results (called_off ∷ futures) h = let (r, is_done) = h 0 (omega arith) in cc
  length-results (done r ∷ futures) h = ap suc (length-results futures (later (done r) futures h))

  get_elem?-results :
      (futures : List (Future A)) (k : ℕ) (r : Result A)
      → Complete futures
      → get_elem? futures k ≡ some (done r)
      → get_elem? (results futures) k ≡ some r
  unfolding results
  get_elem?-results [] k r h is_done = cc
  get_elem?-results (waiting ∷ futures) k r h is_done = let (r', at_zero) = h 0 (omega arith) in cc
  get_elem?-results (called_off ∷ futures) k r h is_done =
      let (r', at_zero) = h 0 (omega arith) in cc
  get_elem?-results (done r' ∷ futures) zero r h is_done = cc
  get_elem?-results (done r' ∷ futures) (suc k) r h is_done =
      get_elem?-results futures k r (later (done r') futures h) is_done

  AllDone-Agree :
      (final : List (Future A)) (yielded : List (ℕ × Result A))
      → Complete final
      → AllDone final yielded
      → Agree (results final) yielded
  AllDone-Agree final [] h all = tt
  AllDone-Agree final ((i, r) ∷ yielded) h (one, all) =
      (get_elem?-results final i r h one, AllDone-Agree final yielded h all)

get_elem?-waiting :
    {A : Type 0} (n k : ℕ) (f : Future A) → get_elem? (replicate n waiting) k ≡ some f → f ≡ waiting
get_elem?-waiting zero k f h = cc
get_elem?-waiting (suc n) zero f h = cc
get_elem?-waiting (suc n) (suc k) f h = get_elem?-waiting n k f h

length-waiting : (A : Type 0) (n : ℕ) → length (replicate {A = Future A} n waiting) ≡ n
length-waiting A zero = refl
length-waiting A (suc n) = ap suc (length-waiting A n)

-- None is cancelled or done yet.
only_waiting :
    {A : Type 0} (n k : ℕ)
    → ((get_elem? (replicate {A = Future A} n waiting) k ≡ some called_off) → ⊥)
      × ((r : Result A) → get_elem? (replicate n waiting) k ≡ some (done r) → ⊥)
only_waiting n k = (
  λ off. let same = get_elem?-waiting n k called_off off in cc,
  λ r is_done. let same = get_elem?-waiting n k (done r) is_done in cc,
)

-- If the pool runs every closure that was spawned, at whatever time, and the tasks are numbered in
-- their order, then each future gets the outcome of its own task, every one of them, so that what
-- `as_completed` yields is what a batch expects of an executor.
pub gevent_lem :
    {W A : Type 0} (schedule : ℕ → List ℕ) (tasks : List (ℕ × Exec W A)) (w : W)
    → ((k i : ℕ) (task : Exec W A) → get_elem? tasks k ≡ some (i, task) → i ≡ k)
    → ((n k : ℕ) → k < n → Runs k (schedule n))
    → (outs : List (Result A)) × (length outs ≡ length tasks)
      × Completes outs (gevent_executor schedule tasks w).0
      × ((k : ℕ)
          → k < length tasks
          → (r : Result A) × (get_elem? outs k ≡ some r) × RanTask tasks k r)
unfolding gevent_executor
gevent_lem {W} {A} schedule tasks w numbered runs =
    let n = length tasks in
    let start = replicate n waiting in
    let ran = run_closures-Ran tasks numbered (schedule n) start w (length-waiting A n) in
    let complete : Complete ran.final = λ k h.
      let inside : k < length start = omega (arith, ran.same_length) in
      elim (ran.finished k inside (runs n k (omega (arith, length-waiting A n)))) [
        | inl off ↦ absurd ((only_waiting n k).0 off)
        | inr is_done ↦ is_done
      ] in
    (
      results ran.final,
      length-results ran.final complete ∙ ran.same_length ∙ length-waiting A n,
      (
        AllDone-Agree ran.final (run_closures (schedule n) tasks start w).0 complete ran.agree,
        λ k h.
            let (r, is_done) = complete k (omega (arith, length-results ran.final complete)) in
            elim (ran.mentioned k r is_done) [
              | inl before ↦ absurd ((only_waiting n k).1 r before)
              | inr later ↦ later
            ],
      ),
      λ k inside.
          let (r, is_done) = complete k (omega (arith, ran.same_length, length-waiting A n)) in
          (
            r,
            get_elem?-results ran.final k r complete is_done,
            elim (ran.ran_by k r is_done) [
              | inl before ↦ absurd ((only_waiting n k).1 r before)
              | inr by_task ↦ by_task
            ],
          ),
    )
