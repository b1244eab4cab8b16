-- ===== src/Batch/Order.antt =====
-- The outcomes of tasks beside the order in which the tasks complete.
use newtua_py.Base.{
  ℕ, zero, suc, ◌<◌, ◌≤◌, ◌≡◌, refl, ap, arith, ◌⊎◌, true, Option, none, some, List, [], ◌∷◌,
  length, get_elem?,
}
use newtua_py.Errors.{Exc, Result, ok, err, class_of, is_exception, as_typed}
use newtua_py.Exec.{Exec}
use newtua_py.Batch.Pool.{Outcome}
use newtua_py.Batch.{BatchResult, Callbacks, kept}

-- What a job with an outcome comes to.
abbrev pub result_of : {J A : Type 0} → J → Result A → BatchResult J A
result_of job (ok value) = record { job = job; value = some value; error = none }
result_of job (err exc) = record { job = job; value = none; error = some (as_typed exc) }

-- The jobs, in their order, each with its outcome, as far as the outcomes go.
abbrev pub paired : {J A : Type 0} → List J → List (Result A) → List (BatchResult J A)
paired [] outs = []
paired (job ∷ jobs) [] = []
paired (job ∷ jobs) (r ∷ outs) = result_of job r ∷ paired jobs outs

-- The list that the loop fills, when it is done.
abbrev pub slots : {J A : Type 0} → List J → List (Result A) → List (Option (BatchResult J A))
slots [] outs = []
slots (job ∷ jobs) [] = none ∷ slots jobs []
slots (job ∷ jobs) (r ∷ outs) = some (result_of job r) ∷ slots jobs outs

kept-slots-nil : {J A : Type 0} (jobs : List J) → kept (slots {A = A} jobs []) ≡ []
unfolding kept
kept-slots-nil [] = refl
kept-slots-nil (job ∷ jobs) = kept-slots-nil jobs

pub kept-slots :
    {J A : Type 0} (jobs : List J) (outs : List (Result A))
    → kept (slots jobs outs) ≡ paired jobs outs
unfolding kept
kept-slots [] outs = refl
kept-slots (job ∷ jobs) [] = kept-slots-nil jobs
kept-slots (job ∷ jobs) (r ∷ outs) = ap (λ rest. result_of job r ∷ rest) (kept-slots jobs outs)

pub length-slots :
    {J A : Type 0} (jobs : List J) (outs : List (Result A)) → length (slots jobs outs) ≡ length jobs
length-slots [] outs = refl
length-slots (job ∷ jobs) [] = ap suc (length-slots jobs [])
length-slots (job ∷ jobs) (r ∷ outs) = ap suc (length-slots jobs outs)

pub slot_at :
    {J A : Type 0} (jobs : List J) (outs : List (Result A)) (i : ℕ) (r : Result A)
    → length outs ≤ length jobs
    → get_elem? outs i ≡ some r
    → (job : J) × (get_elem? jobs i ≡ some job)
      × (get_elem? (slots jobs outs) i ≡ some (some (result_of job r)))
slot_at [] [] i r h p = cc
slot_at [] (_ ∷ outs) i r h p = absurd (omega arith)
slot_at (job ∷ jobs) [] i r h p = cc
slot_at (job ∷ jobs) (s ∷ outs) zero r h p = (job, refl, ground arith)
slot_at (job ∷ jobs) (s ∷ outs) (suc i) r h p = slot_at jobs outs i r (omega arith) p

pub slot_past :
    {J A : Type 0} (jobs : List J) (outs : List (Result A)) (i : ℕ)
    → length outs ≤ i
    → i < length jobs
    → get_elem? (slots jobs outs) i ≡ some none
slot_past [] outs i h p = absurd (omega arith)
slot_past (job ∷ jobs) [] zero h p = refl
slot_past (job ∷ jobs) [] (suc i) h p = slot_past jobs [] i (omega arith) (omega arith)
slot_past (job ∷ jobs) (r ∷ outs) zero h p = absurd (omega arith)
slot_past (job ∷ jobs) (r ∷ outs) (suc i) h p = slot_past jobs outs i (omega arith) (omega arith)

pub same_elements :
    {A : Type 0} (xs ys : List A) → ((i : ℕ) → get_elem? xs i ≡ get_elem? ys i) → xs ≡ ys
same_elements [] [] h = refl
same_elements [] (y ∷ ys) h = let at_zero = h 0 in cc
same_elements (x ∷ xs) [] h = let at_zero = h 0 in cc
same_elements (x ∷ xs) (y ∷ ys) h =
    let at_zero = h 0 in let rest = same_elements xs ys (λ i. h (suc i)) in cc

-- Each future has the outcome of the task of its number.
abbrev pub Agree : {A : Type 0} → List (Result A) → List (ℕ × Result A) → Type 0
Agree outs [] = Unit
Agree outs ((i, r) ∷ futures) = (get_elem? outs i ≡ some r) × Agree outs futures

abbrev pub Mentions : {A : Type 0} → ℕ → List (ℕ × Result A) → Type 0
Mentions i [] = ⊥
Mentions i ((j, _) ∷ futures) = (i ≡ j) ⊎ Mentions i futures

-- The futures that an executor yields are those of the tasks with these outcomes, in any order.
abbrev pub Completes : {A : Type 0} → List (Result A) → List (ℕ × Result A) → Type 0
Completes outs futures = Agree outs futures × ((i : ℕ) → i < length outs → Mentions i futures)

-- No task ends in an exception that is no `Exception`.
abbrev pub Ordinary : {A : Type 0} → List (Result A) → Type 0
Ordinary outs =
    (i : ℕ) (exc : Exc) → get_elem? outs i ≡ some (err exc) → is_exception (class_of exc) ≡ true

-- The callbacks raise nothing.
abbrev pub Quiet : {W J A : Type 0} → Callbacks W J A → Type 0
Quiet {W} {J} {A} callbacks =
    ((f : J → A → Exec W (Unit {0})) (job : J) (value : A) (w : W)
      → callbacks.0 ≡ some f
      → (f job value w).0 ≡ ok tt)
    × ((f : J → Exc → Exec W (Unit {0})) (job : J) (exc : Exc) (w : W)
        → callbacks.1 ≡ some f
        → (f job exc w).0 ≡ ok tt)

abbrev pub outcome_of : {A : Type 0} → ℕ × Result A → Outcome A
outcome_of (i, ok value) = (i, some value, none)
outcome_of (i, err exc) = (i, none, some (as_typed exc))
