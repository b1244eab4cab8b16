-- ===== src/Async/Overlap/Moves/Claims.antt =====
-- Any schedule of overlapping calls, and the claims on temporary files.
use newtua_py.Base.{
  ℕ, zero, suc, ◌+◌, ◌≡◌, refl, ap, arith, Option, none, some, List, [], ◌∷◌, ◌++◌, get_elem?, set,
  Bool, true, false, if◌then◌else◌,
}
use mathlib.Core.Option.{some-injective}
use newtua_py.Host.Claims.{one}
use newtua_py.Host.Counts.{Counts, Counts-cong}
use newtua_py.Host.Owners.{held_by, stream_claims}
use newtua_py.Host.Locked.{count_down, delete}
use newtua_py.Host.Locked.Kept.{
  one_if, count_down-elsewhere, delete-elsewhere, count_down-Counts, delete-Counts,
}
use newtua_py.Engine.{PathCalls, RemovesNothing, Platform}
use newtua_py.Async.Overlap.{closed, Call, Job, begun, over, advance}
use newtua_py.Async.Overlap.Moves.{
  Loop, idle, deletes, forgets, Overlap, marked_closed, forgotten, begin_leaving, leave, go_on,
  submit, Move, awaits, leaves, goes_on, works, work, move, run, job_steady, move_steady, unraced,
}
use newtua_py.Async.Overlap.Steps.{job_claims, job_due, Fits}
use newtua_py.Async.Overlap.Advance.{advance-Stays}

-- The sum of what each job counts for.
abbrev pub total : {U : Type 0} → (Job U → ℕ → ℕ) → List (Job U) → ℕ → ℕ
total count [] t = 0
total count (job ∷ jobs) t = count job t + total count jobs t

module _ {U : Type 0} (count : Job U → ℕ → ℕ) where
  pub total-append_one :
      (jobs : List (Job U)) (job : Job U) (t : ℕ)
      → total count (jobs ++ job ∷ []) t ≡ count job t + total count jobs t
  total-append_one [] job t = refl
  total-append_one (j ∷ jobs) job t = omega (arith, total-append_one jobs job t)

  pub total-set :
      (jobs : List (Job U)) (k : ℕ) (job job' : Job U) (t : ℕ)
      → get_elem? jobs k ≡ some job
      → total count (set jobs k job') t + count job t ≡ total count jobs t + count job' t
  total-set [] k job job' t h = cc
  total-set (j ∷ jobs) zero job job' t h =
      let same : j ≡ job = some-injective j job h in
      omega (arith, ap (λ (x : Job U). count x t) same)
  total-set (j ∷ jobs) (suc k) job job' t h = omega (arith, total-set jobs k job job' t h)

-- What the archive claims: nothing more once `__aexit__` has counted down.
abbrev pub loop_claims : Loop → Option ℕ → ℕ → ℕ
loop_claims idle o t = held_by o t
loop_claims (deletes u) o t = 0
loop_claims forgets o t = 0

abbrev pub loop_due : Loop → ℕ → ℕ
loop_due idle t = 0
loop_due (deletes u) t = one u t
loop_due forgets t = 0

-- All claims on the temporary file at an address, and the deletions of it that are due.
abbrev pub claims : {U : Type 0} → Overlap U → ℕ → ℕ
claims o t =
    loop_claims o.loop o.state.archive.sync.tempfile t
    + total job_claims o.jobs t
    + stream_claims o.state.host.streams t

abbrev pub due : {U : Type 0} → Overlap U → ℕ → ℕ
due o t = loop_due o.loop t + total job_due o.jobs t

abbrev pub Fair : {U : Type 0} → Overlap U → Type 0
Fair o = Counts (claims o) (due o) o.state.host

pub loop-after_count :
    (last : Bool) (u : ℕ) (held : Option ℕ) (t : ℕ)
    → let l = if last then deletes u else forgets in
      (loop_claims l held t ≡ 0) × (loop_due l t ≡ one_if last u t)
loop-after_count true u held t = (refl, refl)
loop-after_count false u held t = (refl, refl)

module _ {U : Type 0} where
  submit-Fair :
      (call : Call U) (l : Loop) (o : Overlap U) → o.loop ≡ l → Fair o → Fair (submit call l o)
  unfolding submit
  submit-Fair call idle o same c =
      Counts-cong _ _ _ _ o.state.host c
        (λ t. omega (arith, total-append_one job_claims o.jobs (begun call) t))
        (λ t. omega (arith, total-append_one job_due o.jobs (begun call) t))
  submit-Fair call (deletes u) o same c = c
  submit-Fair call forgets o same c = c

  begin_leaving-Fair :
      (held : Option ℕ) (o : Overlap U)
      → o.state.archive.sync.tempfile ≡ held
      → o.loop ≡ idle
      → Fair o
      → Fair (begin_leaving held o)
  unfolding begin_leaving forgotten marked_closed
  begin_leaving-Fair none o held free c =
      Counts-cong _ _ _ _ o.state.host c
        (λ t. omega (
          arith,
          ap (λ l. loop_claims l o.state.archive.sync.tempfile t) free,
          ap (λ l. loop_claims l none t) free,
          ap (λ x. held_by x t) held,
        ))
        (λ t. refl)
  begin_leaving-Fair (some u) o held free c =
      let h = o.state.host in
      let rest : ℕ → ℕ = λ t. total job_claims o.jobs t + stream_claims h.streams t in
      let (last, h') = count_down u h in
      Counts-cong _ _ _ _ h'
        (count_down-Counts rest (due o) u h (
          Counts-cong _ _ _ _ h c
            (λ t. omega (
              arith,
              ap (λ l. loop_claims l o.state.archive.sync.tempfile t) free,
              ap (λ x. held_by x t) held,
            ))
            (λ t. refl)))
        (λ t. omega (
          arith,
          (loop-after_count last u o.state.archive.sync.tempfile t).0,
          ap (λ ps. stream_claims ps t) (count_down-elsewhere u h).0,
        ))
        (λ t. omega (
          arith,
          (loop-after_count last u o.state.archive.sync.tempfile t).1,
          ap (λ l. loop_due l t) free,
        ))

  leave-Fair : (l : Loop) (o : Overlap U) → o.loop ≡ l → Fair o → Fair (leave l o)
  unfolding leave
  leave-Fair idle o free c = begin_leaving-Fair o.state.archive.sync.tempfile o refl free c
  leave-Fair (deletes u) o same c = c
  leave-Fair forgets o same c = c

  go_on-Fair : (l : Loop) (o : Overlap U) → o.loop ≡ l → Fair o → Fair (go_on l o)
  unfolding go_on forgotten
  go_on-Fair idle o same c = c
  go_on-Fair (deletes u) o same c =
      let h = o.state.host in
      let rest : ℕ → ℕ = λ t. total job_claims o.jobs t + stream_claims h.streams t in
      Counts-cong _ _ _ _ (delete u h)
        (delete-Counts rest (total job_due o.jobs) u h (
          Counts-cong _ _ _ _ h c
            (λ t. omega (arith, ap (λ l. loop_claims l o.state.archive.sync.tempfile t) same))
            (λ t. omega (arith, ap (λ l. loop_due l t) same))))
        (λ t. omega (arith, ap (λ ps. stream_claims ps t) (delete-elsewhere u h).0))
        (λ t. omega arith)
  go_on-Fair forgets o same c =
      Counts-cong _ _ _ _ o.state.host c
        (λ t. omega (arith, ap (λ l. loop_claims l o.state.archive.sync.tempfile t) same))
        (λ t. omega (arith, ap (λ l. loop_due l t) same))

module _ (C : PathCalls) (P : Platform) (adds : RemovesNothing C) {U : Type 0} where
  work-Fair :
      (k : ℕ) (found : Option (Job U)) (o : Overlap U)
      → get_elem? o.jobs k ≡ found
      → job_steady found o.state.host ≡ true
      → Fair o
      → Fair (work C P k found o)
  unfolding work job_steady
  work-Fair k none o there still c = c
  work-Fair k (some job) o there still c =
      let rest = set o.jobs k (over closed) in
      let base : ℕ → ℕ =
        λ t. loop_claims o.loop o.state.archive.sync.tempfile t + total job_claims rest t in
      let before : Fits base (λ t. loop_due o.loop t + total job_due rest t) job o.state.host =
        Counts-cong _ _ _ _ o.state.host c
          (λ t. omega (arith, total-set job_claims o.jobs k job (over closed) t there))
          (λ t. omega (arith, total-set job_due o.jobs k job (over closed) t there)) in
      let (job', s', u') = advance C P job (o.state, o.user) in
      let (same, after) =
        advance-Stays C P base (λ t. loop_due o.loop t + total job_due rest t) o.state.archive U
          adds job o.state o.user still (refl, before) in
      Counts-cong _ _ _ _ s'.host after
        (λ t. omega (
          arith,
          total-set job_claims o.jobs k job job' t there,
          total-set job_claims o.jobs k job (over closed) t there,
          ap (λ a. loop_claims o.loop a.sync.tempfile t) same,
        ))
        (λ t. omega (
          arith,
          total-set job_due o.jobs k job job' t there,
          total-set job_due o.jobs k job (over closed) t there,
        ))

  pub move-Fair :
      (m : Move U) (o : Overlap U) → move_steady o m ≡ true → Fair o → Fair (move C P o m)
  unfolding move move_steady
  move-Fair (awaits call) o still = submit-Fair call o.loop o refl
  move-Fair leaves o still = leave-Fair o.loop o refl
  move-Fair goes_on o still = go_on-Fair o.loop o refl
  move-Fair (works k) o still = work-Fair k (get_elem? o.jobs k) o refl still

  -- The first move is steady, and so are the ones behind it.
  pub unraced-cons :
      (m : Move U) (ms : List (Move U)) (o : Overlap U)
      → unraced C P o (m ∷ ms) ≡ true
      → (move_steady o m ≡ true) × (unraced C P (move C P o m) ms ≡ true)
  unfolding unraced
  unraced-cons m ms o h = (ground arith, ground arith)

  pub run-Fair :
      (ms : List (Move U)) (o : Overlap U) → unraced C P o ms ≡ true → Fair o → Fair (run C P o ms)
  unfolding run
  run-Fair [] o calm c = c
  run-Fair (m ∷ ms) o calm c =
      let (first, rest) = unraced-cons m ms o calm in
      run-Fair ms (move C P o m) rest (move-Fair m o first c)
