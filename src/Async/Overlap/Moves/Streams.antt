-- ===== src/Async/Overlap/Moves/Streams.antt =====
-- Any schedule of overlapping calls, the streams, and the life of a temporary file.
use mathlib.Core.Option.{some-injective}
use newtua_py.Base.{
  ℕ, zero, suc, ◌+◌, ◌<◌, ◌≤◌, ◌≡◌, ◌⊎◌, inl, inr, refl, ap, ◌∙◌, arith, String, Option, none, some,
  List, [], ◌∷◌, true, get_elem?, set,
}
use newtua_py.Host.{Host, Piped}
use newtua_py.Host.Counts.{Counts-cong}
use newtua_py.Host.Owners.{held_by, claim, stream_claims}
use newtua_py.Host.Locked.{count_down}
use newtua_py.Host.Locked.Kept.{Lives, one_if}
use newtua_py.Host.Locked.Follows.{
  Goes-same, Follows, Follows-cong, Follows-still, delete-Follows, count_down-Follows,
}
use newtua_py.Engine.{PathCalls, RemovesNothing, Platform}
use newtua_py.Async.Overlap.{closed, Call, Job, begun, over, advance}
use newtua_py.Async.Overlap.Moves.{
  Loop, idle, deletes, forgets, Overlap, marked_closed, forgotten, begin_leaving, leave, go_on,
  submit, Move, awaits, leaves, goes_on, works, work, move, run, job_steady, move_steady, unraced,
}
use newtua_py.Async.Overlap.Steps.{job_claims, job_due, Fits}
use newtua_py.Async.Overlap.Advance.{advance-Stays}
use newtua_py.Async.Overlap.Follows.{advance-Follows}
use newtua_py.Async.Overlap.Moves.Claims.{
  total, total-append_one, total-set, loop_claims, loop_due, due, Fair, loop-after_count, move-Fair,
  unraced-cons,
}

-- What the archive claims.
abbrev pub held : {U : Type 0} → Overlap U → ℕ → ℕ
held o t = loop_claims o.loop o.state.archive.sync.tempfile t

-- An open stream's claim is one of those that are counted.
stream_claims-some :
    (ps : List Piped) (a : ℕ) (q : Piped) (t : ℕ)
    → get_elem? ps a ≡ some q
    → claim q ≡ some t
    → 0 < stream_claims ps t
stream_claims-some [] a q t there claims_it = cc
stream_claims-some (p ∷ ps) zero q t there claims_it =
    let claims_it' = ap claim (some-injective p q there) ∙ claims_it in
    ground (arith, ap (λ o. held_by o t) claims_it')
stream_claims-some (p ∷ ps) (suc a) q t there claims_it =
    omega (arith, stream_claims-some ps a q t there claims_it)

module _ (t : ℕ) (path : String) where
  -- From one state to the next; the archive never claims more.
  abbrev Moves : {U : Type 0} → Overlap U → Overlap U → Type 0
  Moves o o' =
      Follows t path (held o' t) (due o t) o.state.host (due o' t) o'.state.host
      × (held o' t ≤ held o t)

  module _ {U : Type 0} where
    unmoved :
        (o o' : Overlap U)
        → o'.state.host ≡ o.state.host
        → due o' t ≡ due o t
        → held o' t ≤ held o t
        → Moves o o'
    unmoved o o' same same_due fewer = (
      Follows-still t path (held o' t) _ _ o.state.host o'.state.host
          (Goes-same _ _ (ap (λ (h : Host). h.streams) same)) (ap (λ (h : Host). h.temps) same)
          (λ none_due. omega (arith, same_due)),
      fewer,
    )

    submit-Moves : (call : Call U) (l : Loop) (o : Overlap U) → Moves o (submit call l o)
    unfolding submit
    submit-Moves call idle o =
        unmoved o (submit call idle o) refl
          (omega (arith, total-append_one job_due o.jobs (begun call) t)) (omega arith)
    submit-Moves call (deletes u) o = unmoved o o refl refl (omega arith)
    submit-Moves call forgets o = unmoved o o refl refl (omega arith)

    begin_leaving-Moves :
        (from : Option ℕ) (o : Overlap U)
        → o.state.archive.sync.tempfile ≡ from
        → o.loop ≡ idle
        → Fair o
        → Moves o (begin_leaving from o)
    unfolding begin_leaving forgotten marked_closed
    begin_leaving-Moves none o from free c =
        unmoved o (begin_leaving none o) refl refl
          (omega (arith, ap (λ l. loop_claims l none t) free))
    begin_leaving-Moves (some u) o from free c =
        let h = o.state.host in
        let after = loop-after_count (count_down u h).0 u o.state.archive.sync.tempfile t in
        (
          Follows-cong t path _ (due o t) (one_if (count_down u h).0 u t + due o t) _ _ h
              (count_down u h).1 refl (omega (arith, after.1, ap (λ l. loop_due l t) free))
              (count_down-Follows t path _ (total job_claims o.jobs) _ u (due o t) h
                (omega (arith, after.0))
                (Counts-cong _ _ _ _ h c
                  (λ v. omega (
                    arith,
                    ap (λ l. loop_claims l o.state.archive.sync.tempfile v) free,
                    ap (λ x. held_by x v) from,
                  ))
                  (λ v. refl))),
          omega (arith, after.0),
        )

    leave-Moves : (l : Loop) (o : Overlap U) → o.loop ≡ l → Fair o → Moves o (leave l o)
    unfolding leave
    leave-Moves idle o free c = begin_leaving-Moves o.state.archive.sync.tempfile o refl free c
    leave-Moves (deletes u) o same c = unmoved o o refl refl (omega arith)
    leave-Moves forgets o same c = unmoved o o refl refl (omega arith)

    go_on-Moves : (l : Loop) (o : Overlap U) → o.loop ≡ l → Moves o (go_on l o)
    unfolding go_on forgotten
    go_on-Moves idle o same = unmoved o o refl refl (omega arith)
    go_on-Moves (deletes u) o same = (
      delete-Follows t path 0 u (due o t) (0 + total job_due o.jobs t) o.state.host
          (omega (arith, ap (λ l. loop_due l t) same)),
      omega arith,
    )
    go_on-Moves forgets o same =
        unmoved o (go_on forgets o) refl (omega (arith, ap (λ l. loop_due l t) same)) (omega arith)

  module _ (C : PathCalls) (P : Platform) (adds : RemovesNothing C) {U : Type 0} where
    work-Moves :
        (k : ℕ) (found : Option (Job U)) (o : Overlap U)
        → get_elem? o.jobs k ≡ found
        → job_steady found o.state.host ≡ true
        → Fair o
        → Moves o (work C P k found o)
    unfolding work job_steady
    work-Moves k none o there calm c = unmoved o o refl refl (omega arith)
    work-Moves k (some job) o there calm c =
        let rest = set o.jobs k (over closed) in
        let base : ℕ → ℕ =
          λ v. loop_claims o.loop o.state.archive.sync.tempfile v + total job_claims rest v in
        let base_due : ℕ → ℕ = λ v. loop_due o.loop v + total job_due rest v in
        let before : Fits base base_due job o.state.host =
          Counts-cong _ _ _ _ o.state.host c
            (λ v. omega (arith, total-set job_claims o.jobs k job (over closed) v there))
            (λ v. omega (arith, total-set job_due o.jobs k job (over closed) v there)) in
        let (job', s', u') = advance C P job (o.state, o.user) in
        let (same, _) =
          advance-Stays C P base base_due o.state.archive U adds job o.state o.user calm
            (refl, before) in
        let same_held = ap (λ a. loop_claims o.loop a.sync.tempfile t) same in
        (
          Follows-cong t path _ _ _ (due o t) _ o.state.host s'.host
              (omega (arith, total-set job_due o.jobs k job (over closed) t there))
              (omega (
                arith,
                total-set job_due o.jobs k job job' t there,
                total-set job_due o.jobs k job (over closed) t there,
              ))
              (advance-Follows C P U t path (loop_claims o.loop s'.archive.sync.tempfile t)
                (base_due t) base base_due job o.state o.user (omega (arith, same_held)) before),
          omega (arith, same_held),
        )

    pub move-Moves :
        (m : Move U) (o : Overlap U) → move_steady o m ≡ true → Fair o → Moves o (move C P o m)
    unfolding move move_steady
    move-Moves (awaits call) o calm c = submit-Moves call o.loop o
    move-Moves leaves o calm c = leave-Moves o.loop o refl c
    move-Moves goes_on o calm c = go_on-Moves o.loop o refl
    move-Moves (works k) o calm c = work-Moves k (get_elem? o.jobs k) o refl calm c

    run-held :
        (ms : List (Move U)) (o : Overlap U)
        → unraced C P o ms ≡ true
        → Fair o
        → held (run C P o ms) t ≤ held o t
    unfolding run
    run-held [] o calm c = omega arith
    run-held (m ∷ ms) o calm c =
        let o' = move C P o m in
        let (first, rest) = unraced-cons C P adds m ms o calm in
        omega
          (arith, run-held ms o' rest (move-Fair C P adds m o first c), (move-Moves m o first c).1)

    -- While the archive claims a temporary file, its finalizer is not run.
    pub run-Lives :
        (ms : List (Move U)) (o : Overlap U)
        → unraced C P o ms ≡ true
        → Fair o
        → 0 < held (run C P o ms) t
        → due o t ≡ 0
        → Lives t path o.state.host
        → Lives t path (run C P o ms).state.host × (due (run C P o ms) t ≡ 0)
    unfolding run
    run-Lives [] o calm c claimed none_due l = (l, none_due)
    run-Lives (m ∷ ms) o calm c claimed none_due l =
        let o' = move C P o m in
        let (first, rest) = unraced-cons C P adds m ms o calm in
        let c' = move-Fair C P adds m o first c in
        let (l', none_due') =
          (move-Moves m o first c).0.lives (omega (arith, claimed, run-held ms o' rest c')) none_due
            l in
        run-Lives ms o' rest c' claimed none_due' l'

    -- A stream is closed, or it claims the file and no deletion of that is due.
    abbrev pub Serves : ℕ → Overlap U → Type 0
    Serves a o =
        (q : Piped) × (get_elem? o.state.host.streams a ≡ some q)
        × ((q.stream.closed ≡ true)
            ⊎ ((claim q ≡ some t) × Lives t path o.state.host × (due o t ≡ 0)))

    move-Serves :
        (m : Move U) (a : ℕ) (o : Overlap U)
        → move_steady o m ≡ true
        → Fair o
        → Serves a o
        → Serves a (move C P o m)
    move-Serves m a o calm c (q, there, holds) =
        let o' = move C P o m in
        let f = (move-Moves m o calm c).0 in
        let (q', there', next) = f.goes a q there in
        (
          q',
          there',
          elim next [
            | inl shut ↦ inl shut
            | inr (flag, own) ↦ elim holds [
              | inl shut ↦ inl (flag ∙ shut)
              | inr (claims_it, l, none_due) ↦
                  let claims_it' = own ∙ claims_it in
                  let counted = stream_claims-some o'.state.host.streams a q' t there' claims_it' in
                  let (l', none_due') = f.lives (omega (arith, counted)) none_due l in
                  inr (claims_it', l', none_due')
            ]
          ],
        )

    pub run-Serves :
        (ms : List (Move U)) (a : ℕ) (o : Overlap U)
        → unraced C P o ms ≡ true
        → Fair o
        → Serves a o
        → Serves a (run C P o ms)
    unfolding run
    run-Serves [] a o calm c s = s
    run-Serves (m ∷ ms) a o calm c s =
        let (first, rest) = unraced-cons C P adds m ms o calm in
        run-Serves ms a (move C P o m) rest (move-Fair C P adds m o first c)
          (move-Serves m a o first c s)
