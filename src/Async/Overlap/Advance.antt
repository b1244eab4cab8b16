-- ===== src/Async/Overlap/Advance.antt =====
-- Whatever a job does in one step, and the claims on temporary files.
use newtua_py.Base.{ℕ, ◌+◌, ◌≡◌, refl, ◌∙◌, ap, arith, String, Option, none, some, get_elem?}
use newtua_py.Errors.{Result, ok, err, typed}
use newtua_py.Exec.{lift}
use newtua_py.Exec.Keeps.{Keeps, Keeps-bind, Keeps-lift, Keeps-raise, either}
use newtua_py.Events.{wrapped}
use newtua_py.Listing.{Bytes}
use newtua_py.Host.{Host, Piped, hold}
use newtua_py.Host.Claims.{one}
use newtua_py.Host.Counts.{Counts, Counts-cong, Counts-grow}
use newtua_py.Host.Owners.{stream_claims}
use newtua_py.Host.Pipes.{pipe_windows}
use newtua_py.Host.Locked.{delete}
use newtua_py.Host.Locked.Kept.{hold-elsewhere, delete-elsewhere, hold-Counts, delete-Counts}
use newtua_py.Engine.{Report, PathCalls, RemovesNothing, OsName, posix, nt, other_os, Platform}
use newtua_py.Archive.{has_own_path}
use newtua_py.Async.{AsyncArchive, AsyncState, on_machine, asserted}
use newtua_py.Async.Access.{open_pipe_on, call_read}
use newtua_py.Base.{Bool, true}
use newtua_py.Base.Int.{ℤ}
use newtua_py.Async.Overlap.{
  shutting, read_opened, steady, read_piped, Pending, Call, open_stream, close_opened, read_entry,
  extract_all, Job, begun, holding, shaking, releasing, deleting, over, with_user, on_host,
  begin_call, opened_by, open_on, extract_step, read_answer, report_answer, make_pipe, shut, shaken,
  at_once, advance,
}
use newtua_py.Async.Overlap.Steps.{
  job_claims, job_due, Fits, Alone, make_pipe-Fits, shaken-Fits, shut-Fits, test_closed-Fits,
  read_piped-Fits, give_up_claim-Fits, at_once-Fits, pipe_windows-Alone,
}

-- The archive stays as it is, and the counters stay right.
module _ (C : PathCalls) (P : Platform) (base due : ℕ → ℕ) (a : AsyncArchive) where
  abbrev Unclaimed : AsyncState → Type 0
  Unclaimed s = (s.archive ≡ a) × Alone base due s.host

  windows-Keeps : (p : String) (index size : ℕ) → Keeps Unclaimed (open_pipe_on C P nt p index size)
  unfolding open_pipe_on
  windows-Keeps p index size = record {
    at = λ s h.
        let build =
          pipe_windows
            (λ disk. C.open_stream_windows_path disk p index s.archive.password s.archive.encoding)
            (some size) in
        either Unclaimed (has_own_path s.archive.sync.source) _ _
          (either Unclaimed P.is_win32 (on_machine build s) _
            (h.0, (pipe_windows-Alone base due _ (some size)).at s.host h.1) h)
          h;
  }

  other-Keeps :
      (p : String) (index size : ℕ) → Keeps Unclaimed (open_pipe_on C P other_os p index size)
  unfolding open_pipe_on
  other-Keeps p index size = Keeps-raise _

  opened_by-Unclaimed :
      (os : OsName) (index size : ℕ) (s : AsyncState)
      → ((p : String) → Keeps Unclaimed (open_pipe_on C P os p index size))
      → Unclaimed s
      → Unclaimed (opened_by C P os index size s).1
  unfolding opened_by
  opened_by-Unclaimed os index size s keeps =
      (Keeps-bind {Inv = Unclaimed} (lift (asserted s.archive.path)) _ (Keeps-lift _) keeps).at s

  held_one :
      (t : ℕ) (h : Host)
      → Counts (λ u. base u + (stream_claims h.streams u + 0)) (λ u. due u + 0) h
      → Counts
          (λ u. base u + (stream_claims (hold t h).streams u + one t u))
          (λ u. due u + 0)
          (hold t h)
  held_one t h c =
      Counts-cong _ _ _ _ (hold t h) (hold-Counts _ _ t h c)
        (λ u. omega (arith, ap (λ ps. stream_claims ps u) (hold-elsewhere t h).0)) (λ u. refl)

  deleted_one :
      (t : ℕ) (h : Host)
      → Counts (λ u. base u + (stream_claims h.streams u + 0)) (λ u. due u + one t u) h
      → Counts
          (λ u. base u + (stream_claims (delete t h).streams u + 0))
          (λ u. due u + 0)
          (delete t h)
  deleted_one t h c =
      Counts-cong _ _ _ _ (delete t h)
        (delete-Counts _ due t h (Counts-cong _ _ _ _ h c (λ u. refl) (λ u. omega arith)))
        (λ u. omega (arith, ap (λ ps. stream_claims ps u) (delete-elsewhere t h).0))
        (λ u. omega arith)

  abbrev Stays : {U : Type 0} → Job U → AsyncState → Type 0
  Stays job s = (s.archive ≡ a) × Fits base due job s.host

  module _ (U : Type 0) where
    at_once-Stays :
        (r : Result ℕ × AsyncState)
        → Unclaimed r.1
        → let (job, s') = at_once {U = U} r in Stays job s'
    unfolding at_once
    at_once-Stays (r, s) (same, c) = (same, at_once-Fits U base due (r, s) c)

    make_pipe-archive :
        (index size : ℕ) (path : Option String) (s : AsyncState)
        → (make_pipe {U = U} index size path s).1.archive ≡ s.archive
    unfolding make_pipe
    make_pipe-archive index size none s = refl
    make_pipe-archive index size (some path) s = refl

    shaken-archive :
        (r : Result Bytes) (o : Option ℕ) (c : Pending) (s : AsyncState)
        → (shaken {U = U} r o c s).1.archive ≡ s.archive
    unfolding shaken
    shaken-archive (ok rest) o c s = refl
    shaken-archive (err exc) o c s = refl

    shut-archive :
        (address : ℕ) (already_closed : Bool) (found : Option Piped) (s : AsyncState)
        → (shut {U = U} address already_closed found s).1.archive ≡ s.archive
    unfolding shut
    shut-archive address already_closed none s = refl
    shut-archive address already_closed (some p) s = refl

    read_piped-archive :
        (address : ℕ) (size : ℤ) (found : Option Piped) (s : AsyncState)
        → (read_piped {U = U} address size found s).1.archive ≡ s.archive
    unfolding read_piped
    read_piped-archive address size none s = refl
    read_piped-archive address size (some p) s = refl

    alone : (call : Call U) (s : AsyncState) → Stays (begun call) s → Unclaimed s
    alone call s (same, c) =
        (same, Counts-cong _ _ _ _ s.host c (λ t. omega arith) (λ t. omega arith))

    open_on-Stays :
        (os : OsName) (index size : ℕ) (s : AsyncState) (call : Call U)
        → Stays (begun call) s
        → let (job, s') = open_on C P {U = U} os index size s in Stays job s'
    unfolding open_on
    open_on-Stays posix index size s call (same, c) = (
      make_pipe-archive index size s.archive.path s ∙ same,
      make_pipe-Fits U base due index size s.archive.path s call c,
    )
    open_on-Stays nt index size s call h =
        at_once-Stays (opened_by C P nt index size s)
          (opened_by-Unclaimed nt index size s (λ p. windows-Keeps p index size) (alone call s h))
    open_on-Stays other_os index size s call h =
        at_once-Stays (opened_by C P other_os index size s) (
          opened_by-Unclaimed other_os index size s (λ p. other-Keeps p index size)
            (alone call s h))

    module _ (adds : RemovesNothing C) where
      silent :
          (job' : Job U) (s : AsyncState)
          → ((t : ℕ) → (job_claims job' t ≡ 0) × (job_due job' t ≡ 0))
          → Unclaimed s
          → Stays job' s
      silent job' s quiet (same, c) = (
        same,
        Counts-cong _ _ _ _ s.host c (λ t. omega (arith, (quiet t).0))
            (λ t. omega (arith, (quiet t).1)),
      )

      read_answer-silent :
          (r : Result Bytes) (t : ℕ)
          → (job_claims (read_answer {U = U} r) t ≡ 0) × (job_due (read_answer {U = U} r) t ≡ 0)
      unfolding read_answer
      read_answer-silent (ok bytes) t = (refl, refl)
      read_answer-silent (err exc) t = (refl, refl)

      report_answer-silent :
          (r : Result Report) (t : ℕ)
          → (job_claims (report_answer {U = U} r) t ≡ 0) × (job_due (report_answer {U = U} r) t ≡ 0)
      unfolding report_answer
      report_answer-silent (ok report) t = (refl, refl)
      report_answer-silent (err exc) t = (refl, refl)

      begin_call-Stays :
          (call : Call U) (s : AsyncState) (u : U)
          → Stays (begun call) s
          → let (job, s', u') = begin_call C P call (s, u) in Stays job s'
      unfolding begin_call with_user extract_step
      begin_call-Stays (open_stream index size) s u h =
          open_on-Stays P.os_name index size s (open_stream index size) h
      begin_call-Stays (close_opened address) s u (same, c) = (
        same,
        test_closed-Fits U base due address (get_elem? s.host.streams address) s.host
            (close_opened address) c,
      )
      begin_call-Stays (read_opened address size) s u (same, c) = (
        read_piped-archive address size (get_elem? s.host.streams address) s ∙ same,
        read_piped-Fits U base due address size (get_elem? s.host.streams address) s
            (read_opened address size) refl c,
      )
      begin_call-Stays (read_entry index) s u h =
          silent (read_answer (call_read C P index s).0) s
            (read_answer-silent (call_read C P index s).0) (alone (read_entry index) s h)
      begin_call-Stays (extract_all args progress) s u (same, c) =
          let r = C.extract_path U args (wrapped progress) (s.host.disk, u) in
          silent (report_answer (typed r.0)) (on_host (λ h. record h { disk = r.1.0 }) s)
            (report_answer-silent (typed r.0))
            (
              same,
              Counts-grow _ _ s.host r.1.0 (adds U args (wrapped progress) s.host.disk u)
                  (alone (extract_all args progress) s (same, c)).1,
            )

      pub advance-Stays :
          (job : Job U) (s : AsyncState) (u : U)
          → steady job s.host ≡ true
          → Stays job s
          → let (job', s', u') = advance C P job (s, u) in Stays job' s'
      unfolding advance steady
      advance-Stays (begun call) s u fits h = begin_call-Stays call s u h
      advance-Stays (holding t c) s u fits (same, k) = (same, held_one t s.host k)
      advance-Stays (shaking o c) s u fits (same, k) =
          (shaken-archive _ o c s ∙ same, shaken-Fits U base due _ o c s k)
      advance-Stays (shutting a b) s u flag (same, k) = (
        shut-archive a b (get_elem? s.host.streams a) s ∙ same,
        shut-Fits U base due a b (get_elem? s.host.streams a) s refl flag k,
      )
      advance-Stays (releasing t answer) s u fits (same, k) =
          (same, give_up_claim-Fits U base due t answer s k)
      advance-Stays (deleting t answer) s u fits (same, k) = (same, deleted_one t s.host k)
      advance-Stays (over answer) s u fits h = h
