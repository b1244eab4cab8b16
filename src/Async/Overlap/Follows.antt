-- ===== src/Async/Overlap/Follows.antt =====
-- What one step of a job does to the streams, and to the life of a temporary file.
use newtua_py.Base.{
  ℕ, ◌+◌, ◌≤◌, ◌≡◌, ◌≢◌, refl, arith, String, Bool, true, false, Option, none, some, get_elem?,
}
use newtua_py.Errors.{Result, ok, err}
use newtua_py.Exec.{lift}
use newtua_py.Exec.Keeps.{Keeps, Keeps-bind, Keeps-lift, Keeps-gets, Keeps-raise, either}
use newtua_py.Listing.{Bytes}
use newtua_py.Stream
use newtua_py.Host.{Disk, Host, Piped, release_some}
use newtua_py.Host.Counts.{Counts-cong}
use newtua_py.Host.Pipes.{pipe_windows, adopt_handle, hand_out, undo_ends}
use newtua_py.Host.Locked.{count_down}
use newtua_py.Host.Locked.Kept.{hold-elsewhere, hold-Lives, one_if}
use newtua_py.Host.Locked.Follows.{
  Goes, Goes-same, Goes-append, Goes-set, Goes-trans, Follows, Follows-still, delete-Follows,
  count_down-Follows,
}
use newtua_py.Engine.{Report, PathCalls, OsName, posix, nt, other_os, Platform}
use newtua_py.Archive.{has_own_path}
use newtua_py.Async.{AsyncState, on_machine, asserted}
use newtua_py.Async.Access.{open_pipe_on}
use newtua_py.Base.{inl, inr}
use newtua_py.Stream.Kept.{calls_read, after_call-Alike}
use newtua_py.Host.Used.{use_piped, used, used-claim}
use newtua_py.Base.Int.{ℤ}
use newtua_py.Async.Overlap.{
  shutting, read_opened, test_closed, read_piped, Answer, Pending, Call, open_stream, close_opened,
  read_entry, extract_all, Job, begun, holding, shaking, releasing, deleting, over, with_user,
  begin_call, opened_by, open_on, extract_step, read_answer, report_answer, let_go, to_hold,
  after_count, make_pipe, shut, shaken, give_up_claim, at_once, advance,
}
use newtua_py.Async.Overlap.Steps.{job_due, Fits}

-- The streams go on and no counter is touched.
abbrev Still : Host → Host → Type 0
Still h h' = Goes h.streams h'.streams × (h'.temps ≡ h.temps)

module _ (h₀ : Host) where
  adopt_handle-Still :
      (rest : Bytes) (expected : Option ℕ) → Keeps (Still h₀) (adopt_handle rest expected)
  unfolding adopt_handle
  adopt_handle-Still rest expected = record {
    at = λ h (goes, same). (Goes-trans h₀.streams h.streams _ goes (Goes-append h.streams _), same);
  }

  pipe_windows-Still :
      (stream_of : Disk → Result Bytes) (expected : Option ℕ)
      → Keeps (Still h₀) (pipe_windows stream_of expected)
  unfolding pipe_windows
  pipe_windows-Still stream_of expected =
      Keeps-bind _ _ (Keeps-gets _)
        λ disk. Keeps-bind _ _ (Keeps-lift _) λ rest. adopt_handle-Still rest expected

  module _ (C : PathCalls) (P : Platform) where
    abbrev StillAt : AsyncState → Type 0
    StillAt s = Still h₀ s.host

    open_pipe_on-Still :
        (os : OsName) (p : String) (index size : ℕ)
        → os ≢ posix
        → Keeps StillAt (open_pipe_on C P os p index size)
    unfolding open_pipe_on
    open_pipe_on-Still posix p index size elsewhere = absurd (elsewhere refl)
    open_pipe_on-Still nt p index size elsewhere = record {
      at = λ s h.
          let build =
            pipe_windows
              (λ disk.
                C.open_stream_windows_path disk p index s.archive.password s.archive.encoding)
              (some size) in
          either StillAt (has_own_path s.archive.sync.source) _ _
            (either StillAt P.is_win32 (on_machine build s) _
              ((pipe_windows-Still _ (some size)).at s.host h) h)
            h;
    }
    open_pipe_on-Still other_os p index size elsewhere = Keeps-raise _

    opened_by-Still :
        (os : OsName) (index size : ℕ) (s : AsyncState)
        → os ≢ posix
        → Still h₀ s.host
        → Still h₀ (opened_by C P os index size s).1.host
    unfolding opened_by
    opened_by-Still os index size s elsewhere =
        (Keeps-bind {Inv = StillAt} (lift (asserted s.archive.path)) _ (Keeps-lift _)
            (λ p. open_pipe_on-Still os p index size elsewhere)).at
          s

module _ (C : PathCalls) (P : Platform) (U : Type 0) (t : ℕ) (path : String) (other rest : ℕ) where
  -- From a job and the machine to the job and the machine that it leaves.
  abbrev From : Job U → Host → Job U → Host → Type 0
  From job h job' h' = Follows t path other (rest + job_due job t) h (rest + job_due job' t) h'

  -- A step that no deletion is due after.
  harmless :
      (d d' : ℕ) (h h' : Host)
      → Still h h'
      → d' ≡ 0
      → Follows t path other (rest + d) h (rest + d') h'
  harmless d d' h h' (goes, same) quiet =
      Follows-still t path other _ _ h h' goes same (λ none_due. omega (arith, quiet))

  let_go-due : (o : Option ℕ) (answer : Answer) → job_due (let_go {U = U} o answer) t ≡ 0
  let_go-due none answer = refl
  let_go-due (some u) answer = refl

  to_hold-due : (o : Option ℕ) (c : Pending) → job_due (to_hold {U = U} o c) t ≡ 0
  unfolding to_hold
  to_hold-due none c = refl
  to_hold-due (some u) c = refl

  read_answer-due : (r : Result Bytes) → job_due (read_answer {U = U} r) t ≡ 0
  unfolding read_answer
  read_answer-due (ok bytes) = refl
  read_answer-due (err exc) = refl

  report_answer-due : (r : Result Report) → job_due (report_answer {U = U} r) t ≡ 0
  unfolding report_answer
  report_answer-due (ok report) = refl
  report_answer-due (err exc) = refl

  still : (h : Host) → Still h h
  still h = (Goes-same h.streams h.streams refl, refl)

  make_pipe-Follows :
      (index size : ℕ) (found : Option String) (s : AsyncState) (call : Call U)
      → let (job, s') = make_pipe {U = U} index size found s in From (begun call) s.host job s'.host
  unfolding make_pipe
  make_pipe-Follows index size none s call = harmless _ _ s.host s.host (still s.host) refl
  make_pipe-Follows index size (some p) s call =
      harmless _ _ s.host _ (still s.host) (to_hold-due s.archive.sync.tempfile _)

  at_once-Follows :
      (r : Result ℕ × AsyncState) (h : Host) (call : Call U)
      → Still h r.1.host
      → let (job, s') = at_once {U = U} r in From (begun call) h job s'.host
  unfolding at_once
  at_once-Follows (r, s) h call k = harmless _ _ h s.host k refl

  open_on-Follows :
      (os : OsName) (index size : ℕ) (s : AsyncState) (call : Call U)
      → let (job, s') = open_on C P {U = U} os index size s in From (begun call) s.host job s'.host
  unfolding open_on
  open_on-Follows posix index size s call = make_pipe-Follows index size s.archive.path s call
  open_on-Follows nt index size s call =
      at_once-Follows (opened_by C P nt index size s) s.host call
        (opened_by-Still s.host C P nt index size s (λ e. cc) (still s.host))
  open_on-Follows other_os index size s call =
      at_once-Follows (opened_by C P other_os index size s) s.host call
        (opened_by-Still s.host C P other_os index size s (λ e. cc) (still s.host))

  shaken-Follows :
      (r : Result Bytes) (o : Option ℕ) (c : Pending) (s : AsyncState)
      → let (job, s') = shaken {U = U} r o c s in From (shaking o c) s.host job s'.host
  unfolding shaken hand_out undo_ends release_some
  shaken-Follows (ok bytes) o c s = harmless _ _ s.host _ (Goes-append s.host.streams _, refl) refl
  shaken-Follows (err exc) o c s = harmless _ _ s.host _ (still s.host) (let_go-due o _)

  shut-Follows :
      (address : ℕ) (b : Bool) (found : Option Piped) (s : AsyncState)
      → get_elem? s.host.streams address ≡ found
      → let (job, s') = shut {U = U} address b found s in
        From (shutting address b) s.host job s'.host
  unfolding shut Stream.close
  shut-Follows address b none s there = harmless _ _ s.host s.host (still s.host) refl
  shut-Follows address b (some p) s there =
      harmless _ _ s.host _ (Goes-set s.host.streams address p _ there (inl refl), refl)
        (let_go-due _ _)

  test_closed-due :
      (address : ℕ) (found : Option Piped) → job_due (test_closed {U = U} address found) t ≡ 0
  unfolding test_closed
  test_closed-due address none = refl
  test_closed-due address (some p) = refl

  read_piped-Follows :
      (address : ℕ) (size : ℤ) (found : Option Piped) (s : AsyncState) (call : Call U)
      → get_elem? s.host.streams address ≡ found
      → let (job, s') = read_piped {U = U} address size found s in
        From (begun call) s.host job s'.host
  unfolding read_piped use_piped
  read_piped-Follows address size none s call there = harmless _ _ s.host s.host (still s.host) refl
  read_piped-Follows address size (some p) s call there =
      let c = calls_read (some size) in
      harmless _ _ s.host _
        (
          Goes-set s.host.streams address p (used c p) there
              (inr ((after_call-Alike c p.stream).0, used-claim c p)),
          refl,
        )
        (read_answer-due _)

  after_count-due :
      (u : ℕ) (answer : Answer) (last : Bool)
      → job_due (after_count {U = U} u answer last) t ≡ one_if last u t
  unfolding after_count
  after_count-due u answer true = refl
  after_count-due u answer false = refl

  begin_call-Follows :
      (call : Call U) (s : AsyncState) (u : U)
      → let (job, s', u') = begin_call C P call (s, u) in From (begun call) s.host job s'.host
  unfolding begin_call with_user extract_step
  begin_call-Follows (open_stream index size) s u =
      open_on-Follows P.os_name index size s (open_stream index size)
  begin_call-Follows (close_opened address) s u =
      harmless _ _ s.host s.host (still s.host)
        (test_closed-due address (get_elem? s.host.streams address))
  begin_call-Follows (read_opened address size) s u =
      read_piped-Follows address size (get_elem? s.host.streams address) s
        (read_opened address size) refl
  begin_call-Follows (read_entry index) s u =
      harmless _ _ s.host s.host (still s.host) (read_answer-due _)
  begin_call-Follows (extract_all args progress) s u =
      harmless _ _ s.host _ (still s.host) (report_answer-due _)

  pub advance-Follows :
      (base due : ℕ → ℕ) (job : Job U) (s : AsyncState) (u : U)
      → other ≤ base t
      → Fits base due job s.host
      → let (job', s', u') = advance C P job (s, u) in From job s.host job' s'.host
  unfolding advance give_up_claim
  advance-Follows base due (begun call) s u fewer k = begin_call-Follows call s u
  advance-Follows base due (holding v c) s u fewer k = record {
    goes = Goes-same s.host.streams _ (hold-elsewhere v s.host).0;
    lives = λ claimed none_due l. (hold-Lives t v path s.host l, none_due);
  }
  advance-Follows base due (shaking o c) s u fewer k = shaken-Follows _ o c s
  advance-Follows base due (shutting a b) s u fewer k =
      shut-Follows a b (get_elem? s.host.streams a) s refl
  advance-Follows base due (releasing v answer) s u fewer k =
      let f =
        count_down-Follows t path other base _ v rest s.host fewer
          (Counts-cong _ _ _ _ s.host k (λ w. omega arith) (λ w. refl)) in
      record {
        goes = f.goes;
        lives = λ claimed none_due l.
            let (l', none_left) = f.lives claimed (omega arith) l in
            (l', omega (arith, none_left, after_count-due v answer (count_down v s.host).0));
      }
  advance-Follows base due (deleting v answer) s u fewer k =
      delete-Follows t path other v _ _ s.host (omega arith)
  advance-Follows base due (over answer) s u fewer k =
      harmless _ _ s.host s.host (still s.host) refl
