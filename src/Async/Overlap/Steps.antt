-- ===== src/Async/Overlap/Steps.antt =====
-- One step of a job, and the claims on temporary files.
use newtua_py.Stream.{claim_of}
use newtua_py.Stream.Kept.{calls_read}
use newtua_py.Host.Used.{use_piped, used, used-claim}
use newtua_py.Base.Int.{ℤ}
use newtua_py.Base.{
  if◌then◌else◌, ℕ, ◌+◌, ◌≡◌, refl, ap, arith, String, Bool, true, false, Option, none, some, [],
  ◌∷◌, ◌++◌, get_elem?, set,
}
use newtua_py.Errors.{Result, ok, err}
use newtua_py.Exec.Keeps.{Keeps, Keeps-bind, Keeps-gets, Keeps-lift}
use newtua_py.Listing.{Bytes}
use newtua_py.Stream
use newtua_py.Stream.{pipe_stream}
use newtua_py.Host.{Disk, Host, Piped, close_fd, release_some}
use newtua_py.Host.Claims.{one}
use newtua_py.Host.Counts.{Counts, Counts-cong, Counts-elsewhere}
use newtua_py.Host.Owners.{
  held_by, claim, stream_claims, stream_claims-append_one, stream_claims-set,
}
use newtua_py.Host.Pipes.{undo_ends, hand_out, pipe_windows, adopt_handle}
use newtua_py.Host.Locked.{count_down}
use newtua_py.Host.Locked.Kept.{count_down-elsewhere, one_if, count_down-Counts}
use newtua_py.Async.{AsyncState}
use newtua_py.Async.Overlap.{
  shutting, test_closed, read_answer, read_piped, flag_is, Answer, closed, Call, Pending, Job,
  begun, holding, shaking, releasing, deleting, over, let_go, to_hold, make_pipe, shaken, shut,
  at_once, give_up_claim, after_count,
}

-- The claims that a job holds, and the deletions that it has still to make.
abbrev pub job_claims : {U : Type 0} → Job U → ℕ → ℕ
job_claims (begun call) t = 0
job_claims (holding u c) t = 0
job_claims (shaking o c) t = held_by o t
job_claims (shutting a b) t = 0
job_claims (releasing u answer) t = one u t
job_claims (deleting u answer) t = 0
job_claims (over answer) t = 0

abbrev pub job_due : {U : Type 0} → Job U → ℕ → ℕ
job_due (begun call) t = 0
job_due (holding u c) t = 0
job_due (shaking o c) t = 0
job_due (shutting a b) t = 0
job_due (releasing u answer) t = 0
job_due (deleting u answer) t = one u t
job_due (over answer) t = 0

-- The counters are right, with one job's claims beside those of the streams and of others.
abbrev pub Fits : {U : Type 0} → (ℕ → ℕ) → (ℕ → ℕ) → Job U → Host → Type 0
Fits base due job h =
    Counts (λ t. base t + (stream_claims h.streams t + job_claims job t))
      (λ t. due t + job_due job t) h

-- What was tested is still so, so the claim is the stream's.
claim_flagged :
    (already_closed : Bool) (p : Piped)
    → flag_is already_closed (some p) ≡ true
    → (if already_closed then none else claim_of p.stream.tally) ≡ claim p
unfolding flag_is
claim_flagged true p flag = rw flag refl
claim_flagged false p flag = ground arith

module _ (base due : ℕ → ℕ) where
  handed_out :
      (fd : ℕ) (rest : Bytes) (expected o : Option ℕ) (h : Host)
      → Counts (λ t. base t + (stream_claims h.streams t + held_by o t)) (λ t. due t + 0) h
      → Counts
          (λ t. base t + (stream_claims (hand_out fd rest expected o h).streams t + 0))
          (λ t. due t + 0)
          (hand_out fd rest expected o h)
  unfolding hand_out
  handed_out fd rest expected o h c =
      let p : Piped = record { fd = fd; stream = pipe_stream rest expected o } in
      Counts-elsewhere _ _ h (close_fd (fd + 1) h.open_fds) h.next_fd (h.streams ++ p ∷ []) (
        Counts-cong _ _ _ _ h c (λ t. omega (arith, stream_claims-append_one h.streams p t))
          (λ t. refl))

module _ (U : Type 0) (base due : ℕ → ℕ) where
  -- A job that claims nothing goes on to one that claims nothing.
  pub unclaimed :
      (job job' : Job U) (h : Host)
      → ((t : ℕ) → job_claims job t ≡ job_claims job' t)
      → ((t : ℕ) → job_due job t ≡ job_due job' t)
      → Fits base due job h
      → Fits base due job' h
  unclaimed job job' h same same' c =
      Counts-cong _ _ _ _ h c (λ t. omega (arith, same t)) (λ t. omega (arith, same' t))

  pub let_go-Fits :
      (o : Option ℕ) (answer : Answer) (h : Host)
      → Counts (λ t. base t + (stream_claims h.streams t + held_by o t)) (λ t. due t + 0) h
      → Fits base due (let_go {U = U} o answer) h
  let_go-Fits none answer h c = c
  let_go-Fits (some t) answer h c = c

  pub to_hold-Fits :
      (o : Option ℕ) (c : Pending) (h : Host)
      → Counts (λ t. base t + (stream_claims h.streams t + 0)) (λ t. due t + 0) h
      → Fits base due (to_hold {U = U} o c) h
  unfolding to_hold
  to_hold-Fits none c h k = k
  to_hold-Fits (some t) c h k = k

  pub make_pipe-Fits :
      (index size : ℕ) (path : Option String) (s : AsyncState) (call : Call U)
      → Fits base due (begun call) s.host
      → let (job, s') = make_pipe {U = U} index size path s in Fits base due job s'.host
  unfolding make_pipe
  make_pipe-Fits index size none s call c = c
  make_pipe-Fits index size (some path) s call c =
      to_hold-Fits s.archive.sync.tempfile _ _ (Counts-elsewhere _ _ s.host _ _ s.host.streams c)

  pub shaken-Fits :
      (r : Result Bytes) (o : Option ℕ) (c : Pending) (s : AsyncState)
      → Fits {U = U} base due (shaking o c) s.host
      → let (job, s') = shaken {U = U} r o c s in Fits base due job s'.host
  unfolding shaken undo_ends release_some
  shaken-Fits (ok rest) o c s k =
      handed_out base due c.read_fd rest (some c.expected_size) o s.host k
  shaken-Fits (err exc) o c s k =
      let_go-Fits o _ _ (Counts-elsewhere _ _ s.host _ s.host.next_fd s.host.streams k)

  pub test_closed-Fits :
      (address : ℕ) (found : Option Piped) (h : Host) (call : Call U)
      → Fits base due (begun call) h
      → Fits base due (test_closed {U = U} address found) h
  unfolding test_closed
  test_closed-Fits address none h call c = c
  test_closed-Fits address (some p) h call c = c

  read_answer-Fits :
      (r : Result Bytes) (h : Host) (call : Call U)
      → Fits base due (begun call) h
      → Fits base due (read_answer {U = U} r) h
  unfolding read_answer
  read_answer-Fits (ok bytes) h call c = c
  read_answer-Fits (err exc) h call c = c

  pub read_piped-Fits :
      (address : ℕ) (size : ℤ) (found : Option Piped) (s : AsyncState) (call : Call U)
      → get_elem? s.host.streams address ≡ found
      → Fits base due (begun call) s.host
      → let (job, s') = read_piped {U = U} address size found s in Fits base due job s'.host
  unfolding read_piped use_piped
  read_piped-Fits address size none s call there c = c
  read_piped-Fits address size (some p) s call there c =
      let p' : Piped = used (calls_read (some size)) p in
      read_answer-Fits _ _ call (
        Counts-elsewhere _ _ s.host s.host.open_fds s.host.next_fd (set s.host.streams address p') (
          Counts-cong _ _ _ _ s.host c
            (λ t. omega (
              arith,
              stream_claims-set s.host.streams address p p' t there,
              ap (λ o. held_by o t) (used-claim (calls_read (some size)) p),
            ))
            (λ t. refl)))

  pub shut-Fits :
      (address : ℕ) (already_closed : Bool) (found : Option Piped) (s : AsyncState)
      → get_elem? s.host.streams address ≡ found
      → flag_is already_closed found ≡ true
      → Fits {U = U} base due (shutting address already_closed) s.host
      → let (job, s') = shut {U = U} address already_closed found s in Fits base due job s'.host
  unfolding shut Stream.close
  shut-Fits address already_closed none s there flag c = c
  shut-Fits address already_closed (some p) s there flag c =
      let p' : Piped = record p { stream = (Stream.close p.stream).1 } in
      let_go-Fits _ closed _ (
        Counts-elsewhere _ _ s.host _ s.host.next_fd (set s.host.streams address p') (
          Counts-cong _ _ _ _ s.host c
            (λ t. omega (
              arith,
              stream_claims-set s.host.streams address p p' t there,
              ap (λ o. held_by o t) (claim_flagged already_closed p flag),
            ))
            (λ t. refl)))

  after_count-Fits :
      (t : ℕ) (answer : Answer) (last : Bool) (h : Host)
      → Counts (λ u. base u + stream_claims h.streams u) (λ u. one_if last t u + due u) h
      → Fits base due (after_count {U = U} t answer last) h
  unfolding after_count
  after_count-Fits t answer true h c = Counts-cong _ _ _ _ h c (λ u. omega arith) (λ u. omega arith)
  after_count-Fits t answer false h c =
      Counts-cong _ _ _ _ h c (λ u. omega arith) (λ u. omega arith)

  pub give_up_claim-Fits :
      (t : ℕ) (answer : Answer) (s : AsyncState)
      → Fits {U = U} base due (releasing t answer) s.host
      → let (job, s') = give_up_claim {U = U} t answer s in Fits base due job s'.host
  unfolding give_up_claim after_count
  give_up_claim-Fits t answer s c =
      let h = s.host in
      let (last, h') = count_down t h in
      after_count-Fits t answer last h' (
        Counts-cong (λ u. base u + stream_claims h.streams u) _ _ _ h'
          (count_down-Counts (λ u. base u + stream_claims h.streams u) due t h
            (Counts-cong _ _ _ _ h c (λ u. omega arith) (λ u. omega arith)))
          (λ u. omega (arith, ap (λ ps. stream_claims ps u) (count_down-elsewhere t h).0))
          (λ u. refl))

  pub at_once-Fits :
      (r : Result ℕ × AsyncState)
      → Counts (λ t. base t + stream_claims r.1.host.streams t) due r.1.host
      → let (job, s') = at_once {U = U} r in Fits base due job s'.host
  unfolding at_once
  at_once-Fits (r, s) c = Counts-cong _ _ _ _ s.host c (λ t. omega arith) (λ t. omega arith)

module _ (base due : ℕ → ℕ) where
  abbrev pub Alone : Host → Type 0
  Alone h = Counts (λ t. base t + stream_claims h.streams t) due h

  adopt_handle-Alone :
      (rest : Bytes) (expected : Option ℕ) → Keeps Alone (adopt_handle rest expected)
  unfolding adopt_handle
  adopt_handle-Alone rest expected = record {
    at = λ h c.
        let p : Piped = record { fd = h.next_fd; stream = pipe_stream rest expected none } in
        Counts-elsewhere _ _ h (h.next_fd ∷ h.open_fds) (h.next_fd + 1) (h.streams ++ p ∷ []) (
          Counts-cong _ _ _ _ h c (λ t. omega (arith, stream_claims-append_one h.streams p t))
            (λ t. refl));
  }

  pub pipe_windows-Alone :
      (stream_of : Disk → Result Bytes) (expected : Option ℕ)
      → Keeps Alone (pipe_windows stream_of expected)
  unfolding pipe_windows
  pipe_windows-Alone stream_of expected =
      Keeps-bind _ _ (Keeps-gets _)
        λ disk. Keeps-bind _ _ (Keeps-lift _) λ rest. adopt_handle-Alone rest expected
