-- ===== src/Async/Overlap.antt =====
-- Calls of an entered `AsyncArchive` that overlap (python/newtua/_async.py): each is a job of a
-- worker thread, whose steps come between those of other jobs and between those of `__aexit__` on
-- the event loop. Here are the jobs; the moves are in Moves. A step ends where other threads can see
-- or change what the job looks at next; only a read of a stream and an extraction are one step each.
pub mod Moves
pub mod Steps
pub mod Advance
pub mod Follows
use newtua_py.Base.{
  ℕ, ◌+◌, String, Bool, not, true, false, Option, none, some, List, [], ◌∷◌, ◌++◌, get_elem?,
  length, set, if◌then◌else◌,
}
use newtua_py.Errors.{Exc, Result, ok, err, typed, new, assertion_error}
use newtua_py.Exec.{Exec, lift, ◌>>=◌}
use newtua_py.Events.{ProgressEvent, Callback, wrapped}
use newtua_py.Listing.{Bytes}
use newtua_py.Stream
use newtua_py.Stream.{claim_of}
use newtua_py.Stream.Kept.{calls_read}
use newtua_py.Host.Used.{use_piped}
use newtua_py.Base.Int.{ℤ}
use newtua_py.Host.{Host, Piped, hold, close_fd}
use newtua_py.Host.Pipes.{undo_ends, hand_out}
use newtua_py.Host.Locked.{count_down, delete}
use newtua_py.Engine.{Report, PathExtraction, PathCalls, OsName, posix, nt, other_os, Platform}
use newtua_py.Async.{AsyncState, asserted}
use newtua_py.Async.Access.{open_pipe_on, call_read}

-- What an awaited call comes to.
pub data Answer : Type 0 where
  opened : ℕ → Answer
  closed : Answer
  content : Bytes → Answer
  reported : Report → Answer
  raised : Exc → Answer

-- What is handed to `asyncio.to_thread`, with its arguments.
pub data Call (U : Type 0) : Type 0 where
  open_stream : ℕ → ℕ → Call U
  close_opened : ℕ → Call U
  read_opened : ℕ → ℤ → Call U
  read_entry : ℕ → Call U
  extract_all : PathExtraction → Option (Callback U ProgressEvent) → Call U

-- The local variables of `_open_pipe_sync` once the pipe is made.
pub record Pending : Type 0 where
  pub path : String
  pub index : ℕ
  pub expected_size : ℕ
  pub read_fd : ℕ

-- A job, by what it has still to do.
pub data Job (U : Type 0) : Type 0 where
  begun : Call U → Job U
  holding : ℕ → Pending → Job U
  shaking : Option ℕ → Pending → Job U
  shutting : ℕ → Bool → Job U
  releasing : ℕ → Answer → Job U
  deleting : ℕ → Answer → Job U
  over : Answer → Job U

-- A step on the machine alone.
abbrev pub on_host : (Host → Host) → AsyncState → AsyncState
on_host f s = record s { host = f s.host }

abbrev pub answered : Result ℕ → Answer
answered (ok address) = opened address
answered (err exc) = raised exc

pub flag_is : Bool → Option Piped → Bool
flag_is already_closed none = true
flag_is already_closed (some p) = if already_closed then p.stream.closed else not p.stream.closed

module _ {U : Type 0} where
  -- A claim is given up at the end, if there is one.
  abbrev pub let_go : Option ℕ → Answer → Job U
  let_go none answer = over answer
  let_go (some t) answer = releasing t answer

  after_count : ℕ → Answer → Bool → Job U
  after_count t answer last = if last then deleting t answer else over answer

  pub to_hold : Option ℕ → Pending → Job U
  to_hold none c = shaking none c
  to_hold (some t) c = holding t c

  pub read_answer : Result Bytes → Job U
  read_answer (ok bytes) = over (content bytes)
  read_answer (err exc) = over (raised exc)

  pub report_answer : Result Report → Job U
  report_answer (ok report) = over (reported report)
  report_answer (err exc) = over (raised exc)

  pub at_once : Result ℕ × AsyncState → Job U × AsyncState
  at_once (r, s) = (over (answered r), s)

  -- `os.pipe()`
  pub make_pipe : ℕ → ℕ → Option String → AsyncState → Job U × AsyncState
  make_pipe index size none s = (over (raised (new assertion_error "")), s)
  make_pipe index size (some path) s = (
    to_hold s.archive.sync.tempfile
        (record { path = path; index = index; expected_size = size; read_fd = s.host.next_fd }),
    on_host
        (λ h. record h {
          open_fds = h.next_fd ∷ (h.next_fd + 1) ∷ h.open_fds;
          next_fd = h.next_fd + 2;
        })
        s,
  )

  -- Behind the handshake.
  pub shaken : Result Bytes → Option ℕ → Pending → AsyncState → Job U × AsyncState
  shaken (ok rest) claim c s = (
    over (opened (length s.host.streams)),
    on_host (hand_out c.read_fd rest (some c.expected_size) claim) s,
  )
  shaken (err exc) claim c s =
      (let_go claim (answered (typed (err exc))), on_host (undo_ends c.read_fd none) s)

  -- `already_closed = self.closed` of `_PipeStream.close`.
  pub test_closed : ℕ → Option Piped → Job U
  test_closed address none = over closed
  test_closed address (some p) = shutting address p.stream.closed

  -- `super().close()`, whatever was tested before, up to `self._on_close()`: that is called if the
  -- stream was open when it was tested.
  pub shut : ℕ → Bool → Option Piped → AsyncState → Job U × AsyncState
  shut address already_closed none s = (over closed, s)
  shut address already_closed (some p) s =
      let (_, stream) = Stream.close p.stream in
      (
        let_go (if already_closed then none else claim_of p.stream.tally) closed,
        on_host
            (λ h. record h {
              streams = set h.streams address (record p { stream = stream });
              open_fds = if p.stream.closed then h.open_fds else close_fd p.fd h.open_fds;
            })
            s,
      )

  -- Whether a job that is about to close a stream finds it as it tested it.
  unfoldable pub steady : Job U → Host → Bool
  unfolding flag_is
  steady (shutting address already_closed) h = flag_is already_closed (get_elem? h.streams address)
  steady _ h = true

  -- `AsyncEntryStream.read(size)`.
  pub read_piped : ℕ → ℤ → Option Piped → AsyncState → Job U × AsyncState
  read_piped address size none s = (over closed, s)
  read_piped address size (some p) s = (
    read_answer (Stream.read (some size) p.stream).0,
    on_host (use_piped (calls_read (some size)) address (some p)) s,
  )

  -- `tempfile.release()` up to `self._delete()`.
  pub give_up_claim : ℕ → Answer → AsyncState → Job U × AsyncState
  give_up_claim t answer s =
      (after_count t answer (count_down t s.host).0, on_host (λ h. (count_down t h).1) s)

module _ (C : PathCalls) (P : Platform) where
  pub opened_by : OsName → ℕ → ℕ → Exec AsyncState ℕ
  opened_by os index size s =
      (lift (asserted s.archive.path) >>= λ p. open_pipe_on C P os p index size) s

module _ (C : PathCalls) (P : Platform) {U : Type 0} where
  -- Only the POSIX branch of `_open_pipe_sync` touches what others do.
  pub open_on : OsName → ℕ → ℕ → AsyncState → Job U × AsyncState
  open_on posix index size s = make_pipe index size s.archive.path s
  open_on nt index size s = at_once (opened_by C P nt index size s)
  open_on other_os index size s = at_once (opened_by C P other_os index size s)

  pub extract_step :
      PathExtraction → Option (Callback U ProgressEvent) → AsyncState × U → Job U × AsyncState × U
  extract_step args progress (s, u) =
      let (r, after) = C.extract_path U args (wrapped progress) (s.host.disk, u) in
      (report_answer (typed r), on_host (λ h. record h { disk = after.0 }) s, after.1)

  pub with_user : U → Job U × AsyncState → Job U × AsyncState × U
  with_user u (job, s) = (job, s, u)

  pub begin_call : Call U → AsyncState × U → Job U × AsyncState × U
  begin_call (open_stream index size) (s, u) = with_user u (open_on P.os_name index size s)
  begin_call (close_opened address) (s, u) =
      (test_closed address (get_elem? s.host.streams address), s, u)
  begin_call (read_opened address size) (s, u) =
      with_user u (read_piped address size (get_elem? s.host.streams address) s)
  begin_call (read_entry index) (s, u) = (read_answer (call_read C P index s).0, s, u)
  begin_call (extract_all args progress) (s, u) = extract_step args progress (s, u)

  -- One step of a job.
  unfoldable pub advance : Job U → AsyncState × U → Job U × AsyncState × U
  unfolding begin_call with_user open_on opened_by at_once make_pipe to_hold test_closed read_piped
      shut shaken give_up_claim after_count extract_step read_answer report_answer
  advance (begun call) (s, u) = begin_call call (s, u)
  advance (holding t c) (s, u) = (shaking (some t) c, on_host (hold t) s, u)
  advance (shaking claim c) (s, u) =
      let a = s.archive in
      with_user u
        (shaken (C.open_stream_path s.host.disk c.path c.index a.password a.encoding) claim c s)
  advance (shutting address already_closed) (s, u) =
      with_user u (shut address already_closed (get_elem? s.host.streams address) s)
  advance (releasing t answer) (s, u) = with_user u (give_up_claim t answer s)
  advance (deleting t answer) (s, u) = (over answer, on_host (delete t) s, u)
  advance (over answer) (s, u) = (over answer, s, u)
