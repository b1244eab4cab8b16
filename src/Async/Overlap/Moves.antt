-- ===== src/Async/Overlap/Moves.antt =====
-- Schedules: the event loop awaits calls and leaves the archive, in steps as well, and the jobs have
-- their steps in between.
pub mod Claims
pub mod Streams
pub mod Lifetime
use newtua_py.Base.{
  Bool, not, ◌&&◌, ℕ, true, Option, none, some, List, [], ◌∷◌, ◌++◌, get_elem?, set, if◌then◌else◌,
}
use newtua_py.Host.{Host, Piped}
use newtua_py.Host.Locked.{count_down, delete}
use newtua_py.Engine.{PathCalls, Platform}
use newtua_py.Async.{AsyncState}
use newtua_py.Async.Overlap.{steady, Call, Job, begun, on_host, advance}

-- What the event loop has still to do in `__aexit__`.
pub data Loop : Type 0 where
  idle : Loop
  deletes : ℕ → Loop
  forgets : Loop

-- The archive and the machine, the state of the callbacks, the loop and the jobs so far.
pub record Overlap (U : Type 0) : Type 0 where
  pub state : AsyncState
  pub user : U
  pub loop : Loop
  pub jobs : List (Job U)

abbrev pub begin : {U : Type 0} → AsyncState → U → Overlap U
begin s u = record { state = s; user = u; loop = idle; jobs = [] }

-- `self._sync.close()` up to its `if`, up to the count, and the rest of `__aexit__`.
pub marked_closed : AsyncState → AsyncState
marked_closed s = record s {
  archive = record s.archive {
    sync = record s.archive.sync { reader = none; entries = none; by_name = none; closed = true };
  };
}

pub forgotten : AsyncState → AsyncState
forgotten s = record s {
  archive = record s.archive { sync = record s.archive.sync { tempfile = none }; closed = true };
}

module _ {U : Type 0} where
  pub begin_leaving : Option ℕ → Overlap U → Overlap U
  begin_leaving none o = record o { state = forgotten (marked_closed o.state) }
  begin_leaving (some t) o =
      let s = marked_closed o.state in
      let (last, h) = count_down t s.host in
      record o { state = record s { host = h }; loop = if last then deletes t else forgets }

  -- `__aexit__` begins, if the loop is free, and goes on.
  pub leave : Loop → Overlap U → Overlap U
  leave idle o = begin_leaving o.state.archive.sync.tempfile o
  leave (deletes t) o = o
  leave forgets o = o

  pub go_on : Loop → Overlap U → Overlap U
  go_on idle o = o
  go_on (deletes t) o = record o { state = on_host (delete t) o.state; loop = forgets }
  go_on forgets o = record o { state = forgotten o.state; loop = idle }

  pub submit : Call U → Loop → Overlap U → Overlap U
  submit call idle o = record o { jobs = o.jobs ++ begun call ∷ [] }
  submit call (deletes t) o = o
  submit call forgets o = o

-- Who moves: the loop awaits a call, leaves the archive or goes on with that; or a job has a step.
pub data Move (U : Type 0) : Type 0 where
  awaits : Call U → Move U
  leaves : Move U
  goes_on : Move U
  works : ℕ → Move U

-- Whether a move that closes a stream finds it as its job tested it.
module _ {U : Type 0} where
  pub job_steady : Option (Job U) → Host → Bool
  job_steady none h = true
  job_steady (some job) h = steady job h

  pub move_steady : Overlap U → Move U → Bool
  move_steady o (works k) = job_steady (get_elem? o.jobs k) o.state.host
  move_steady o _ = true

module _ (C : PathCalls) (P : Platform) {U : Type 0} where
  pub work : ℕ → Option (Job U) → Overlap U → Overlap U
  work k none o = o
  work k (some job) o =
      let (job', s, u) = advance C P job (o.state, o.user) in
      record o { state = s; user = u; jobs = set o.jobs k job' }

  unfoldable pub move : Overlap U → Move U → Overlap U
  unfolding marked_closed forgotten begin_leaving leave go_on submit work
  move o (awaits call) = submit call o.loop o
  move o leaves = leave o.loop o
  move o goes_on = go_on o.loop o
  move o (works k) = work k (get_elem? o.jobs k) o

  -- What any schedule comes to.
  unfoldable pub run : Overlap U → List (Move U) → Overlap U
  run o [] = o
  run o (m ∷ ms) = run (move o m) ms

  -- No job of the schedule closes a stream between another's test of that stream and its closing.
  unfoldable pub unraced : Overlap U → List (Move U) → Bool
  unfolding move_steady job_steady
  unraced o [] = true
  unraced o (m ∷ ms) = move_steady o m && unraced (move o m) ms
