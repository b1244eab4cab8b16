-- ===== src/Async/Overlap/Moves/Lifetime.antt =====
-- Temporary files under any schedule of overlapping calls.
use newtua_py.Base.{ℕ, ◌≡◌, true, none, some, get_elem?}
use newtua_py.Host.{Piped}
use newtua_py.Async.Overlap.{Answer, Job, over}
use newtua_py.Async.Overlap.Moves.{idle, Overlap}

-- All jobs are done, the loop is free, the archive has let go and the streams are closed.
pub record Settled {U : Type 0} (o : Overlap U) : Type 0 where
  pub jobs_over :
      (k : ℕ) (job : Job U)
      → get_elem? o.jobs k ≡ some job
      → (answer : Answer) × (job ≡ over answer)
  pub loop_free : o.loop ≡ idle
  pub has_let_go : o.state.archive.sync.tempfile ≡ none
  pub streams_closed :
      (a : ℕ) (q : Piped) → get_elem? o.state.host.streams a ≡ some q → q.stream.closed ≡ true
