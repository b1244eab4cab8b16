-- ===== src/Async/Session.antt =====
-- One entry streamed whole: `async with archive.open(entry) as stream`, with an iteration over the
-- stream in the block (`AsyncEntryStream` and `_AsyncStreamCtx` of python/newtua/_async.py).
use newtua_py.Base.{ℕ, Option, none, some, get_elem?, set}
use newtua_py.Errors.{err, new, value_error}
use newtua_py.Exec.{Exec, ◌>>=◌}
use newtua_py.Listing.{Bytes, Ref}
use newtua_py.Stream.{Stream, iterate}
use newtua_py.Host.{Piped}
use newtua_py.Engine.{PathCalls, Platform}
use newtua_py.Async.{AsyncState}
use newtua_py.Async.Access.{AsyncStreamCtx, open_entry, ctx_aenter, ctx_aexit}
pub mod Steps
pub mod Whole

-- A method of the stream that a context opened; there is one inside the block.
unfoldable pub stream_at : {A : Type 0} → ℕ → Exec Stream A → Option Piped → Exec AsyncState A
stream_at address m none s = (err (new value_error "no stream"), s)
stream_at address m (some p) s =
    let (r, stream) = m p.stream in
    (
      r,
      record s {
        host = record s.host {
          streams = set s.host.streams address (record p { stream = stream });
        };
      },
    )

unfoldable pub on_stream : {A : Type 0} → Option ℕ → Exec Stream A → Exec AsyncState A
on_stream none m s = (err (new value_error "no stream"), s)
on_stream (some address) m s = stream_at address m (get_elem? s.host.streams address) s

-- The block, and `__aexit__` behind it, whether it returns or raises.
unfoldable pub block :
    {A : Type 0} → AsyncStreamCtx → (Option ℕ → Exec AsyncState A) → Exec AsyncState A
block ctx body s = let (r, s') = body ctx.stream s in (r, ctx_aexit ctx s')

module _ (C : PathCalls) (P : Platform) where
  -- `async with archive.open(entry) as stream: …`
  unfoldable pub with_stream :
      {A : Type 0} → Ref → (Option ℕ → Exec AsyncState A) → Exec AsyncState A
  with_stream ref body = do ctx ← open_entry ref; entered ← ctx_aenter C P ctx; block entered body

  -- … with an iteration over the stream in the block.
  unfoldable pub stream_whole : ℕ → Ref → Exec AsyncState (Option Bytes)
  stream_whole fuel ref = with_stream ref (λ stream. on_stream stream (iterate fuel))
