-- ===== src/Async/Access.antt =====
-- Streaming, reading and extracting: `open`, `_open_pipe_sync`, `read` and `extract` of
-- `AsyncArchive`, `_AsyncStreamCtx` and `AsyncEntryStream.aclose` (python/newtua/_async.py). The
-- iteration over a stream is `iterate` of Stream.antt.
pub mod Kept
pub mod Selection
use newtua_py.Base.{ℕ, String, Bool, Option, none, some, List, map, if◌then◌else◌}
use newtua_py.Base.Int.{ℤ, pos}
use newtua_py.Errors.{Result, ok, err, new, typed, not_implemented_error}
use newtua_py.Exec.{Exec, pure, raise, lift, gets, ◌>>=◌, ◌>>◌}
use newtua_py.Events.{ProgressEvent, RawEvent, Callback, wrapped}
use newtua_py.Listing.{Bytes, Entry, Ref, resolve_index, resolve_all, tuple_item}
use newtua_py.Host.{Disk, close_stream}
use newtua_py.Host.Pipes.{pipe_posix, pipe_windows}
use newtua_py.Engine.{
  Report, with_state, PathExtraction, PathCalls, OsName, posix, nt, other_os, Platform,
}
use newtua_py.Archive.{has_own_path, wrapper_name_source}
use newtua_py.Async.{AsyncState, AsyncArchive, on_machine, asserted, ensure_ready, str_of}

-- An `_AsyncStreamCtx`: `stream` is the address of the pipe stream that it opened.
pub record AsyncStreamCtx : Type 0 where
  pub index : ℕ
  pub size : ℕ
  pub stream : Option ℕ

-- `open`
unfoldable pub open_entry : Ref → Exec AsyncState AsyncStreamCtx
open_entry ref = do
  ensure_ready
  entries ← gets (λ s. s.archive.entries)
  index ← lift (resolve_index entries ref)
  e ← lift (tuple_item entries (pos index))
  pure (record { index = index; size = e.size; stream = none })

-- `AsyncEntryStream.aclose`, of the stream at an address.
unfoldable pub aclose : ℕ → AsyncState → AsyncState
aclose address s = record s { host = close_stream address s.host }

-- `_AsyncStreamCtx.__aexit__`
unfoldable pub ctx_aexit : AsyncStreamCtx → AsyncState → AsyncState
ctx_aexit ctx s = elim ctx.stream [ none ↦ s | some address ↦ aclose address s ]

-- `[_resolve_index(self._entries, ref) for ref in selection]`, if there is a selection.
selected : List Entry → Option (List Ref) → Exec AsyncState (Option (List ℤ))
selected entries none = pure none
selected entries (some refs) = do
  indices ← lift (resolve_all entries refs)
  pure (some (map pos indices))

module _ (C : PathCalls) (P : Platform) where
  -- The two branches of `_open_pipe_sync`.
  open_pipe_posix : String → ℕ → ℕ → Exec AsyncState ℕ
  open_pipe_posix p index expected s =
      on_machine
        (pipe_posix (λ disk. C.open_stream_path disk p index s.archive.password s.archive.encoding)
          s.archive.sync.tempfile (some expected))
        s

  open_pipe_windows : String → ℕ → ℕ → Exec AsyncState ℕ
  open_pipe_windows p index expected s =
      if has_own_path s.archive.sync.source
      then if P.is_win32
        then on_machine
            (pipe_windows
              (λ disk.
                C.open_stream_windows_path disk p index s.archive.password s.archive.encoding)
              (some expected))
            s
        else (err (new not_implemented_error "the Windows streaming path needs a Windows build"), s)
      else (
        err (
            new not_implemented_error
              "stream is not supported for in-memory (bytes) or stream sources on Windows; use a file path"),
        s,
      )

  unfoldable pub open_pipe_on : OsName → String → ℕ → ℕ → Exec AsyncState ℕ
  unfolding open_pipe_windows open_pipe_posix
  open_pipe_on posix p index expected = open_pipe_posix p index expected
  open_pipe_on nt p index expected = open_pipe_windows p index expected
  open_pipe_on other_os p index expected =
      raise (new not_implemented_error "async streaming needs POSIX pipes or Windows")

  -- `_open_pipe_sync`
  unfoldable pub open_pipe_sync : ℕ → ℕ → Exec AsyncState ℕ
  unfolding open_pipe_on
  open_pipe_sync index expected = do
    at_path ← gets (λ s. s.archive.path)
    p ← lift (asserted at_path)
    open_pipe_on P.os_name p index expected

  -- `_AsyncStreamCtx.__aenter__`
  unfoldable pub ctx_aenter : AsyncStreamCtx → Exec AsyncState AsyncStreamCtx
  ctx_aenter ctx = do
    address ← open_pipe_sync ctx.index ctx.size
    pure (record ctx { stream = some address })

  unfoldable pub call_read : ℕ → Exec AsyncState Bytes
  call_read index s =
      let a = s.archive in
      (typed (C.read_path s.host.disk (str_of a.path) index a.password a.encoding), s)

  -- `read`
  unfoldable pub read : Ref → Exec AsyncState Bytes
  unfolding call_read
  read ref = do
    ensure_ready
    entries ← gets (λ s. s.archive.entries)
    index ← lift (resolve_index entries ref)
    call_read index

  -- The engine's call: it changes the disk and the state of the user's callback.
  unfoldable pub call_extract :
      {U : Type 0}
      → PathExtraction
      → Option (Callback U ProgressEvent)
      → U
      → Exec AsyncState (Result Report × U)
  call_extract {U} args progress u s =
      let (r, after) = C.extract_path U args (wrapped progress) (s.host.disk, u) in
      (with_state after.1 (typed r), record s { host = record s.host { disk = after.0 } })

  -- `extract`
  unfoldable pub extract :
      {U : Type 0}
      → String
      → Option (List Ref)
      → Bool
      → Bool
      → Bool
      → Option (Callback U ProgressEvent)
      → U
      → Exec AsyncState (Result Report × U)
  unfolding selected call_extract
  extract dest selection wrapper strict preserve progress u = do
    ensure_ready
    a ← gets (λ s. s.archive)
    indices ← selected a.entries selection
    call_extract
        (record {
          archive = str_of a.path;
          dest = dest;
          selection = indices;
          wrapper = wrapper;
          strict = strict;
          preserve = preserve;
          name_source = wrapper_name_source a.sync.source;
          password = a.password;
          encoding = a.encoding;
        })
        progress u
