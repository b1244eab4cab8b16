-- ===== src/Archive/Pipes.antt =====
-- Opening one entry as a stream: `open`, `_open_pipe`, `_open_pipe_posix` and `_open_pipe_windows`
-- of python/newtua/_archive.py.
pub mod Kept
use newtua_py.Base.{
  ℕ, ◌+◌, String, Bool, true, false, Option, none, some, List, [], ◌∷◌, ◌++◌, length, if◌then◌else◌,
}
use newtua_py.Base.Int.{ℤ, pos}
use newtua_py.Errors.{
  typed, Exc, Result, ok, err, new, class_of, is_exception, raise_for, not_implemented_error,
}
use newtua_py.Exec.{Exec, pure, raise, lift, gets, modify, continue, ◌>>=◌, ◌>>◌}
use newtua_py.Listing.{Bytes, Entry, Ref, entry, tuple_item, owner_of}
use newtua_py.Stream.{Stream, pipe_stream, from_writer, max_in_memory}
use newtua_py.Stream.Store.{Spooled}
use newtua_py.Host.Pipes.{pipe_posix, pipe_windows}
use newtua_py.Host.{Host, Piped, hold_some, release_some, close_fd}
use newtua_py.Engine.{Engine, OsName, posix, nt, other_os, Platform}
use newtua_py.Archive.{Archive, State, on_host, has_own_path}
use newtua_py.Archive.Opening.{open_reader, listing}
use newtua_py.Archive.Access.{index_of}

-- What `open` returns: a stream over a spool, or the address of one over a pipe.
pub data Opened : Type 0 where
  spooled_stream : Stream → Opened
  piped_stream : ℕ → Opened

module _ (E : Engine) (P : Platform) where
  abbrev Method : Type 0 → Type 0
  Method A = Exec (State E.Reader) A

  -- `_open_pipe_posix`
  unfoldable pub open_pipe_posix : E.Reader → ℕ → Option ℕ → Method ℕ
  open_pipe_posix reader index expected s =
      on_host (pipe_posix (λ disk. E.open_stream reader disk index) s.archive.tempfile expected) s

  -- `_open_pipe_windows`
  unfoldable pub open_pipe_windows : E.Reader → ℕ → Option ℕ → Method ℕ
  open_pipe_windows reader index expected s =
      if has_own_path s.archive.source
      then if P.is_win32
        then on_host (pipe_windows (λ disk. E.open_stream_windows reader disk index) expected) s
        else (err (new not_implemented_error "the Windows streaming path needs a Windows build"), s)
      else (
        err (
            new not_implemented_error
              "stream=True is not supported for in-memory (bytes) or stream sources on Windows; use a file path, or stream=False"),
        s,
      )

  open_pipe_on : OsName → E.Reader → ℕ → Option ℕ → Method ℕ
  open_pipe_on posix reader index expected = open_pipe_posix reader index expected
  open_pipe_on nt reader index expected = open_pipe_windows reader index expected
  open_pipe_on other_os reader index expected =
      raise (new not_implemented_error "stream=True needs POSIX pipes or Windows")

  -- `_open_pipe`
  unfoldable pub open_pipe : E.Reader → ℕ → Option ℕ → Method ℕ
  unfolding open_pipe_on
  open_pipe = open_pipe_on P.os_name

  -- The local function `write_into`.
  write_into : E.Reader → ℕ → State E.Reader → Exec Spooled (Unit {0})
  write_into reader index s f =
      let (r, f') = E.write_entry_to reader s.host.disk index f in (typed r, f')

  open_piped : E.Reader → ℕ → Method Opened
  open_piped reader index = do
    entries ← listing E P
    e ← lift (tuple_item entries (pos index))
    address ← open_pipe reader index (some e.size)
    pure (piped_stream address)

  open_spooled : E.Reader → ℕ → Method Opened
  open_spooled reader index = do
    stream ← (λ s. (from_writer (write_into reader index s) max_in_memory, s))
    pure (spooled_stream stream)

  -- `open`
  unfoldable pub open_entry : Ref → Bool → Method Opened
  unfolding open_piped open_spooled write_into
  open_entry ref stream = do
    reader ← open_reader E P
    index ← index_of E P ref
    if stream then open_piped reader index else open_spooled reader index

  -- `Entry.open`, on the archive that the entry belongs to.
  unfoldable pub entry_open : Entry → Bool → Method Opened
  entry_open e stream = do lift (owner_of e); open_entry (entry e) stream
