-- ===== src/Archive/Pipes/Kept.antt =====
-- Invariants of opening an entry.
use newtua_py.Base.{ℕ, Bool, Option, some}
use newtua_py.Errors.{Result}
use newtua_py.Exec.Keeps.{Keeps, Keeps-bind, Keeps-if, Keeps-lift, Keeps-pure, Keeps-raise, either}
use newtua_py.Listing.{Bytes, Ref}
use newtua_py.Host.{Disk, Host}
use newtua_py.Host.Pipes.{pipe_posix, pipe_windows}
use newtua_py.Engine.{Engine, OsName, posix, nt, other_os, Platform}
use newtua_py.Archive.{Archive, State, on_host, has_own_path}
use newtua_py.Archive.Opening.{open_reader, listing}
use newtua_py.Archive.Access.Lifetime.{index_of-Keeps}
use newtua_py.Archive.Pipes.{
  open_pipe_posix, open_pipe_windows, open_pipe_on, open_pipe, open_piped, open_spooled, open_entry,
}

-- An invariant of the archive and the machine, which the making of a stream keeps on the machine.
module _ (E : Engine) (P : Platform) (J : Archive E.Reader → Host → Type 0)
    (on_posix : (a : Archive E.Reader) (open_stream : Disk → Result Bytes) (expected : Option ℕ)
      → Keeps (J a) (pipe_posix open_stream a.tempfile expected))
    (on_windows : (a : Archive E.Reader) (open_stream : Disk → Result Bytes) (expected : Option ℕ)
      → Keeps (J a) (pipe_windows open_stream expected)) where
  abbrev I : State E.Reader → Type 0
  I s = J s.archive s.host

  open_pipe_posix-Keeps :
      (reader : E.Reader) (index : ℕ) (expected : Option ℕ)
      → Keeps I (open_pipe_posix E P reader index expected)
  unfolding open_pipe_posix
  open_pipe_posix-Keeps reader index expected = record {
    at = λ s. (on_posix s.archive (λ disk. E.open_stream reader disk index) expected).at s.host;
  }

  open_pipe_windows-Keeps :
      (reader : E.Reader) (index : ℕ) (expected : Option ℕ)
      → Keeps I (open_pipe_windows E P reader index expected)
  unfolding open_pipe_windows
  open_pipe_windows-Keeps reader index expected = record {
    at = λ s h.
        let build = pipe_windows (λ disk. E.open_stream_windows reader disk index) expected in
        either I (has_own_path s.archive.source) _ _
          (either I P.is_win32 (on_host build s) _
            ((on_windows s.archive (λ disk. E.open_stream_windows reader disk index) expected).at
              s.host h)
            h)
          h;
  }

  open_pipe_on-Keeps :
      (os : OsName) (reader : E.Reader) (index : ℕ) (expected : Option ℕ)
      → Keeps I (open_pipe_on E P os reader index expected)
  unfolding open_pipe_on
  open_pipe_on-Keeps posix = open_pipe_posix-Keeps
  open_pipe_on-Keeps nt = open_pipe_windows-Keeps
  open_pipe_on-Keeps other_os = λ reader index expected. Keeps-raise _

  module _ (opens : Keeps I (open_reader E P)) (lists : Keeps I (listing E P)) where
    open_piped-Keeps : (reader : E.Reader) (index : ℕ) → Keeps I (open_piped E P reader index)
    unfolding open_piped open_pipe
    open_piped-Keeps reader index = Keeps-bind _ _ lists λ entries.
        Keeps-bind _ _ (Keeps-lift _) λ e.
          Keeps-bind _ _ (open_pipe_on-Keeps P.os_name reader index (some e.size))
            λ address. Keeps-pure _

    open_spooled-Keeps : (reader : E.Reader) (index : ℕ) → Keeps I (open_spooled E P reader index)
    unfolding open_spooled
    open_spooled-Keeps reader index =
        Keeps-bind _ _ (record { at = λ s h. h }) λ stream. Keeps-pure _

    pub open_entry-Keeps : (ref : Ref) (stream : Bool) → Keeps I (open_entry E P ref stream)
    unfolding open_entry
    open_entry-Keeps ref stream = Keeps-bind _ _ opens λ reader.
        Keeps-bind _ _ (index_of-Keeps E P opens lists ref) λ index.
          Keeps-if stream _ _ (open_piped-Keeps reader index) (open_spooled-Keeps reader index)
