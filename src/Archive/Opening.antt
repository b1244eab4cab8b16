-- ===== src/Archive/Opening.antt =====
-- Opening, listing, re-keying and closing: `_backing_path`, `_open`, `_listing`, the `password`
-- setter and `close` of python/newtua/_archive.py.
pub mod Lifetime
pub mod Steps
pub mod Kept
use newtua_py.Base.{
  ℕ, ◌+◌, String, Bool, true, false, not, ◌&&◌, Option, none, some, List, [], ◌∷◌, length,
  get_elem?, if◌then◌else◌,
}
use newtua_py.Errors.{
  Exc, Result, ok, err, new, class_of, is_exception, raise_for, value_error, file_not_found_error,
}
use newtua_py.Exec.{Exec, pure, raise, lift, gets, modify, raise_if, continue, ◌>>=◌, ◌>>◌}
use newtua_py.Listing.{Bytes, Entry, Index, entries_from_raw}
use newtua_py.Host.{Disk, exists, TempFile, Host, release_some, add_temp}
use newtua_py.Engine.{Engine, Platform}
use newtua_py.Archive.{Archive, State, Source, path, bytes, file, has_own_path}

module _ (R : Type 0) where
  -- `self._tempfile is not None and self._tempfile.path.exists()`, with that path.
  present : Disk → Option TempFile → Option String
  present d none = none
  present d (some f) = if exists f.path d then some f.path else none

  pub spilled_path : Host → Option ℕ → Option String
  spilled_path h none = none
  spilled_path h (some t) = present h.disk (get_elem? h.temps t)

  -- `self._tempfile = _TempFile(Path(fh.name))` behind the write of the whole content.
  spill_all : String → Bytes → Exec (State R) String
  spill_all name content s = (
    ok name,
    record s {
      archive = record s.archive { tempfile = some (length s.host.temps) };
      host = add_temp name content s.host;
    },
  )

  -- What `copyfileobj` has taken from a file object is gone from it.
  drained : Source → Source
  drained (file name _ fault) = file name [] fault
  drained other = other

  -- The copy ends in an exception: the named file stays, and nothing counts its holders.
  spill_broken : String → Bytes → Exc → Exec (State R) String
  spill_broken name content exc s =
      (err exc, record s { host = record s.host { disk = (name, content) ∷ s.host.disk } })

  spill_source : String → Source → Exec (State R) String
  spill_source name (path p) = pure name
  spill_source name (bytes content) = spill_all name content
  spill_source name (file attr rest none) = spill_all name rest
  spill_source name (file attr rest (some exc)) = spill_broken name rest exc

  drain : Exec (State R) (Unit {0})
  drain =
      modify (λ s. record s { archive = record s.archive { source = drained s.archive.source } })

  spill : String → Exec (State R) String
  spill name s = (do let source = s.archive.source; drain; spill_source name source) s

  reuse_or_spill : String → Option String → Exec (State R) String
  reuse_or_spill name (some p) = pure p
  reuse_or_spill name none = spill name

module _ (P : Platform) (R : Type 0) where
  backing_path_of : Source → Exec (State R) String
  backing_path_of (path p) s = (ok (P.path_text p), s)
  backing_path_of _ s =
      reuse_or_spill R (P.temp_name s.host.disk) (spilled_path R s.host s.archive.tempfile) s

  -- `_backing_path`
  unfoldable pub backing_path : Exec (State R) String
  unfolding backing_path_of reuse_or_spill spill spill_source spill_all spill_broken drain drained
      spilled_path present
  backing_path s = backing_path_of s.archive.source s

-- `self._tempfile.release(); self._tempfile = None`, if there is one.
unfoldable pub drop_tempfile : {R : Type 0} → State R → State R
drop_tempfile s = record s {
  archive = record s.archive { tempfile = none };
  host = release_some s.archive.tempfile s.host;
}

-- `close`
unfoldable pub close : {R : Type 0} → State R → State R
unfolding drop_tempfile
close s = drop_tempfile (record s {
  archive = record s.archive { reader = none; entries = none; by_name = none; closed = true };
})

-- The setter of `password`
unfoldable pub set_password : {R : Type 0} → Option String → State R → State R
set_password value s = record s {
  archive = record s.archive { password = value; reader = none; entries = none; by_name = none };
}

module _ (E : Engine) (P : Platform) where
  -- Behind the call of `_newtua.open`.
  keep_reader : Result E.Reader → Exec (State E.Reader) E.Reader
  keep_reader (ok reader) s =
      (ok reader, record s { archive = record s.archive { reader = some reader } })
  keep_reader (err exc) s =
      if is_exception (class_of exc) then (raise_for exc, drop_tempfile s) else (err exc, s)

  unfoldable pub call_open : String → Exec (State E.Reader) E.Reader
  unfolding keep_reader
  call_open p s = keep_reader (E.open_archive s.host.disk p s.archive.password s.archive.encoding) s

  reopen : Exec (State E.Reader) E.Reader
  reopen = do
    p ← backing_path P E.Reader
    missing ← gets (λ s. has_own_path s.archive.source && not (exists p s.host.disk))
    if missing then raise (new file_not_found_error p) else call_open p

  open_if_needed : Option E.Reader → Exec (State E.Reader) E.Reader
  open_if_needed (some reader) = pure reader
  open_if_needed none = reopen

  -- `_open`
  unfoldable pub open_reader : Exec (State E.Reader) E.Reader
  unfolding open_if_needed reopen call_open keep_reader
  open_reader s =
      if s.archive.closed
      then (err (new value_error "operation on a closed archive"), s)
      else open_if_needed s.archive.reader s

  keep_listing : List Entry × Index → Exec (State E.Reader) (List Entry)
  keep_listing (entries, by_name) s = (
    ok entries,
    record s { archive = record s.archive { entries = some entries; by_name = some by_name } },
  )

  list_if_needed : Option (List Entry) → Exec (State E.Reader) (List Entry)
  list_if_needed (some entries) = pure entries
  list_if_needed none = do
    reader ← open_reader
    self_id ← gets (λ s. s.archive.self_id)
    built ← lift (entries_from_raw P.fromtimestamp (E.entries reader) (some self_id))
    keep_listing built

  -- `_listing`; `__enter__` is this with the archive itself as its value.
  unfoldable pub listing : Exec (State E.Reader) (List Entry)
  unfolding list_if_needed keep_listing
  listing s = list_if_needed s.archive.entries s
