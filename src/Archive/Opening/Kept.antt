-- ===== src/Archive/Opening/Kept.antt =====
-- Invariants of `_open`.
use newtua_py.Base.{◌≡◌, refl, ◌∙◌, String, Option, none, some}
use newtua_py.Errors.{Result, ok, err, class_of, is_exception, raise_for}
use newtua_py.Exec.{◌>>=◌}
use newtua_py.Exec.Keeps.{Keeps, keeps_rules, Keeps-bind, Keeps-gets, Keeps-if, Keeps-raise, either}
use newtua_py.Host.{add_temp}
use newtua_py.Host.Owners.{release_some-elsewhere}
use newtua_py.Engine.{Engine, Platform}
use newtua_py.Archive.{State, Source, path, bytes, file}
use newtua_py.Archive.Opening.{
  spill_all, spill_broken, spill_source, spill, drain, drained, reuse_or_spill, backing_path_of,
  backing_path, drop_tempfile, keep_reader, call_open, reopen, open_if_needed, open_reader,
}

-- The fields of `s` are those of `o`.
pub record Kept {R : Type 0} (o s : State R) : Type 0 where
  pub entries : s.archive.entries ≡ o.archive.entries
  pub by_name : s.archive.by_name ≡ o.archive.by_name
  pub self_id : s.archive.self_id ≡ o.archive.self_id
  pub streams : s.host.streams ≡ o.host.streams
  pub open_fds : s.host.open_fds ≡ o.host.open_fds
  pub next_fd : s.host.next_fd ≡ o.host.next_fd

moved :
    {R : Type 0} {o s t : State R}
    → t.archive.entries ≡ s.archive.entries
    → t.archive.by_name ≡ s.archive.by_name
    → t.archive.self_id ≡ s.archive.self_id
    → t.host.streams ≡ s.host.streams
    → t.host.open_fds ≡ s.host.open_fds
    → t.host.next_fd ≡ s.host.next_fd
    → Kept o s
    → Kept o t
moved a b c d e f h = record {
  entries = a ∙ h.entries;
  by_name = b ∙ h.by_name;
  self_id = c ∙ h.self_id;
  streams = d ∙ h.streams;
  open_fds = e ∙ h.open_fds;
  next_fd = f ∙ h.next_fd;
}

pub Kept-refl : {R : Type 0} (s : State R) → Kept s s
Kept-refl s = record {
  entries = refl;
  by_name = refl;
  self_id = refl;
  streams = refl;
  open_fds = refl;
  next_fd = refl;
}

module _ {R : Type 0} {o : State R} where
  drop_tempfile-Kept : (s : State R) → Kept o s → Kept o (drop_tempfile s)
  unfolding drop_tempfile
  drop_tempfile-Kept s h =
      let (a, b, c) = release_some-elsewhere s.archive.tempfile s.host in
      moved refl refl refl a b c h

  spill_source-Kept :
      (name : String) (from : Source) (s : State R)
      → Kept o s
      → Kept o (spill_source R name from s).1
  unfolding spill_source ◌>>=◌ spill_all spill_broken add_temp
  spill_source-Kept name (path p) s h = h
  spill_source-Kept name (bytes content) s h = moved refl refl refl refl refl refl h
  spill_source-Kept name (file attr rest none) s h = moved refl refl refl refl refl refl h
  spill_source-Kept name (file attr rest (some exc)) s h = moved refl refl refl refl refl refl h

  spill-Kept : (name : String) (s : State R) → Kept o s → Kept o (spill R name s).1
  unfolding spill ◌>>=◌ drain
  spill-Kept name s h =
      spill_source-Kept name s.archive.source
        (record s { archive = record s.archive { source = drained R s.archive.source } })
        (moved refl refl refl refl refl refl h)

  reuse_or_spill-Kept :
      (name : String) (at_path : Option String) (s : State R)
      → Kept o s
      → Kept o (reuse_or_spill R name at_path s).1
  unfolding reuse_or_spill ◌>>=◌
  reuse_or_spill-Kept name none s h = spill-Kept name s h
  reuse_or_spill-Kept name (some p) s h = h

module _ (P : Platform) {R : Type 0} {o : State R} where
  backing_path_of-Kept :
      (from : Source) (s : State R) → Kept o s → Kept o (backing_path_of P R from s).1
  unfolding backing_path_of
  backing_path_of-Kept (path p) s h = h
  backing_path_of-Kept _ s h = reuse_or_spill-Kept _ _ s h

  pub backing_path-Kept : Keeps (Kept o) (backing_path P R)
  unfolding backing_path
  backing_path-Kept = record { at = λ s. backing_path_of-Kept s.archive.source s }

module _ (E : Engine) (P : Platform) {o : State E.Reader} where
  keep_reader-Kept :
      (r : Result E.Reader) (s : State E.Reader) → Kept o s → Kept o (keep_reader E P r s).1
  unfolding keep_reader
  keep_reader-Kept (ok reader) s h = moved refl refl refl refl refl refl h
  keep_reader-Kept (err exc) s h =
      either (Kept o) (is_exception (class_of exc)) (raise_for exc, drop_tempfile s) (err exc, s)
        (drop_tempfile-Kept s h) h

  call_open-Kept : (p : String) → Keeps (Kept o) (call_open E P p)
  unfolding call_open
  call_open-Kept p = record { at = λ s h. keep_reader-Kept _ s h }

  reopen-Kept : Keeps (Kept o) (reopen E P)
  unfolding reopen
  reopen-Kept = Keeps-bind _ _ (backing_path-Kept P) λ p.
      Keeps-bind _ _ (Keeps-gets _)
        λ missing. Keeps-if missing _ _ (Keeps-raise _) (call_open-Kept p)

  open_if_needed-Kept : (r : Option E.Reader) → Keeps (Kept o) (open_if_needed E P r)
  unfolding open_if_needed
  open_if_needed-Kept none = reopen-Kept
  open_if_needed-Kept (some reader) = search keeps_rules

  pub open_reader-Kept : Keeps (Kept o) (open_reader E P)
  unfolding open_reader
  open_reader-Kept = record {
    at = λ s h.
        either (Kept o) s.archive.closed _ (open_if_needed E P s.archive.reader s) h
          ((open_if_needed-Kept s.archive.reader).at s h);
  }
