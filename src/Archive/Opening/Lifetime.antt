-- ===== src/Archive/Opening/Lifetime.antt =====
-- Opening, listing, re-keying and closing, and the claims on temporary files.
use newtua_py.Base.{
  ℕ, ◌+◌, ◌≡◌, refl, ap, String, true, false, Option, none, some, List, ◌∷◌, arith, length,
  Option-cases, inl, inr,
}
use newtua_py.Errors.{Exc, Result, ok, err, class_of, is_exception, raise_for}
use newtua_py.Exec.{◌>>=◌}
use newtua_py.Exec.Keeps.{Keeps, keeps_rules, Keeps-bind, Keeps-gets, Keeps-if, Keeps-raise, either}
use newtua_py.Listing.{Bytes, Entry, Index}
use newtua_py.Host.{exists, release_some, add_temp}
use newtua_py.Host.Claims.{claimed_file, one, Sound-cong, add_temp-Sound}
use newtua_py.Host.Owners.{
  held_by, stream_claims, Sound-grow, release_some-Sound, release_some-elsewhere,
}
use newtua_py.Engine.{Engine, Platform, NewNames}
use newtua_py.Archive.{State, Source, path, bytes, file}
use newtua_py.Archive.Claims.{Owned, claims_of}
use newtua_py.Archive.Opening.{
  present, spilled_path, spill_all, spill_broken, spill_source, spill, drain, drained,
  reuse_or_spill, backing_path_of, backing_path, drop_tempfile, close, set_password, keep_reader,
  call_open, reopen, open_if_needed, open_reader, keep_listing, list_if_needed, listing,
}

module _ {R : Type 0} where
  pub drop_tempfile-Owned : (s : State R) → Owned s → Owned (drop_tempfile s)
  unfolding drop_tempfile
  drop_tempfile-Owned s h =
      let o = s.archive.tempfile in
      Sound-cong (stream_claims s.host.streams) _ (release_some o s.host)
        (release_some-Sound o (stream_claims s.host.streams) s.host h)
        (λ t. rw ((release_some-elsewhere o s.host).0) (omega arith))

  pub close-Owned : (s : State R) → Owned s → Owned (close s)
  unfolding close
  close-Owned s h =
      drop_tempfile-Owned
        (record s {
          archive = record s.archive {
            reader = none;
            entries = none;
            by_name = none;
            closed = true;
          };
        })
        h

  pub set_password-Owned :
      (value : Option String) (s : State R) → Owned s → Owned (set_password value s)
  unfolding set_password
  set_password-Owned value s h = h

  -- The temporary file that the archive holds is there, so it is used again.
  pub spilled_path-some :
      (s : State R) (t : ℕ)
      → Owned s
      → s.archive.tempfile ≡ some t
      → (p : String) × (spilled_path R s.host s.archive.tempfile ≡ some p)
        × (exists p s.host.disk ≡ true)
  unfolding spilled_path present
  spilled_path-some s t h held =
      let claimed = ap (λ (o : Option ℕ). held_by o t) held in
      let (f, here, alive, there) =
        claimed_file (claims_of s) s.host t h (ground (arith, claimed)) in
      (f.path, rw (held, here, present, there), there)

  -- Only an archive without a temporary file makes one.
  not_spilled :
      (s : State R)
      → Owned s
      → spilled_path R s.host s.archive.tempfile ≡ none
      → s.archive.tempfile ≡ none
  not_spilled s h gone = elim (Option-cases s.archive.tempfile) [
    | inl absent ↦ absent
    | inr (t, held) ↦ let (p, there, _) = spilled_path-some s t h held in cc
  ]

  spill_all-Owned :
      (name : String) (content : Bytes) (s : State R)
      → Owned s
      → s.archive.tempfile ≡ none
      → exists name s.host.disk ≡ false
      → Owned (spill_all R name content s).1
  unfolding spill_all add_temp
  spill_all-Owned name content s h absent free =
      Sound-cong _ (λ t. one (length s.host.temps) t + stream_claims s.host.streams t) _
        (add_temp-Sound (claims_of s) name content s.host h free)
        (λ t. omega (arith, ap (λ (o : Option ℕ). held_by o t) absent))

  spill_broken-Owned :
      (name : String) (content : Bytes) (exc : Exc) (s : State R)
      → Owned s
      → Owned (spill_broken R name content exc s).1
  unfolding spill_broken
  spill_broken-Owned name content exc s h =
      Sound-grow (claims_of s) s.host ((name, content) ∷ s.host.disk)
        (λ p there. unfold exists in ground arith) h

  drain-Owned : (s : State R) → Owned s → Owned (drain R s).1
  unfolding drain ◌>>=◌
  drain-Owned s h = h

  spill_source-Owned :
      (name : String) (from : Source) (s : State R)
      → Owned s
      → s.archive.tempfile ≡ none
      → exists name s.host.disk ≡ false
      → Owned (spill_source R name from s).1
  unfolding spill_source ◌>>=◌
  spill_source-Owned name (path p) s h absent free = h
  spill_source-Owned name (bytes content) s h absent free =
      spill_all-Owned name content s h absent free
  spill_source-Owned name (file attr rest none) s h absent free =
      spill_all-Owned name rest s h absent free
  spill_source-Owned name (file attr rest (some exc)) s h absent free =
      spill_broken-Owned name rest exc s h

  spill-Owned :
      (name : String) (s : State R)
      → Owned s
      → s.archive.tempfile ≡ none
      → exists name s.host.disk ≡ false
      → Owned (spill R name s).1
  unfolding spill ◌>>=◌ drain
  spill-Owned name s h absent free =
      spill_source-Owned name s.archive.source
        (record s { archive = record s.archive { source = drained R s.archive.source } }) h absent
        free

  reuse_or_spill-Owned :
      (name : String) (o : Option String) (s : State R)
      → Owned s
      → exists name s.host.disk ≡ false
      → spilled_path R s.host s.archive.tempfile ≡ o
      → Owned (reuse_or_spill R name o s).1
  unfolding reuse_or_spill ◌>>=◌
  reuse_or_spill-Owned name none s h free gone = spill-Owned name s h (not_spilled s h gone) free
  reuse_or_spill-Owned name (some p) s h free there = h

module _ (P : Platform) (R : Type 0) (fresh : NewNames P) where
  backing_path_of-Owned :
      (from : Source) (s : State R) → Owned s → Owned (backing_path_of P R from s).1
  unfolding backing_path_of
  backing_path_of-Owned (path p) s h = h
  backing_path_of-Owned _ s h =
      reuse_or_spill-Owned (P.temp_name s.host.disk) _ s h (fresh s.host.disk) refl

  pub backing_path-Owned : Keeps Owned (backing_path P R)
  unfolding backing_path
  backing_path-Owned = record { at = λ s. backing_path_of-Owned s.archive.source s }

module _ (E : Engine) (P : Platform) (fresh : NewNames P) where
  keep_reader-Owned :
      (r : Result E.Reader) (s : State E.Reader) → Owned s → Owned (keep_reader E P r s).1
  unfolding keep_reader
  keep_reader-Owned (ok reader) s h = h
  keep_reader-Owned (err exc) s h =
      either Owned (is_exception (class_of exc)) (raise_for exc, drop_tempfile s) (err exc, s)
        (drop_tempfile-Owned s h) h

  call_open-Owned : (p : String) → Keeps Owned (call_open E P p)
  unfolding call_open
  call_open-Owned p = record { at = λ s h. keep_reader-Owned _ s h }

  reopen-Owned : Keeps Owned (reopen E P)
  unfolding reopen
  reopen-Owned = Keeps-bind _ _ (backing_path-Owned P E.Reader fresh) λ p.
      Keeps-bind _ _ (Keeps-gets _)
        λ missing. Keeps-if missing _ _ (Keeps-raise _) (call_open-Owned p)

  open_if_needed-Owned : (o : Option E.Reader) → Keeps Owned (open_if_needed E P o)
  unfolding open_if_needed
  open_if_needed-Owned none = reopen-Owned
  open_if_needed-Owned (some reader) = search keeps_rules

  pub open_reader-Owned : Keeps Owned (open_reader E P)
  unfolding open_reader
  open_reader-Owned = record {
    at = λ s h.
        either Owned s.archive.closed _ (open_if_needed E P s.archive.reader s) h
          ((open_if_needed-Owned s.archive.reader).at s h);
  }

  keep_listing-Owned : (built : List Entry × Index) → Keeps Owned (keep_listing E P built)
  unfolding keep_listing
  keep_listing-Owned built = record { at = λ s h. h }

  list_if_needed-Owned : (o : Option (List Entry)) → Keeps Owned (list_if_needed E P o)
  unfolding list_if_needed
  list_if_needed-Owned none = search (keeps_rules, open_reader-Owned, keep_listing-Owned)
  list_if_needed-Owned (some entries) = search keeps_rules

  pub listing-Owned : Keeps Owned (listing E P)
  unfolding listing
  listing-Owned = record { at = λ s. (list_if_needed-Owned s.archive.entries).at s }
