-- ===== src/Archive/Closed.antt =====
-- What a closed archive does, and an archive whose file is missing.
use newtua_py.Base.{◌≡◌, refl, ap, ◌∙◌, String, Bool, true, false, Option, none, List}
use newtua_py.Errors.{Exc, Result, err, new, value_error, file_not_found_error}
use newtua_py.Exec.{◌>>=◌}
use newtua_py.Listing.{Ref}
use newtua_py.Events.{ProgressEvent, Callback}
use newtua_py.Host.{exists, release_some}
use newtua_py.Engine.{Engine, Platform}
use newtua_py.Archive.{State, path}
use newtua_py.Archive.Opening.{backing_path, open_reader, listing, close, set_password}
use newtua_py.Archive.Opening.Steps.{listing_unopened}
use newtua_py.Archive.Access.{
  len, get_item, is_name, contains, format, detected_encoding, needs_password, read, extract,
}
use newtua_py.Archive.Pipes.{open_entry}

-- What every call on a closed archive raises.
abbrev pub refused : Exc
refused = new value_error "operation on a closed archive"

module _ (E : Engine) (P : Platform) where
  open_reader_closed :
      (s : State E.Reader) → s.archive.closed ≡ true → open_reader E P s ≡ (err refused, s)
  unfolding open_reader
  open_reader_closed s h = rw h

  listing_closed :
      (s : State E.Reader)
      → s.archive.closed ≡ true
      → s.archive.entries ≡ none
      → listing E P s ≡ (err refused, s)
  listing_closed s h none_listed =
      let opened = open_reader_closed s h in
      listing_unopened E P s none_listed (ap (λ p. p.0) opened)
      ∙ ap (λ p. (err refused, p.1)) opened

  open_reader_missing :
      (s : State E.Reader) (p : String)
      → s.archive.source ≡ path p
      → s.archive.closed ≡ false
      → s.archive.reader ≡ none
      → exists (P.path_text p) s.host.disk ≡ false
      → open_reader E P s ≡ (err (new file_not_found_error (P.path_text p)), s)
  unfolding open_reader backing_path ◌>>=◌
  open_reader_missing s p is_path is_open unread missing = rw (is_open, unread, is_path, missing)

  -- A second `close` does nothing.
  pub close-close : (s : State E.Reader) → close (close s) ≡ close s
  unfolding close release_some
  close-close s = refl

  -- After `close()`, every call that needs the archive raises `ValueError` and changes nothing, of
  -- the archive, the files and the streams alike; also when the password is set in between.
  pub closed_lem :
      (s : State E.Reader) (password : Option String) (key ref : Ref) (name dest : String)
      (stream wrapper strict preserve : Bool) (selection : Option (List Ref)) (U : Type 0)
      (progress : Option (Callback U ProgressEvent)) (u : U)
      → let c = set_password password (close s) in
        (listing E P c ≡ (err refused, c))
        × (len E P c ≡ (err refused, c))
        × (get_item E P key c ≡ (err refused, c))
        × (contains E P (is_name name) c ≡ (err refused, c))
        × (format E P c ≡ (err refused, c))
        × (detected_encoding E P c ≡ (err refused, c))
        × (needs_password E P c ≡ (err refused, c))
        × (read E P ref c ≡ (err refused, c))
        × (open_entry E P ref stream c ≡ (err refused, c))
        × (extract E P dest selection wrapper strict preserve progress u c ≡ (err refused, c))
  unfolding close set_password listing len get_item contains format detected_encoding needs_password
      read open_entry extract open_reader ◌>>=◌
  closed_lem s password key ref name dest stream wrapper strict preserve selection U progress u =
      (refl, refl, refl, refl, refl, refl, refl, refl, refl, refl)

  -- While the archive is not open yet and its source is a path with no file, every call that opens
  -- it raises `FileNotFoundError` with that path, without asking the engine, and changes nothing.
  pub missing_file_lem :
      (s : State E.Reader) (p : String) (ref : Ref) (stream : Bool)
      → s.archive.source ≡ path p
      → s.archive.closed ≡ false
      → s.archive.reader ≡ none
      → s.archive.entries ≡ none
      → exists (P.path_text p) s.host.disk ≡ false
      → (listing E P s ≡ (err (new file_not_found_error (P.path_text p)), s))
        × (format E P s ≡ (err (new file_not_found_error (P.path_text p)), s))
        × (read E P ref s ≡ (err (new file_not_found_error (P.path_text p)), s))
        × (open_entry E P ref stream s ≡ (err (new file_not_found_error (P.path_text p)), s))
  unfolding format read open_entry ◌>>=◌
  missing_file_lem s p ref stream is_path is_open unread unlisted missing =
      let opened : open_reader E P s ≡ (err (new file_not_found_error (P.path_text p)), s) =
        open_reader_missing s p is_path is_open unread missing in
      (
        listing_unopened E P s unlisted (ap (λ p. p.0) opened)
            ∙ ap
                (λ (q : Result E.Reader × State E.Reader).
                  (err (new file_not_found_error (P.path_text p)), q.1))
                opened,
        rw opened,
        rw opened,
        rw opened,
      )
