-- ===== src/Examples/Archives.antt =====
-- Archives at work: opened, listed, streamed from and closed.
use newtua_py.Base.{
  ◌≢◌, ℕ, ◌+◌, ◌≤◌, ◌≡◌, refl, ◌⊎◌, ◌↔◌, Bool, true, false, Option, none, some, List, [], ◌∷◌,
  get_elem?, ltb,
}
use newtua_py.Base.Int.{pos}
use newtua_py.Errors.{
  Exc, ok, err, new, class_of, password_required_error, wrong_password_error, file_not_found_error,
}
use newtua_py.Exec.{◌>>=◌}
use newtua_py.Listing.{
  entries_from_raw, entry_from_raw, safe_mtime, resolve_index, tuple_item, RawEntry, make_entry,
  Entry, at, named,
}
use newtua_py.Events.{ProgressEvent, Callback}
use newtua_py.Host.{TempFile, exists, hold_some, hold, add_temp}
use newtua_py.Host.Owners.{held_by, stream_claims}
use newtua_py.Archive.{State, path, bytes}
use newtua_py.Archive.Opening.{open_reader, backing_path, listing, close, set_password}
use newtua_py.Archive.Access.{
  is_name, len, get_item, contains, format, detected_encoding, needs_password, index_of, read,
  extract,
}
use newtua_py.Archive.Access.Lookup.{needs_password_cases, SomeEncrypted}
use newtua_py.Archive.Pipes.{open_entry, open_pipe, open_pipe_posix}
use newtua_py.Archive.History.{enters, opens, uses_stream, Reach, here, next, start}
use newtua_py.Archive.Lifetime.{Reach-claims, close_keeps_streamed}
use newtua_py.Archive.Coherence.{get_item-agrees}
use newtua_py.Archive.Descriptors.{Reach-descriptors}
use newtua_py.Host.Used.{use_stream}
use newtua_py.Stream.Kept.{calls_read}
use newtua_py.Host.Pipes.Descriptors.{count, readers}
use newtua_py.Host.Pipes.{open_ends, hand_out, shake_hands, pipe_posix}
use newtua_py.Archive.Closed.{refused, closed_lem, missing_file_lem}
use newtua_py.Examples.{engine, engine-DeletesNothing, machine, machine-NewNames, raw_entry}

-- An archive of two bytes, that is listed and then streams its first entry.
abbrev fresh_archive : State engine.Reader
fresh_archive = start engine.Reader 5 (bytes (80 ∷ 75 ∷ [])) (some "x") none []

abbrev listed_archive : State engine.Reader
listed_archive = (listing engine machine fresh_archive).1

abbrev opened_archive : State engine.Reader
opened_archive = (open_entry engine machine (at (pos 0)) true listed_archive).1

-- Its stream is read to the end.
abbrev streaming : State engine.Reader
streaming = record opened_archive { host = use_stream (calls_read none) 0 opened_archive.host }

history : Reach engine machine fresh_archive streaming
history =
    next (next (next here (enters fresh_archive)) (opens (at (pos 0)) true listed_archive))
      (uses_stream (calls_read none) 0 opened_archive)

abbrev shared_file : TempFile
shared_file = record { path = "t"; holders = pos 2; finalizer = true }

holds_file : streaming.archive.tempfile ≡ some 0
unfolding listing open_reader backing_path open_entry ◌>>=◌ entries_from_raw entry_from_raw
    safe_mtime index_of resolve_index tuple_item open_pipe open_pipe_posix pipe_posix open_ends
    shake_hands hand_out use_stream
holds_file = refl

file_shared : get_elem? streaming.host.temps 0 ≡ some shared_file
unfolding listing open_reader backing_path open_entry ◌>>=◌ entries_from_raw entry_from_raw
    safe_mtime index_of resolve_index tuple_item open_pipe open_pipe_posix pipe_posix open_ends
    shake_hands hand_out hold_some hold add_temp use_stream
file_shared = refl

Reach-claims_example :
    (pos 2 ≡ pos (held_by streaming.archive.tempfile 0 + stream_claims streaming.host.streams 0))
    × (true ≡ ltb 0 (held_by streaming.archive.tempfile 0 + stream_claims streaming.host.streams 0))
    × (exists "t" streaming.host.disk ≡ true)
Reach-claims_example =
    Reach-claims engine machine machine-NewNames engine-DeletesNothing history 0 shared_file
      file_shared

close_keeps_streamed_example :
    (exists "t" (close streaming).host.disk ≡ ltb 0 (stream_claims streaming.host.streams 0))
    × ((close streaming).archive.tempfile ≡ none)
    × ((close streaming).archive.closed ≡ true)
close_keeps_streamed_example =
    close_keeps_streamed engine machine machine-NewNames engine-DeletesNothing history 0 shared_file
      holds_file file_shared

Reach-descriptors_example :
    (count 0 streaming.host.open_fds ≡ readers streaming.host.streams 0)
    × (readers streaming.host.streams 0 ≤ 1)
Reach-descriptors_example = Reach-descriptors engine machine engine-DeletesNothing history 0

abbrev no_callback : Option (Callback (Unit {0}) ProgressEvent)
no_callback = none

closed_example :
    let c = set_password none (close streaming) in
    (listing engine machine c ≡ (err refused, c))
    × (len engine machine c ≡ (err refused, c))
    × (get_item engine machine (named "a") c ≡ (err refused, c))
    × (contains engine machine (is_name "b") c ≡ (err refused, c))
    × (format engine machine c ≡ (err refused, c))
    × (detected_encoding engine machine c ≡ (err refused, c))
    × (needs_password engine machine c ≡ (err refused, c))
    × (read engine machine (at (pos 0)) c ≡ (err refused, c))
    × (open_entry engine machine (at (pos 0)) true c ≡ (err refused, c))
    × (extract engine machine "out" none true false true no_callback tt c ≡ (err refused, c))
closed_example =
    closed_lem engine machine streaming none (named "a") (at (pos 0)) "b" "out" true true false true
      none Unit no_callback tt

abbrev absent_file : State engine.Reader
absent_file = start engine.Reader 5 (path "no.zip") none none []

no_such_file : exists "no.zip" absent_file.host.disk ≡ false
unfolding exists
no_such_file = refl

missing_file_example :
    (listing engine machine absent_file ≡ (err (new file_not_found_error "no.zip"), absent_file))
    × (format engine machine absent_file ≡ (err (new file_not_found_error "no.zip"), absent_file))
    × (read engine machine (at (pos 0)) absent_file
        ≡ (err (new file_not_found_error "no.zip"), absent_file))
    × (open_entry engine machine (at (pos 0)) true absent_file
        ≡ (err (new file_not_found_error "no.zip"), absent_file))
missing_file_example =
    missing_file_lem engine machine absent_file "no.zip" (at (pos 0)) true refl refl refl refl
      no_such_file

-- While a stream of the archive is open.
get_item-agrees_example :
    ((exc : Exc) × (get_item engine machine (named "a") streaming
        ≡ (err exc, (listing engine machine streaming).1))
      × (index_of engine machine (named "a") streaming
          ≡ (err exc, (listing engine machine streaming).1)))
    ⊎ ((es : List Entry) × (e : Entry) × (listing engine machine streaming
          ≡ (ok es, (listing engine machine streaming).1))
        × (get_item engine machine (named "a") streaming
            ≡ (ok e, (listing engine machine streaming).1))
        × (index_of engine machine (named "a") streaming
            ≡ (ok e.index, (listing engine machine streaming).1))
        × (get_elem? es e.index ≡ some e))
get_item-agrees_example = get_item-agrees engine machine engine-DeletesNothing history "a"

needs_password_example :
    ((es : List Entry) × (b : Bool) × ((listing engine machine absent_file).0 ≡ ok es)
      × (needs_password engine machine absent_file ≡ (ok b, (listing engine machine absent_file).1))
      × ((b ≡ true) ↔ SomeEncrypted engine machine es))
    ⊎ ((exc : Exc) × ((listing engine machine absent_file).0 ≡ err exc)
        × ((((class_of exc ≡ password_required_error) ⊎ (class_of exc ≡ wrong_password_error))
              × (needs_password engine machine absent_file
                  ≡ (ok true, (listing engine machine absent_file).1)))
            ⊎ ((class_of exc ≢ password_required_error)
                × (class_of exc ≢ wrong_password_error)
                × (needs_password engine machine absent_file
                    ≡ (err exc, (listing engine machine absent_file).1)))))
needs_password_example = needs_password_cases engine machine absent_file

abbrev shown : ℕ → RawEntry → Entry
shown i r = make_entry (some 5) i r (some (pos 6))

abbrev listed_entries : List Entry
listed_entries =
    shown 0 (raw_entry "a" (97 ∷ []) 3)
    ∷ shown 1 (raw_entry "b/./c" (98 ∷ 47 ∷ 99 ∷ []) 0)
    ∷ shown 2 (raw_entry "a" (97 ∷ []) 1)
    ∷ []

listing_returned : listing engine machine fresh_archive ≡ (ok listed_entries, listed_archive)
unfolding listing open_reader backing_path ◌>>=◌ entries_from_raw entry_from_raw safe_mtime
listing_returned = refl
