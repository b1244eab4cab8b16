-- ===== src/Examples/Values.antt =====
-- Errors, enumerations, events, paths and listings at concrete values.
use newtua_py.Base.{
  ℕ, suc, ◌<◌, ◌≡◌, ◌≢◌, refl, ◌⊎◌, true, none, some, List, [], ◌∷◌, get_elem?, length,
}
use newtua_py.Base.Int.{pos, negsuc}
use newtua_py.Errors.{
  Exc, ExcClass, raised_from, absent, text, ok, err, new, class_of, index_error, value_error,
  entry_not_found_error, raise_for,
}
use newtua_py.Errors.Laws.{Fitting, raise_for_lem}
use newtua_py.Enums.{sevenz, format_of}
use newtua_py.Paths.{PurePosixPath, posix_path, str_path}
use newtua_py.Events.{
  ProgressEvent, entry_started, entry_finished, bytes_written, RawEvent, event_from_raw, Callback,
  wrap_progress,
}
use newtua_py.Events.Laws.{wrap_progress_cases}
use newtua_py.Listing.{
  RawEntry, Entry, Index, Ref, at, named, under, entry, get, make_entry, entries_from_raw,
  resolve_index, tuple_item, item_by_path,
}
use newtua_py.Listing.Build.{
  first, IsIndexed, AllShow, entries_from_raw-ok, get-entries_from_raw, entries_from_raw-IsIndexed,
}
use newtua_py.Listing.Resolve.{
  resolve_index-tuple_item, resolve_index-item_by_path, resolve_index_bound,
}
use newtua_py.Examples.{stamps, stamps-Documented, raw_entry, engine_error}

normal_forms :
    (posix_path "a//b/./c/" ≡ record { root = ""; parts = "a" ∷ "b" ∷ "c" ∷ [] })
    × (posix_path "//x" ≡ record { root = "//"; parts = "x" ∷ [] })
    × (str_path (posix_path "///x/./y") ≡ "/x/y")
    × (str_path (posix_path "./") ≡ ".")
unfolding posix_path str_path
normal_forms = (refl, refl, refl, refl)

raise_for_example :
    (cls : ExcClass) × (raise_for {A = Unit} engine_error
      ≡ err (raised_from cls "corrupt archive" absent engine_error))
    × Fitting (text "corrupt") cls
raise_for_example = raise_for_lem engine_error

format_of_7z : format_of "7z" ≡ ok sevenz
unfolding format_of
format_of_7z = refl

abbrev written_event : RawEvent
written_event = record { event = "bytes"; index = 4; path = none; written = 9; size = 20 }

written_event_built : event_from_raw written_event ≡ ok (bytes_written 4 9)
unfolding event_from_raw
written_event_built = refl

abbrev count_events : Callback ℕ ProgressEvent
count_events e n = (ok (some true), suc n)

wrap_progress_example :
    ((written_event.event ≡ "start")
      × (wrap_progress count_events written_event 6
          ≡ count_events (entry_started 4 (posix_path "") 20) 6))
    ⊎ ((written_event.event ≡ "bytes")
        × (wrap_progress count_events written_event 6 ≡ count_events (bytes_written 4 9) 6))
    ⊎ ((written_event.event ≡ "done")
        × (wrap_progress count_events written_event 6 ≡ count_events (entry_finished 4) 6))
    ⊎ ((written_event.event ≢ "start")
        × (written_event.event ≢ "bytes")
        × (written_event.event ≢ "done")
        × (exc : Exc) × (wrap_progress count_events written_event 6 ≡ (err exc, 6))
        × (class_of exc ≡ value_error))
wrap_progress_example = wrap_progress_cases count_events written_event 6

-- Three entries, two of them with one path.
abbrev raws : List RawEntry
raws = raw_entry "a/b" (97 ∷ []) 3 ∷ raw_entry "c" (99 ∷ []) 0 ∷ raw_entry "a//b" (97 ∷ []) 1 ∷ []

abbrev shown : ℕ → RawEntry → Entry
shown i r = make_entry (some 5) i r (some (pos 6))

abbrev entries : List Entry
entries =
    shown 0 (raw_entry "a/b" (97 ∷ []) 3)
    ∷ shown 1 (raw_entry "c" (99 ∷ []) 0)
    ∷ shown 2 (raw_entry "a//b" (97 ∷ []) 1)
    ∷ []

abbrev by_name : Index
by_name =
    (posix_path "a/b", shown 0 (raw_entry "a/b" (97 ∷ []) 3))
    ∷ (posix_path "c", shown 1 (raw_entry "c" (99 ∷ []) 0))
    ∷ []

built : entries_from_raw stamps raws (some 5) ≡ ok (entries, by_name)
unfolding entries_from_raw newtua_py.Listing.entry_from_raw newtua_py.Listing.safe_mtime
    newtua_py.Listing.safe_kind newtua_py.Listing.set_default newtua_py.Paths.path_eq posix_path
built = refl

entries-IsIndexed : IsIndexed entries
entries-IsIndexed = entries_from_raw-IsIndexed stamps raws (some 5) entries by_name built

entries_from_raw-ok_example :
    (es : List Entry) × (d : Index) × (entries_from_raw stamps raws (some 5) ≡ ok (es, d))
    × AllShow stamps (some 5) 0 raws es
entries_from_raw-ok_example = entries_from_raw-ok stamps stamps-Documented raws (some 5)

get-entries_from_raw_example : get by_name (posix_path "a/b") ≡ first entries (posix_path "a/b")
get-entries_from_raw_example =
    get-entries_from_raw stamps raws (some 5) entries by_name built (posix_path "a/b")

resolve_index-tuple_item_example :
    ((e : Entry) × (tuple_item entries (negsuc 0) ≡ ok e)
      × (resolve_index entries (at (negsuc 0)) ≡ ok e.index)
      × (get_elem? entries e.index ≡ some e))
    ⊎ ((exc other : Exc) × (tuple_item entries (negsuc 0) ≡ err exc)
        × (class_of exc ≡ index_error)
        × (resolve_index entries (at (negsuc 0)) ≡ err other)
        × (class_of other ≡ index_error))
resolve_index-tuple_item_example = resolve_index-tuple_item entries (negsuc 0) entries-IsIndexed

resolve_index-item_by_path_example :
    ((e : Entry) × (item_by_path by_name (posix_path "c") "c" ≡ ok e)
      × (resolve_index entries (named "c") ≡ ok e.index)
      × (get_elem? entries e.index ≡ some e))
    ⊎ ((item_by_path by_name (posix_path "c") "c" ≡ err (new entry_not_found_error "c"))
        × (resolve_index entries (named "c") ≡ err (new entry_not_found_error "c")))
resolve_index-item_by_path_example =
    resolve_index-item_by_path stamps raws (some 5) entries by_name "c" built

c_resolved : resolve_index entries (named "c") ≡ ok 1
unfolding resolve_index newtua_py.Paths.path_eq posix_path
c_resolved = refl

named_no_entry : (e : Entry) → named "c" ≢ entry e
named_no_entry e = λ h. cc

resolve_index_bound_example : 1 < length entries
resolve_index_bound_example =
    resolve_index_bound entries (named "c") 1 entries-IsIndexed named_no_entry c_resolved
