-- ===== src/Examples/Sessions.antt =====
-- A stream of an asynchronous archive, read whole in an `async with` block.
use newtua_py.Base.{◌≡◌, refl, some, none, [], ◌∷◌, arith}
use newtua_py.Errors.{ok}
use newtua_py.Exec.{◌>>=◌}
use newtua_py.Listing.{
  Bytes, Entry, named, entries_from_raw, entry_from_raw, safe_mtime, resolve_index, tuple_item,
  safe_kind,
}
use newtua_py.Base.{false}
use newtua_py.Base.Int.{pos}
use newtua_py.Enums.{file}
use newtua_py.Paths.{posix_path, path_eq}
use newtua_py.Archive.Opening.{backing_path}
use newtua_py.Async.{aenter}
use newtua_py.Async.History.{here, next, enters}
use newtua_py.Async.Session.{stream_whole}
use newtua_py.Async.Session.Whole.{outcome, behind, stream_whole_lem}
use newtua_py.Examples.{machine, machine-NewNames}
use newtua_py.Examples.Asyncs.{by_path, by_path-RemovesNothing, fresh_async, entered}

abbrev three : Bytes
three = 1 ∷ 2 ∷ 3 ∷ []

-- The first entry of the listing.
abbrev first : Entry
first = record {
  index = 0;
  path = posix_path "a";
  raw_name = 97 ∷ [];
  kind = file;
  size = 3;
  is_encrypted = false;
  mode = none;
  mtime = some (pos 6);
  owner = none;
}

stream_whole_example :
    stream_whole by_path machine 5 (named "a") entered
    ≡ (outcome 3 (ok three), behind entered 3 (ok three))
unfolding aenter ◌>>=◌ backing_path entries_from_raw entry_from_raw safe_mtime resolve_index
    tuple_item safe_kind path_eq posix_path
stream_whole_example =
    stream_whole_lem by_path machine refl machine-NewNames by_path-RemovesNothing
      (next here (enters fresh_async)) "t" (named "a") 0 first (ok three) 5 refl refl refl refl refl
      (omega arith)
