-- ===== src/Async.antt =====
-- The class `AsyncArchive` (python/newtua/_async.py): entering, leaving and what it answers from the
-- listing alone. A call that goes off the loop is one step here, as each is one job of a worker
-- thread.
pub mod Access
pub mod History
pub mod Kept
pub mod Lifetime
pub mod Entering
pub mod Twin
pub mod Closed
pub mod Overlap
pub mod Session
use newtua_py.Base.{
  ℕ, String, Bool, true, false, not, ◌&&◌, ◌||◌, Option, none, some, List, [], ◌∷◌, length,
  if◌then◌else◌,
}
use newtua_py.Base.Int.{ℤ, pos}
use newtua_py.Errors.{
  Exc, Result, ok, err, new, class_of, is_exception, raise_for, typed, value_error, type_error,
  assertion_error, file_not_found_error, not_implemented_error,
}
use newtua_py.Enums.{Format, format_of}
use newtua_py.Exec.{Exec, pure, raise, lift, gets, modify, continue, ◌>>=◌, ◌>>◌}
use newtua_py.Paths.{posix_path, str_path}
use newtua_py.Events.{ProgressEvent, RawEvent, Callback, wrap_progress}
use newtua_py.Listing.{
  Bytes, RawEntry, Entry, Index, Ref, at, named, under, entry, entries_from_raw, resolve_index,
  resolve_all, tuple_item, item_by_path, contains_path,
}
use newtua_py.Listing.Slices.{Slice, tuple_slice}
use newtua_py.Listing.Compare.{contains_entry}
use newtua_py.Host.{Disk, Host, exists, close_stream}
use newtua_py.Host.Pipes.{pipe_posix, pipe_windows}
use newtua_py.Engine.{Report, PathExtraction, PathCalls, OsName, posix, nt, other_os, Platform}
use newtua_py.Archive.{Archive, State, Source, has_own_path, wrapper_name_source}
use newtua_py.Archive
use newtua_py.Archive.Opening.{backing_path, close}
use newtua_py.Archive.Access.{Key, is_entry, is_name, is_path, is_other, any_encrypted}

-- The fields of an `AsyncArchive`. The reader of `sync` is never opened, so any type will do.
pub record AsyncArchive : Type 0 where
  pub sync : Archive (Unit {0})
  pub password : Option String
  pub encoding : Option String
  pub path : Option String
  pub entries : List Entry
  pub by_name : Index
  pub format : Option String
  pub detected_encoding : Option String
  pub closed : Bool

-- The archive with what it shares.
pub record AsyncState : Type 0 where
  pub archive : AsyncArchive
  pub host : Host

-- `AsyncArchive(source, password=…, encoding=…)`
abbrev pub init : ℕ → Source → Option String → Option String → AsyncArchive
init self_id source password encoding = record {
  sync = Archive.init self_id source password encoding;
  password = password;
  encoding = encoding;
  path = none;
  entries = [];
  by_name = [];
  format = none;
  detected_encoding = none;
  closed = false;
}

-- What a method does to `self._sync`, and to the machine alone.
abbrev pub on_sync : {A : Type 0} → Exec (State (Unit {0})) A → Exec AsyncState A
on_sync m s =
    let (r, t) = m (record { archive = s.archive.sync; host = s.host }) in
    (r, record { archive = record s.archive { sync = t.archive }; host = t.host })

abbrev pub on_machine : {A : Type 0} → Exec Host A → Exec AsyncState A
on_machine m s = let (r, h) = m s.host in (r, record s { host = h })

-- `self._sync.close()`
unfoldable pub close_sync : AsyncState → AsyncState
close_sync s = (on_sync (modify close) s).1

-- `__aexit__`
unfoldable pub aexit : AsyncState → AsyncState
aexit s = let s' = close_sync s in record s' { archive = record s'.archive { closed = true } }

-- `_ensure_ready`
abbrev pub unready : Exc
unready = new value_error "operation on an unopened or closed AsyncArchive"

is_none : {A : Type 0} → Option A → Bool
is_none none = true
is_none (some _) = false

unfoldable pub ensure_ready : Exec AsyncState (Unit {0})
unfolding is_none
ensure_ready s = (if is_none s.archive.path || s.archive.closed then err unready else ok tt, s)

-- `str(self._path)`
abbrev pub str_of : Option String → String
str_of none = "None"
str_of (some p) = p

-- The sequence protocol and the properties look at what was listed.
unfoldable pub len : AsyncArchive → ℕ
len a = length a.entries

-- `__getitem__` of a position or a name; an `Entry` is no key.
unfoldable pub get_item : AsyncArchive → Ref → Result Entry
get_item a (at i) = tuple_item a.entries i
get_item a (named name) = item_by_path a.by_name (posix_path name) name
get_item a (under p) = item_by_path a.by_name p (str_path p)
get_item a (entry e) = err (new type_error "expected str, bytes or os.PathLike object")

-- `__getitem__` of a slice.
unfoldable pub get_slice : AsyncArchive → Slice → Result (List Entry)
get_slice a key = tuple_slice a.entries key

-- `__contains__`
unfoldable pub contains : AsyncArchive → Key → Bool
contains a (is_entry e) = contains_entry a.entries e
contains a (is_name name) = contains_path a.by_name (posix_path name)
contains a (is_path p) = contains_path a.by_name p
contains a is_other = false

-- `assert … is not None`, with the value.
abbrev pub asserted : {A : Type 0} → Option A → Result A
asserted none = err (new assertion_error "")
asserted (some value) = ok value

format_or_raise : Result String → Result Format
format_or_raise (ok name) = format_of name
format_or_raise (err exc) = err exc

-- `format`
unfoldable pub format : AsyncArchive → Result Format
unfolding format_or_raise
format a = format_or_raise (asserted a.format)

-- `detected_encoding`
unfoldable pub detected_encoding : AsyncArchive → Result String
detected_encoding a = asserted a.detected_encoding

-- `needs_password`
unfoldable pub needs_password : AsyncArchive → Bool
needs_password a = any_encrypted a.entries

module _ (C : PathCalls) (P : Platform) where
  keep_built : String → String → List Entry × Index → Exec AsyncState (Unit {0})
  keep_built fmt enc (entries, by_name) = modify (λ s. record s {
    archive = record s.archive {
      entries = entries;
      by_name = by_name;
      format = some fmt;
      detected_encoding = some enc;
    };
  })

  -- Behind the call of `_newtua.list_path`.
  keep_listing : Result (List RawEntry × String × String) → Exec AsyncState (Unit {0})
  keep_listing (ok (raw, fmt, enc)) s =
      (lift (entries_from_raw C.fromtimestamp raw none) >>= keep_built fmt enc) s
  keep_listing (err exc) s =
      if is_exception (class_of exc) then (raise_for exc, close_sync s) else (err exc, s)

  list_into : String → Exec AsyncState (Unit {0})
  list_into p s = keep_listing (C.list_path s.host.disk p s.archive.password s.archive.encoding) s

  give_up : Exc → Exec AsyncState (Unit {0})
  give_up exc s = (err exc, close_sync s)

  keep_path : String → Exec AsyncState (Unit {0})
  keep_path p = modify (λ s. record s { archive = record s.archive { path = some p } })

  -- `__aenter__`; its value is the archive itself.
  unfoldable pub aenter : Exec AsyncState (Unit {0})
  unfolding keep_listing keep_built list_into give_up keep_path
  aenter = do
    p ← on_sync (backing_path P Unit)
    keep_path p
    missing ← gets (λ s. has_own_path s.archive.sync.source && not (exists p s.host.disk))
    if missing then give_up (new file_not_found_error p) else list_into p
