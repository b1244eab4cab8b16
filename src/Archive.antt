-- ===== src/Archive.antt =====
-- The class `Archive` (python/newtua/_archive.py) and the methods of `Entry` that call it
-- (python/newtua/_entry.py).
pub mod Claims
pub mod Opening
pub mod Access
pub mod Pipes
pub mod Lifetime
pub mod Closed
pub mod Cache
pub mod Retry
pub mod Shown
pub mod Coherence
pub mod Descriptors
pub mod History
use newtua_py.Base.{
  ℕ, suc, ◌+◌, String, text_eq, Bool, true, false, not, ◌&&◌, ◌||◌, Option, none, some, List, [],
  ◌∷◌, ◌++◌, length, get_elem?, if◌then◌else◌,
}
use newtua_py.Base.Int.{ℤ, pos}
use newtua_py.Errors.{
  Exc, Result, ok, err, new, class_of, is_exception, is_password_error, raise_for, value_error,
  type_error, file_not_found_error, not_implemented_error,
}
use newtua_py.Enums.{Format, format_of}
use newtua_py.Exec.{Exec, pure, raise, lift, gets, modify, raise_if, continue, ◌>>=◌, ◌>>◌}
use newtua_py.Paths.{PurePosixPath, posix_path, str_path}
use newtua_py.Events.{ProgressEvent, RawEvent, Callback, wrap_progress}
use newtua_py.Listing.{
  Bytes, RawEntry, Entry, Index, Ref, at, named, under, entry, entries_from_raw, resolve_index,
  resolve_all, tuple_item, item_by_path, contains_path, owner_of,
}
use newtua_py.Stream.{Stream, pipe_stream, from_writer, max_in_memory}
use newtua_py.Stream.Store.{Spooled}
use newtua_py.Host.{
  Disk, exists, TempFile, Piped, Host, hold_some, release_some, add_temp, close_fd,
}
use newtua_py.Engine.{Report, ExtractArgs, Engine, OsName, posix, nt, other_os, Platform}

-- The attribute `name` of a file object: missing, a text, or another object.
pub data NameAttr : Type 0 where
  absent : NameAttr
  text : String → NameAttr
  other_object : NameAttr

-- What the archive is read from: a path, bytes, or an open file object with the bytes that it has
-- left and, if reading them ends in an exception, that.
pub data Source : Type 0 where
  path : String → Source
  bytes : Bytes → Source
  file : NameAttr → Bytes → Option Exc → Source

-- The fields of an `Archive` whose reader is an `R`. `self_id` is the object's identity, `tempfile`
-- the address of its `_TempFile`.
pub record Archive (R : Type 0) : Type 0 where
  pub self_id : ℕ
  pub source : Source
  pub password : Option String
  pub encoding : Option String
  pub reader : Option R
  pub entries : Option (List Entry)
  pub by_name : Option Index
  pub tempfile : Option ℕ
  pub closed : Bool

-- The archive with what it shares.
pub record State (R : Type 0) : Type 0 where
  pub archive : Archive R
  pub host : Host

-- `Archive(source, password=…, encoding=…)`
abbrev pub init : {R : Type 0} → ℕ → Source → Option String → Option String → Archive R
init self_id source password encoding = record {
  self_id = self_id;
  source = source;
  password = password;
  encoding = encoding;
  reader = none;
  entries = none;
  by_name = none;
  tempfile = none;
  closed = false;
}

-- `_has_own_path`
abbrev pub has_own_path : Source → Bool
has_own_path (path _) = true
has_own_path (bytes _) = false
has_own_path (file _ _ _) = false

non_empty : String → Option String
non_empty name = if text_eq name "" then none else some name

-- `_wrapper_name_source`
unfoldable pub wrapper_name_source : Source → Option String
unfolding non_empty
wrapper_name_source (path p) = some p
wrapper_name_source (bytes _) = none
wrapper_name_source (file absent _ _) = none
wrapper_name_source (file (text name) _ _) = non_empty name
wrapper_name_source (file other_object _ _) = none

-- What a method does to the machine alone.
abbrev pub on_host : {R A : Type 0} → Exec Host A → Exec (State R) A
on_host m s = let (r, h) = m s.host in (r, record s { host = h })
