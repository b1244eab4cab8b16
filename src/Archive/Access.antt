-- ===== src/Archive/Access.antt =====
-- The sequence protocol, the properties, reading and extraction: the methods of `Archive` from
-- `__len__` to `read`, and `extract`, of python/newtua/_archive.py.
pub mod Lifetime
pub mod Lookup
pub mod Selection
use newtua_py.Base.{
  ℕ, String, Bool, true, false, ◌||◌, Option, none, some, List, [], ◌∷◌, length, if◌then◌else◌,
}
use newtua_py.Base.Int.{ℤ, pos}
use newtua_py.Errors.{
  typed, Exc, Result, ok, err, new, class_of, is_password_error, type_error, assertion_error,
}
use newtua_py.Enums.{Format, format_of}
use newtua_py.Exec.{Exec, pure, raise, lift, gets, modify, continue, ◌>>=◌, ◌>>◌}
use newtua_py.Paths.{PurePosixPath, posix_path, str_path}
use newtua_py.Events.{ProgressEvent, RawEvent, Callback, wrapped}
use newtua_py.Listing.{
  Bytes, Entry, Index, Ref, at, named, under, entry, resolve_index, resolve_all, tuple_item,
  item_by_path, contains_path, owner_of,
}
use newtua_py.Listing.Slices.{Slice, tuple_slice}
use newtua_py.Listing.Compare.{contains_entry}
use newtua_py.Host.{Disk}
use newtua_py.Engine.{Report, with_state, ExtractArgs, Engine, Platform}
use newtua_py.Archive.{Archive, State, wrapper_name_source}
use newtua_py.Archive.Opening.{open_reader, listing}

unfoldable pub any_encrypted : List Entry → Bool
any_encrypted [] = false
any_encrypted (e ∷ es) = e.is_encrypted || any_encrypted es

-- `assert self._by_name is not None`, with the index.
the_index : Option Index → Result Index
the_index none = err (new assertion_error "")
the_index (some d) = ok d

-- The `except` of `needs_password`.
or_password_error : Result Bool → Result Bool
or_password_error (ok b) = ok b
or_password_error (err exc) = if is_password_error (class_of exc) then ok true else err exc

-- The key of `in`: an entry, a text or a path, or any other object.
pub data Key : Type 0 where
  is_entry : Entry → Key
  is_name : String → Key
  is_path : PurePosixPath → Key
  is_other : Key

module _ (E : Engine) (P : Platform) where
  abbrev pub Method : Type 0 → Type 0
  Method A = Exec (State E.Reader) A

  -- `__len__`
  unfoldable pub len : Method ℕ
  len = do entries ← listing E P; pure (length entries)

  by_path : PurePosixPath → String → Method Entry
  by_path p name = do
    by_name ← gets (λ s. s.archive.by_name)
    d ← lift (the_index by_name)
    lift (item_by_path d p name)

  item : Ref → List Entry → Method Entry
  item (at i) entries = lift (tuple_item entries i)
  item (named name) entries = by_path (posix_path name) name
  item (under p) entries = by_path p (str_path p)
  item (entry e) entries = raise (new type_error "expected str, bytes or os.PathLike object")

  -- `__getitem__` of a position or a name; an `Entry` is no key.
  unfoldable pub get_item : Ref → Method Entry
  unfolding item by_path the_index
  get_item key = do entries ← listing E P; item key entries

  -- `__getitem__` of a slice.
  unfoldable pub get_slice : Slice → Method (List Entry)
  get_slice key = do entries ← listing E P; lift (tuple_slice entries key)

  in_index : PurePosixPath → Method Bool
  in_index p = do
    listing E P
    by_name ← gets (λ s. s.archive.by_name)
    d ← lift (the_index by_name)
    pure (contains_path d p)

  -- `__contains__`
  unfoldable pub contains : Key → Method Bool
  unfolding in_index the_index
  contains (is_entry e) = do entries ← listing E P; pure (contains_entry entries e)
  contains (is_name name) = in_index (posix_path name)
  contains (is_path p) = in_index p
  contains is_other = pure false

  -- `format`
  unfoldable pub format : Method Format
  format = do reader ← open_reader E P; lift (format_of (E.format reader))

  -- `detected_encoding`
  unfoldable pub detected_encoding : Method String
  detected_encoding = do reader ← open_reader E P; pure (E.detected_encoding reader)

  encrypted_in_listing : Method Bool
  encrypted_in_listing = do entries ← listing E P; pure (any_encrypted entries)

  -- `needs_password`
  unfoldable pub needs_password : Method Bool
  unfolding encrypted_in_listing any_encrypted or_password_error
  needs_password s = let (r, s') = encrypted_in_listing s in (or_password_error r, s')

  -- `_index_of`
  unfoldable pub index_of : Ref → Method ℕ
  index_of ref = do entries ← listing E P; lift (resolve_index entries ref)

  -- `read`
  unfoldable pub read : Ref → Method Bytes
  read ref = do
    reader ← open_reader E P
    index ← index_of ref
    disk ← gets (λ s. s.host.disk)
    lift (typed (E.read reader disk index))

  -- `Entry.read`, on the archive that the entry belongs to.
  unfoldable pub entry_read : Entry → Method Bytes
  entry_read e = do lift (owner_of e); read (entry e)

  -- One `_index_of` for each reference of the selection, each with its own look at the listing.
  unfoldable pub indices_of : List Ref → Method (List ℕ)
  indices_of [] = pure []
  indices_of (ref ∷ refs) = do i ← index_of ref; rest ← indices_of refs; pure (i ∷ rest)

  unfoldable pub selected : Option (List Ref) → Method (Option (List ℕ))
  selected none = pure none
  selected (some refs) = do is_at ← indices_of refs; pure (some is_at)

  -- The engine's call: it changes the disk and the state of the user's callback.
  unfoldable pub call_extract :
      {U : Type 0}
      → E.Reader
      → ExtractArgs
      → Option (Callback U ProgressEvent)
      → U
      → Method (Result Report × U)
  call_extract {U} reader args progress u s =
      let (r, after) = E.extract U reader args (wrapped progress) (s.host.disk, u) in
      (with_state after.1 (typed r), record s { host = record s.host { disk = after.0 } })

  -- `extract`
  unfoldable pub extract :
      {U : Type 0}
      → String
      → Option (List Ref)
      → Bool
      → Bool
      → Bool
      → Option (Callback U ProgressEvent)
      → U
      → Method (Result Report × U)
  unfolding selected indices_of call_extract
  extract dest selection wrapper strict preserve progress u = do
    reader ← open_reader E P
    indices ← selected selection
    source ← gets (λ s. s.archive.source)
    call_extract reader
        (record {
          dest = dest;
          selection = indices;
          wrapper = wrapper;
          strict = strict;
          preserve = preserve;
          name_source = wrapper_name_source source;
        })
        progress u

  -- `Entry.extract`
  unfoldable pub entry_extract : Entry → String → Method Report
  entry_extract e dest = do
    lift (owner_of e)
    result ← extract dest (some (entry e ∷ [])) false false true none tt
    lift result.0
