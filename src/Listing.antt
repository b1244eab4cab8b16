-- ===== src/Listing.antt =====
-- Entries, the listing that is built from the engine's, and how an entry is looked up in it
-- (python/newtua/_entry.py; `_safe_mtime`, `_safe_kind`, `_entries_from_raw` and `_resolve_index`
-- of python/newtua/_archive.py).
pub mod Compare
pub mod Build
pub mod Resolve
pub mod Detached
pub mod Slices
use newtua_py.Base.{
  ℕ, zero, suc, ◌+◌, String, Bool, true, false, ◌&&◌, ◌||◌, not, Option, none, some, List, [], ◌∷◌,
  ◌==◌, text_eq, length, get_elem?, ◌-◌, ltb, if◌then◌else◌,
}
use newtua_py.Base.Int.{ℤ, pos, negsuc, neg, mod_int, leb_ℤ, ltb_ℤ}
use newtua_py.Base.Text.{str_int}
use newtua_py.Errors.{
  Exc, Result, ok, err, new, class_of, is_time_error, value_error, index_error,
  entry_not_found_error, ◌>>=◌,
}
use newtua_py.Enums.{EntryKind, file, dir, symlink, entry_kind_of, entry_kind_value}
use newtua_py.Paths.{PurePosixPath, posix_path, str_path, path_eq}

abbrev pub Bytes : Type 0
Bytes = List ℕ

-- The compiled module's entry. A float is its 64-bit pattern: the package never computes with it.
pub record RawEntry : Type 0 where
  pub path : String
  pub raw_name : Bytes
  pub kind : String
  pub size : ℕ
  pub is_encrypted : Bool
  pub mode : Option ℕ
  pub mtime : Option ℕ

-- `Entry`. A time in UTC is its number of microseconds since 1970. `owner` is the back-reference
-- `_archive`: the identity of the archive object, or `none`.
pub record Entry : Type 0 where
  pub index : ℕ
  pub path : PurePosixPath
  pub raw_name : Bytes
  pub kind : EntryKind
  pub size : ℕ
  pub is_encrypted : Bool
  pub mode : Option ℕ
  pub mtime : Option ℤ
  pub owner : Option ℕ

unfoldable pub is_file : Entry → Bool
is_file e = elim e.kind [ file ↦ true | dir ↦ false | symlink ↦ false ]

unfoldable pub is_dir : Entry → Bool
is_dir e = elim e.kind [ file ↦ false | dir ↦ true | symlink ↦ false ]

unfoldable pub is_symlink : Entry → Bool
is_symlink e = elim e.kind [ file ↦ false | dir ↦ false | symlink ↦ true ]

attached : Option ℕ → Result ℕ
attached none = err (new value_error "this entry is not attached to an archive")
attached (some archive) = ok archive

-- `_owner`
unfoldable pub owner_of : Entry → Result ℕ
unfolding attached
owner_of e = attached e.owner

-- `_safe_kind`
kind_or_file : Result EntryKind → EntryKind
kind_or_file (ok k) = k
kind_or_file (err _) = file

unfoldable pub safe_kind : String → EntryKind
unfolding kind_or_file entry_kind_of
safe_kind raw = kind_or_file (entry_kind_of raw)

-- A dict from paths to their entries, as its items in the order of insertion.
abbrev pub Index : Type 0
Index = List (PurePosixPath × Entry)

-- `by_name.get(path)`
unfoldable pub get : Index → PurePosixPath → Option Entry
get [] p = none
get ((q, e) ∷ d) p = if path_eq q p then some e else get d p

-- `by_name.setdefault(path, entry)`
unfoldable pub set_default : Index → PurePosixPath → Entry → Index
set_default [] p e = (p, e) ∷ []
set_default ((q, f) ∷ d) p e =
    let rest = set_default d p e in if path_eq q p then (q, f) ∷ d else (q, f) ∷ rest

-- The loop that fills the index.
index_from : Index → List Entry → Index
index_from d [] = d
index_from d (e ∷ es) = index_from (set_default d e.path e) es

-- The call `Entry(index=i, …, _archive=owner)`.
abbrev pub make_entry : Option ℕ → ℕ → RawEntry → Option ℤ → Entry
make_entry owner i r mtime = record {
  index = i;
  path = posix_path r.path;
  raw_name = r.raw_name;
  kind = safe_kind r.kind;
  size = r.size;
  is_encrypted = r.is_encrypted;
  mode = r.mode;
  mtime = mtime;
  owner = owner;
}

-- `datetime.fromtimestamp(raw, tz=timezone.utc)` is the C library's.
module _ (fromtimestamp : ℕ → Result ℤ) where
  time_or_none : Result ℤ → Result (Option ℤ)
  time_or_none (ok t) = ok (some t)
  time_or_none (err exc) = if is_time_error (class_of exc) then ok none else err exc

  -- `_safe_mtime`
  unfoldable pub safe_mtime : Option ℕ → Result (Option ℤ)
  unfolding time_or_none
  safe_mtime none = ok none
  safe_mtime (some raw) = time_or_none (fromtimestamp raw)

  -- One round of the generator over `enumerate(raw)`.
  unfoldable pub entry_from_raw : Option ℕ → ℕ → RawEntry → Result Entry
  entry_from_raw owner i r = do mtime ← safe_mtime r.mtime; ok (make_entry owner i r mtime)

  entries_from : Option ℕ → ℕ → List RawEntry → Result (List Entry)
  entries_from owner i [] = ok []
  entries_from owner i (r ∷ raw) = do
    e ← entry_from_raw owner i r
    es ← entries_from owner (i + 1) raw
    ok (e ∷ es)

  -- `_entries_from_raw`
  unfoldable pub entries_from_raw : List RawEntry → Option ℕ → Result (List Entry × Index)
  unfolding entries_from index_from
  entries_from_raw raw owner = do
    entries ← entries_from owner 0 raw
    ok (entries, index_from [] entries)

-- How an entry is named: a position, a text, a path, or the entry itself.
pub data Ref : Type 0 where
  at : ℤ → Ref
  named : String → Ref
  under : PurePosixPath → Ref
  entry : Entry → Ref

-- `-n <= i < n`
abbrev pub in_bounds : ℕ → ℤ → Bool
in_bounds n i = leb_ℤ (neg n) i && ltb_ℤ i (pos n)

-- The loop of `_resolve_index`; `name` is `str(ref)`.
find : List Entry → PurePosixPath → String → Result ℕ
find [] target name = err (new entry_not_found_error name)
find (e ∷ es) target name =
    let rest = find es target name in if path_eq e.path target then ok e.index else rest

-- `_resolve_index`
unfoldable pub resolve_index : List Entry → Ref → Result ℕ
unfolding find
resolve_index entries (at i) =
    if in_bounds (length entries) i
    then ok (mod_int i (length entries))
    else err (new index_error (str_int i))
resolve_index entries (entry e) = ok e.index
resolve_index entries (named s) = find entries (posix_path s) s
resolve_index entries (under p) = find entries p (str_path p)

-- `[_resolve_index(entries, ref) for ref in selection]`
unfoldable pub resolve_all : List Entry → List Ref → Result (List ℕ)
resolve_all entries [] = ok []
resolve_all entries (ref ∷ refs) = do
  i ← resolve_index entries ref
  rest ← resolve_all entries refs
  ok (i ∷ rest)

found : Option Entry → String → Result Entry
found none name = err (new entry_not_found_error name)
found (some e) name = ok e

or_out_of_range : Option Entry → Result Entry
or_out_of_range none = err (new index_error "tuple index out of range")
or_out_of_range (some e) = ok e

-- `entries[i]` of a tuple: a negative position counts from the end.
unfoldable pub tuple_item : List Entry → ℤ → Result Entry
unfolding or_out_of_range
tuple_item entries (pos i) = or_out_of_range (get_elem? entries i)
tuple_item entries (negsuc i) =
    if ltb i (length entries)
    then or_out_of_range (get_elem? entries (length entries - (i + 1)))
    else or_out_of_range none

-- `self._by_name.get(PurePosixPath(key))` and the error behind it, in both `__getitem__`s.
unfoldable pub item_by_path : Index → PurePosixPath → String → Result Entry
unfolding found
item_by_path by_name p name = found (get by_name p) name

-- `path in by_name`
unfoldable pub contains_path : Index → PurePosixPath → Bool
contains_path d p = elim (get d p) [ none ↦ false | some _ ↦ true ]
