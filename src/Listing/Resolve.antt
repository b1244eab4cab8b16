-- ===== src/Listing/Resolve.antt =====
-- How a reference to an entry is resolved: by position, by name and by the entry itself.
use newtua_py.Base.{
  ap, ℕ, suc, ◌+◌, ◌-◌, ◌<◌, ◌≤◌, ◌≡◌, ◌≢◌, refl, sym, ◌∙◌, ◌⊎◌, inl, inr, String, Option, none,
  some, List, [], ◌∷◌, arith, length, get_elem?, get_elem?-lt, get_elem?-some, get_elem?-none,
  Bool-cases,
}
use newtua_py.Base.Int.{ℤ, pos, negsuc}
use newtua_py.Base.Text.{str_int}
use native.Mathlib.Nat.{mod-eq_of_lt}
use native.Mathlib.Decide.{dec_lt}
use newtua_py.Errors.{
  Exc, Result, ok, err, new, class_of, index_error, entry_not_found_error, ok-injective,
}
use newtua_py.Paths.{PurePosixPath, posix_path, path_eq, str_path}
use newtua_py.Listing.{
  RawEntry, Entry, Index, find, Ref, at, named, under, entry, resolve_index, tuple_item,
  item_by_path, entries_from_raw,
}
use newtua_py.Listing.Build.{IsIndexed, first, get-entries_from_raw, entries_from_raw-IsIndexed}

-- Inside and outside the bounds, at either sign.
resolve_from_start :
    (es : List Entry) (k : ℕ) → k < length es → resolve_index es (at (pos k)) ≡ ok k
unfolding resolve_index
resolve_from_start es k h = ground (arith, mod-eq_of_lt h)

resolve_from_end :
    (es : List Entry) (m : ℕ)
    → m < length es
    → resolve_index es (at (negsuc m)) ≡ ok (length es - (m + 1))
unfolding resolve_index
resolve_from_end es m h = ground (arith, mod-eq_of_lt h)

resolve_past_end :
    (es : List Entry) (k : ℕ)
    → length es ≤ k
    → resolve_index es (at (pos k)) ≡ err (new index_error (str_int (pos k)))
unfolding resolve_index
resolve_past_end es k h = ground arith

resolve_before_start :
    (es : List Entry) (m : ℕ)
    → length es ≤ m
    → resolve_index es (at (negsuc m)) ≡ err (new index_error (str_int (negsuc m)))
unfolding resolve_index
resolve_before_start es m h = ground arith

tuple_from_end :
    (es : List Entry) (m : ℕ) (e : Entry)
    → m < length es
    → get_elem? es (length es - (m + 1)) ≡ some e
    → tuple_item es (negsuc m) ≡ ok e
unfolding tuple_item
tuple_from_end es m e h p = ground arith

-- `ar[i]` and the entry that `read(i)`, `open(i)` and a selection with `i` act on are the same,
-- for every int: negative positions count from the end, and where one raises `IndexError` so does
-- the other.
pub resolve_index-tuple_item :
    (es : List Entry) (i : ℤ)
    → IsIndexed es
    → ((e : Entry) × (tuple_item es i ≡ ok e)
        × (resolve_index es (at i) ≡ ok e.index)
        × (get_elem? es e.index ≡ some e))
      ⊎ ((exc other : Exc) × (tuple_item es i ≡ err exc)
          × (class_of exc ≡ index_error)
          × (resolve_index es (at i) ≡ err other)
          × (class_of other ≡ index_error))
unfolding tuple_item
resolve_index-tuple_item es (pos k) indexed = elim (dec_lt k (length es)) [
  | yes h ↦
      let (e, p) = get_elem?-some es k h in
      let same = indexed k e p in
      inl (e, ground arith, rw same (resolve_from_start es k h), rw same p)
  | no h ↦
      let past : length es ≤ k = omega arith in
      inr (
        new index_error "tuple index out of range",
        new index_error (str_int (pos k)),
        ground (arith, get_elem?-none es k past),
        refl,
        resolve_past_end es k past,
        refl,
      )
]
resolve_index-tuple_item es (negsuc m) indexed = elim (dec_lt m (length es)) [
  | yes h ↦
      let (e, p) = get_elem?-some es (length es - (m + 1)) (omega arith) in
      let same = indexed (length es - (m + 1)) e p in
      inl (e, tuple_from_end es m e h p, rw same (resolve_from_end es m h), rw same p)
  | no h ↦
      let before : length es ≤ m = omega arith in
      inr (
        new index_error "tuple index out of range",
        new index_error (str_int (negsuc m)),
        ground arith,
        refl,
        resolve_before_start es m before,
        refl,
      )
]

find-first :
    (es : List Entry) (p : PurePosixPath) (name : String)
    → ((e : Entry) × (first es p ≡ some e) × (find es p name ≡ ok e.index))
      ⊎ ((first es p ≡ none) × (find es p name ≡ err (new entry_not_found_error name)))
unfolding find first
find-first [] p name = inr (refl, refl)
find-first (e ∷ es) p name = elim (Bool-cases (path_eq e.path p)) [
  | inl same ↦ inl (e, rw same, rw same)
  | inr differs ↦ rw differs (find-first es p name)
]

first-elem :
    (es : List Entry) (p : PurePosixPath) (e : Entry)
    → first es p ≡ some e
    → (k : ℕ) × (get_elem? es k ≡ some e)
unfolding first
first-elem [] p e h = cc
first-elem (f ∷ es) p e h = elim (Bool-cases (path_eq f.path p)) [
  | inl same ↦ (0, ground arith)
  | inr differs ↦ let (k, q) = first-elem es p e (rw differs at h) in (suc k, q)
]

module _ (fromtimestamp : ℕ → Result ℤ) where
  -- Of a built listing, `ar[name]`, which asks the name index, and `read(name)`, which scans the
  -- entries, mean the same entry, and it is the one in the listing at its own index; where there
  -- is none, both raise `EntryNotFoundError` with that name.
  pub resolve_index-item_by_path :
      (raw : List RawEntry) (owner : Option ℕ) (es : List Entry) (d : Index) (name : String)
      → entries_from_raw fromtimestamp raw owner ≡ ok (es, d)
      → ((e : Entry) × (item_by_path d (posix_path name) name ≡ ok e)
          × (resolve_index es (named name) ≡ ok e.index)
          × (get_elem? es e.index ≡ some e))
        ⊎ ((item_by_path d (posix_path name) name ≡ err (new entry_not_found_error name))
            × (resolve_index es (named name) ≡ err (new entry_not_found_error name)))
  unfolding resolve_index item_by_path
  resolve_index-item_by_path raw owner es d name built =
      let p = posix_path name in
      let index_agrees = get-entries_from_raw fromtimestamp raw owner es d built p in
      elim (find-first es p name) [
        | inl (e, is_first, is_found) ↦
            let (k, q) = first-elem es p e is_first in
            let same = entries_from_raw-IsIndexed fromtimestamp raw owner es d built k e q in
            inl (e, rw (index_agrees, is_first), is_found, ap (λ (j : ℕ). get_elem? es j) same ∙ q)
        | inr (is_none, not_found) ↦ inr (rw (index_agrees, is_none), not_found)
      ]

find_bound :
    (es : List Entry) (p : PurePosixPath) (name : String) (k : ℕ)
    → IsIndexed es
    → find es p name ≡ ok k
    → k < length es
find_bound es p name k indexed h = elim (find-first es p name) [
  | inl (e, is_first, is_found) ↦
      let (j, q) = first-elem es p e is_first in
      let here = get_elem?-lt es j e q in
      let same = indexed j e q in let result = ok-injective (sym is_found ∙ h) in omega arith
  | inr (is_none, not_found) ↦ cc
]

-- In a listing whose entries stand at their own indices, what an int, a name or a path resolves to
-- lies within the listing.
pub resolve_index_bound :
    (es : List Entry) (ref : Ref) (k : ℕ)
    → IsIndexed es
    → ((e : Entry) → ref ≢ entry e)
    → resolve_index es ref ≡ ok k
    → k < length es
unfolding resolve_index
resolve_index_bound es (at i) k indexed other h = elim (resolve_index-tuple_item es i indexed) [
  | inl (e, _, resolved, q) ↦
      let here = get_elem?-lt es e.index e q in
      let result = ok-injective (sym resolved ∙ h) in omega arith
  | inr (exc, exc', _, _, failed, _) ↦ cc
]
resolve_index_bound es (named s) k indexed other h = find_bound es (posix_path s) s k indexed h
resolve_index_bound es (under p) k indexed other h = find_bound es p (str_path p) k indexed h
resolve_index_bound es (entry e) k indexed other h = absurd (other e refl)
