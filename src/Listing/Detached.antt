-- ===== src/Listing/Detached.antt =====
-- The listing of an asynchronous archive, whose entries belong to no archive object, beside that of
-- a synchronous one.
use newtua_py.Base.{
  ℕ, ◌+◌, ◌≡◌, refl, ap, ◌⊎◌, inl, inr, String, none, some, List, [], ◌∷◌, map, length-map,
  if◌then◌else◌,
}
use newtua_py.Base.Int.{ℤ}
use newtua_py.Errors.{Exc, Result, ok, err, Result-cases}
use newtua_py.Paths.{PurePosixPath, path_eq}
use newtua_py.Listing.{
  RawEntry, Entry, Index, Ref, at, named, under, entry, index_from, safe_mtime, entry_from_raw,
  entries_from, make_entry, entries_from_raw, find, resolve_index, resolve_all,
}

-- The entry without its archive.
abbrev pub detach : Entry → Entry
detach e = record e { owner = none }

find-detach :
    (es : List Entry) (p : PurePosixPath) (name : String)
    → find (map detach es) p name ≡ find es p name
unfolding find
find-detach [] p name = refl
find-detach (e ∷ es) p name =
    ap (λ rest. if path_eq e.path p then ok e.index else rest) (find-detach es p name)

-- A position does not depend on whose the entries are.
pub resolve_index-detach :
    (es : List Entry) (ref : Ref) → resolve_index (map detach es) ref ≡ resolve_index es ref
unfolding resolve_index
resolve_index-detach es (at i) = rw (length-map detach es) refl
resolve_index-detach es (named name) = find-detach es _ _
resolve_index-detach es (under p) = find-detach es _ _
resolve_index-detach es (entry e) = refl

pub resolve_all-detach :
    (es : List Entry) (refs : List Ref) → resolve_all (map detach es) refs ≡ resolve_all es refs
unfolding resolve_all
resolve_all-detach es [] = refl
resolve_all-detach es (ref ∷ refs) =
    rw (resolve_index-detach es ref, resolve_all-detach es refs) refl

module _ (fromtimestamp : ℕ → Result ℤ) where
  -- The two results of building: both raise, the same exception, or the entries differ in the owner
  -- alone.
  abbrev Beside : Result (List Entry) → Result (List Entry) → Type 0
  Beside r r' =
      ((exc : Exc) × (r ≡ err exc) × (r' ≡ err exc))
      ⊎ ((es : List Entry) × (r ≡ ok es) × (r' ≡ ok (map detach es)))

  entries_from-detach :
      (owner i : ℕ) (raw : List RawEntry)
      → Beside
          (entries_from fromtimestamp (some owner) i raw)
          (entries_from fromtimestamp none i raw)
  unfolding entries_from entry_from_raw
  entries_from-detach owner i [] = inr ([], refl, refl)
  entries_from-detach owner i (r ∷ raw) = elim (Result-cases (safe_mtime fromtimestamp r.mtime)) [
    | inr (exc, failed) ↦ inl (exc, rw failed, rw failed)
    | inl (t, timed) ↦ elim (entries_from-detach owner (i + 1) raw) [
      | inl (exc, a, b) ↦ inl (exc, rw (timed, a), rw (timed, b))
      | inr (es, a, b) ↦ inr (make_entry (some owner) i r t ∷ es, rw (timed, a), rw (timed, b))
    ]
  ]

  pub entries_from_raw-detach :
      (owner : ℕ) (raw : List RawEntry)
      → ((exc : Exc) × (entries_from_raw fromtimestamp raw (some owner) ≡ err exc)
          × (entries_from_raw fromtimestamp raw none ≡ err exc))
        ⊎ ((es : List Entry) × (d d' : Index) × (entries_from_raw fromtimestamp raw (some owner)
              ≡ ok (es, d))
            × (entries_from_raw fromtimestamp raw none ≡ ok (map detach es, d')))
  unfolding entries_from_raw
  entries_from_raw-detach owner raw = elim (entries_from-detach owner 0 raw) [
    | inl (exc, a, b) ↦ inl (exc, rw a, rw b)
    | inr (es, a, b) ↦ inr (es, index_from [] es, index_from [] (map detach es), rw a, rw b)
  ]
