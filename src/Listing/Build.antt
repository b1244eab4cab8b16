-- ===== src/Listing/Build.antt =====
-- The listing and its name index, as `_entries_from_raw` builds them.
use newtua_py.Base.{
  String, ◌≢◌, ◌∙◌, ap, ◌⊎◌, inl, inr, sym, Bool-cases, text_eq, text_eq_iff, ℕ, zero, suc, ◌+◌,
  ◌≡◌, refl, subst, true, Option, none, some, List, [], ◌∷◌, arith, get_elem?, if◌then◌else◌,
}
use newtua_py.Base.Int.{ℤ}
use newtua_py.Enums.{EntryKind, file, dir, symlink}
use newtua_py.Errors.{
  Result-cases, value_error, overflow_error, os_error, Exc, Result, ok, err, class_of,
  is_time_error, >>=-eq-ok, ok-injective,
}
use newtua_py.Paths.{PurePosixPath, posix_path, path_eq}
use newtua_py.Paths.Equality.{path_eq_iff}
use newtua_py.Listing.{
  RawEntry, Entry, Index, get, set_default, index_from, safe_kind, safe_mtime, entry_from_raw,
  time_or_none, entries_from, make_entry, entries_from_raw,
}

-- The entry at each place of the listing has that place as its index.
abbrev pub IsIndexed : List Entry → Type 0
IsIndexed es = (i : ℕ) (e : Entry) → get_elem? es i ≡ some e → e.index ≡ i

-- The first entry with a path, by a scan of the whole listing.
unfoldable pub first : List Entry → PurePosixPath → Option Entry
first [] p = none
first (e ∷ es) p = if path_eq e.path p then some e else first es p

abbrev or_else : Option Entry → Option Entry → Option Entry
or_else none o = o
or_else (some e) o = some e

get-set_default :
    (d : Index) (p : PurePosixPath) (e : Entry) (q : PurePosixPath)
    → get (set_default d p e) q ≡ or_else (get d q) (if path_eq p q then some e else none)
unfolding get set_default
get-set_default [] p e q = refl
get-set_default ((r, f) ∷ d) p e q =
    ground (arith, get-set_default d p e q, path_eq_iff r p, path_eq_iff r q, path_eq_iff p q)

get-index_from :
    (d : Index) (es : List Entry) (q : PurePosixPath)
    → get (index_from d es) q ≡ or_else (get d q) (first es q)
unfolding index_from first
get-index_from d [] q = ground arith
get-index_from d (e ∷ es) q =
    ground (arith, get-index_from (set_default d e.path e) es q, get-set_default d e.path e q)

-- The time of an entry: none if the engine gives none or the conversion raises, and else what the
-- conversion gives.
abbrev pub Timed : (ℕ → Result ℤ) → Option ℕ → Option ℤ → Type 0
Timed fromtimestamp none shown = shown ≡ none
Timed fromtimestamp (some raw) shown =
    ((t : ℤ) × (fromtimestamp raw ≡ ok t) × (shown ≡ some t))
    ⊎ ((exc : Exc) × (fromtimestamp raw ≡ err exc) × (shown ≡ none))

-- The kind of an entry: the one with the engine's text, and a file for a text that no kind has.
abbrev pub Kinded : String → EntryKind → Type 0
Kinded raw kind =
    ((raw ≡ "file") × (kind ≡ file))
    ⊎ ((raw ≡ "dir") × (kind ≡ dir))
    ⊎ ((raw ≡ "symlink") × (kind ≡ symlink))
    ⊎ ((raw ≢ "file") × (raw ≢ "dir") × (raw ≢ "symlink") × (kind ≡ file))

-- What an entry at place `i` shows of the engine's entry.
pub record Shows (fromtimestamp : ℕ → Result ℤ) (archive : Option ℕ) (i : ℕ) (r : RawEntry)
    (e : Entry) : Type 0 where
  pub index : e.index ≡ i
  pub path : e.path ≡ posix_path r.path
  pub raw_name : e.raw_name ≡ r.raw_name
  pub kind : Kinded r.kind e.kind
  pub size : e.size ≡ r.size
  pub is_encrypted : e.is_encrypted ≡ r.is_encrypted
  pub mode : e.mode ≡ r.mode
  pub mtime : Timed fromtimestamp r.mtime e.mtime
  pub owner : e.owner ≡ archive

-- The same of two whole lists, from place `i` on: they have one length, and agree place by place.
abbrev pub AllShow : (ℕ → Result ℤ) → Option ℕ → ℕ → List RawEntry → List Entry → Type 0
AllShow fromtimestamp owner i [] [] = Unit
AllShow fromtimestamp owner i [] (_ ∷ _) = ⊥
AllShow fromtimestamp owner i (_ ∷ _) [] = ⊥
AllShow fromtimestamp owner i (r ∷ raw) (e ∷ es) =
    Shows fromtimestamp owner i r e × AllShow fromtimestamp owner (i + 1) raw es

index_of_shown :
    (fromtimestamp : ℕ → Result ℤ) (owner : Option ℕ) (i : ℕ) (raw : List RawEntry)
    (es : List Entry)
    → AllShow fromtimestamp owner i raw es
    → (k : ℕ) (e : Entry) → get_elem? es k ≡ some e
    → e.index ≡ i + k
index_of_shown fromtimestamp owner i [] [] h k e p = ground arith
index_of_shown fromtimestamp owner i [] (_ ∷ _) h k e p = elim h [ ]
index_of_shown fromtimestamp owner i (_ ∷ _) [] h k e p = elim h [ ]
index_of_shown fromtimestamp owner i (r ∷ raw) (f ∷ es) (s, h) zero e p = ground (arith, s.index)
index_of_shown fromtimestamp owner i (r ∷ raw) (f ∷ es) (s, h) (suc k) e p =
    omega (arith, index_of_shown fromtimestamp owner (i + 1) raw es h k e p)

safe_kind-Kinded : (raw : String) → Kinded raw (safe_kind raw)
unfolding safe_kind
safe_kind-Kinded raw = elim (Bool-cases (text_eq "file" raw)) [
  | inl f ↦ inl (ground (arith, text_eq_iff "file" raw), ground arith)
  | inr not_file ↦ inr (elim (Bool-cases (text_eq "dir" raw)) [
    | inl d ↦ inl (ground (arith, text_eq_iff "dir" raw), ground arith)
    | inr not_dir ↦ inr (elim (Bool-cases (text_eq "symlink" raw)) [
      | inl l ↦ inl (ground (arith, text_eq_iff "symlink" raw), ground arith)
      | inr not_link ↦ inr (
        ground (arith, text_eq_iff "file" raw),
        ground (arith, text_eq_iff "dir" raw),
        ground (arith, text_eq_iff "symlink" raw),
        ground arith,
      )
    ])
  ])
]

module _ (fromtimestamp : ℕ → Result ℤ) where
  -- The documented failures of `datetime.fromtimestamp`: `ValueError` for a year out of range,
  -- `OverflowError` and `OSError` for what the C library cannot convert.
  abbrev pub Documented : Type 0
  Documented =
      (raw : ℕ) (exc : Exc)
      → fromtimestamp raw ≡ err exc
      → (class_of exc ≡ value_error) ⊎ (class_of exc ≡ overflow_error) ⊎ (class_of exc ≡ os_error)

  handled :
      Documented
      → (raw : ℕ) (exc : Exc) → fromtimestamp raw ≡ err exc
      → is_time_error (class_of exc) ≡ true
  unfolding is_time_error
  handled documented raw exc failed = elim (documented raw exc failed) [
    | inl e ↦ rw e refl
    | inr other ↦ elim other [ inl e ↦ rw e refl | inr e ↦ rw e refl ]
  ]

  safe_mtime-ok :
      Documented → (raw : Option ℕ) → (t : Option ℤ) × (safe_mtime fromtimestamp raw ≡ ok t)
  unfolding safe_mtime
  safe_mtime-ok documented none = (none, refl)
  safe_mtime-ok documented (some raw) = timed (fromtimestamp raw) refl
    where
      timed :
          (r : Result ℤ)
          → fromtimestamp raw ≡ r
          → (t : Option ℤ) × (safe_mtime fromtimestamp (some raw) ≡ ok t)
      timed (ok t) e = (some t, rw (e, safe_mtime))
      timed (err exc) e = (none, rw (e, safe_mtime, handled documented raw exc e))

  none_after : (exc : Exc) (t : Option ℤ) → time_or_none fromtimestamp (err exc) ≡ ok t → t ≡ none
  unfolding safe_mtime
  none_after exc t h = elim (Bool-cases (is_time_error (class_of exc))) [
    | inl taken ↦ let h' = rw taken at h in sym (ok-injective h')
    | inr passed ↦ let h' = rw passed at h in cc
  ]

  safe_mtime-Timed :
      (raw : Option ℕ) (t : Option ℤ)
      → safe_mtime fromtimestamp raw ≡ ok t
      → Timed fromtimestamp raw t
  unfolding safe_mtime
  safe_mtime-Timed none t h = sym (ok-injective h)
  safe_mtime-Timed (some raw) t h = elim (Result-cases (fromtimestamp raw)) [
    | inl (at, converted) ↦ inl (
      at,
      converted,
      sym (ok-injective (sym (ap (λ r. time_or_none fromtimestamp r) converted) ∙ h)),
    )
    | inr (exc, failed) ↦
        inr
          (exc, failed, none_after exc t (sym (ap (λ r. time_or_none fromtimestamp r) failed) ∙ h))
  ]

  entry_from_raw-Shows :
      (owner : Option ℕ) (i : ℕ) (r : RawEntry) (e : Entry)
      → entry_from_raw fromtimestamp owner i r ≡ ok e
      → Shows fromtimestamp owner i r e
  unfolding entry_from_raw
  entry_from_raw-Shows owner i r e h =
      let (t, timed, made) = >>=-eq-ok (safe_mtime fromtimestamp r.mtime) _ h in
      subst (Shows fromtimestamp owner i r) (ok-injective made) (record {
        index = refl;
        path = refl;
        raw_name = refl;
        kind = safe_kind-Kinded r.kind;
        size = refl;
        is_encrypted = refl;
        mode = refl;
        mtime = safe_mtime-Timed r.mtime t timed;
        owner = refl;
      })

  entries_from-AllShow :
      (owner : Option ℕ) (i : ℕ) (raw : List RawEntry) (es : List Entry)
      → entries_from fromtimestamp owner i raw ≡ ok es
      → AllShow fromtimestamp owner i raw es
  unfolding entries_from
  entries_from-AllShow owner i [] es h = shown_nil es h
    where
      shown_nil : (es : List Entry) → ok [] ≡ ok es → AllShow fromtimestamp owner i [] es
      shown_nil [] h = tt
      shown_nil (e ∷ es) h = cc
  entries_from-AllShow owner i (r ∷ raw) es h =
      let (e, first_ok, rest) = >>=-eq-ok (entry_from_raw fromtimestamp owner i r) _ h in
      let (es', rest_ok, same) = >>=-eq-ok (entries_from fromtimestamp owner (i + 1) raw) _ rest in
      subst (AllShow fromtimestamp owner i (r ∷ raw)) (ok-injective same) (
        entry_from_raw-Shows owner i r e first_ok,
        entries_from-AllShow owner (i + 1) raw es' rest_ok,
      )

  entries_from-ok :
      Documented
      → (owner : Option ℕ) (i : ℕ) (raw : List RawEntry)
      → (es : List Entry) × (entries_from fromtimestamp owner i raw ≡ ok es)
  unfolding entries_from entry_from_raw
  entries_from-ok documented owner i [] = ([], refl)
  entries_from-ok documented owner i (r ∷ raw) =
      let (t, time_ok) = safe_mtime-ok documented r.mtime in
      let (es, rest_ok) = entries_from-ok documented owner (i + 1) raw in
      (make_entry owner i r t ∷ es, rw (time_ok, rest_ok))

  -- A listing that is built agrees with the engine's entry by entry: the same number, each at its
  -- place with that place as its index, its name parsed, an unknown kind read as a file, and the
  -- given owner.
  pub entries_from_raw-AllShow :
      (raw : List RawEntry) (owner : Option ℕ) (es : List Entry) (d : Index)
      → entries_from_raw fromtimestamp raw owner ≡ ok (es, d)
      → AllShow fromtimestamp owner 0 raw es
  unfolding entries_from_raw
  entries_from_raw-AllShow raw owner es d h =
      let (es', built, same) = >>=-eq-ok (entries_from fromtimestamp owner 0 raw) _ h in
      subst (AllShow fromtimestamp owner 0 raw) (ground arith)
        (entries_from-AllShow owner 0 raw es' built)

  -- If `datetime.fromtimestamp` fails in the documented ways only, no timestamp, kind or name that
  -- an archive holds stops the listing from being built.
  pub entries_from_raw-ok :
      Documented
      → (raw : List RawEntry) (owner : Option ℕ)
      → (es : List Entry) × (d : Index) × (entries_from_raw fromtimestamp raw owner ≡ ok (es, d))
        × AllShow fromtimestamp owner 0 raw es
  unfolding entries_from_raw
  entries_from_raw-ok documented raw owner =
      let (es, built) = entries_from-ok documented owner 0 raw in
      (es, index_from [] es, rw built, entries_from-AllShow owner 0 raw es built)

  -- The name index of a built listing finds, for every path, the first entry with that path in
  -- archive order, and nothing where there is none.
  pub get-entries_from_raw :
      (raw : List RawEntry) (owner : Option ℕ) (es : List Entry) (d : Index)
      → entries_from_raw fromtimestamp raw owner ≡ ok (es, d)
      → (p : PurePosixPath) → get d p ≡ first es p
  unfolding entries_from_raw get
  get-entries_from_raw raw owner es d h p =
      let (es', built, same) = >>=-eq-ok (entries_from fromtimestamp owner 0 raw) _ h in
      ground (arith, get-index_from [] es' p)

  pub entries_from_raw-IsIndexed :
      (raw : List RawEntry) (owner : Option ℕ) (es : List Entry) (d : Index)
      → entries_from_raw fromtimestamp raw owner ≡ ok (es, d)
      → IsIndexed es
  entries_from_raw-IsIndexed raw owner es d h i e p = omega (
    arith,
    index_of_shown fromtimestamp owner 0 raw es (entries_from_raw-AllShow raw owner es d h) i e p,
  )
