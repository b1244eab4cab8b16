-- ===== src/Archive/Access/Lookup.antt =====
-- Looking an entry up by its name, by the index and by a scan, on a whole archive; and asking
-- whether a password is needed.
use newtua_py.Base.{
  ℕ, zero, suc, ◌≡◌, ◌≢◌, false, refl, ◌∙◌, ap, subst, arith, ◌⊎◌, inl, inr, ◌↔◌, String, Bool,
  true, some, List, [], ◌∷◌, get_elem?, Bool-cases,
}
use newtua_py.Errors.{
  ExcClass, password_required_error, wrong_password_error, Exc, Result, ok, err, class_of,
  is_password_error, Result-cases,
}
use newtua_py.Exec.{lift, continue, ◌>>=◌}
use newtua_py.Paths.{PurePosixPath, posix_path}
use newtua_py.Listing.{Entry, Index, named, resolve_index, item_by_path, entries_from_raw}
use newtua_py.Listing.Resolve.{resolve_index-item_by_path}
use newtua_py.Engine.{Engine, Platform}
use newtua_py.Archive.{State}
use newtua_py.Archive.Opening.{listing}
use newtua_py.Archive.Opening.Steps.{bind-ok, bind-err}
use newtua_py.Archive.Cache.{Coherent, unlisted, listed, listing-Coherent, listing-kept}
use newtua_py.Archive.Access.{
  the_index, by_path, item, get_item, index_of, any_encrypted, or_password_error,
  encrypted_in_listing, needs_password,
}

-- The two classes of the `except`.
password_error_cases :
    (c : ExcClass)
    → (((c ≡ password_required_error) ⊎ (c ≡ wrong_password_error)) × (is_password_error c ≡ true))
      ⊎ ((c ≢ password_required_error) × (c ≢ wrong_password_error) × (is_password_error c ≡ false))
password_error_cases password_required_error = inl (inl refl, refl)
password_error_cases wrong_password_error = inl (inr refl, refl)
password_error_cases _ = inr (λ h. cc, λ h. cc, refl)

module _ (E : Engine) (P : Platform) where
  by_path-some :
      (p : PurePosixPath) (name : String) (s : State E.Reader) (d : Index)
      → s.archive.by_name ≡ some d
      → by_path E P p name s ≡ (item_by_path d p name, s)
  unfolding by_path ◌>>=◌ the_index
  by_path-some p name s d h =
      ap (λ o. continue (the_index o) (λ d. lift (item_by_path d p name)) s) h

  -- On one listing with its own index, the two lookups agree.
  agree :
      (name : String) (s : State E.Reader) (es : List Entry)
      → Coherent P s.archive
      → s.archive.entries ≡ some es
      → ((exc : Exc) × (item E P (named name) es s ≡ (err exc, s))
          × (resolve_index es (named name) ≡ err exc))
        ⊎ ((e : Entry) × (item E P (named name) es s ≡ (ok e, s))
            × (resolve_index es (named name) ≡ ok e.index)
            × (get_elem? es e.index ≡ some e))
  unfolding item
  agree name s es (unlisted none_listed) kept = cc
  agree name s es (listed reader raw es' d has_reader kept' indexed built) kept =
      let same : es' ≡ es = cc in
      let b =
        subst (λ x. entries_from_raw P.fromtimestamp raw (some s.archive.self_id) ≡ ok (x, d)) same
          built in
      let i = by_path-some (posix_path name) name s d indexed in
      elim (resolve_index-item_by_path P.fromtimestamp raw (some s.archive.self_id) es d name b) [
        | inl (e, at_path, resolved, there) ↦ inr (e, i ∙ ap (λ r. (r, s)) at_path, resolved, there)
        | inr (not_at_path, unresolved) ↦ inl (_, i ∙ ap (λ r. (r, s)) not_at_path, unresolved)
      ]

  get_item_then :
      (name : String) (s : State E.Reader) {es : List Entry}
      → (listing E P s).0 ≡ ok es
      → get_item E P (named name) s ≡ item E P (named name) es (listing E P s).1
  unfolding get_item
  get_item_then name s h = bind-ok (listing E P) (item E P (named name)) h

  index_of_then :
      (name : String) (s : State E.Reader) {es : List Entry}
      → (listing E P s).0 ≡ ok es
      → index_of E P (named name) s ≡ (resolve_index es (named name), (listing E P s).1)
  unfolding index_of ◌>>=◌
  index_of_then name s {es} h = bind-ok (listing E P) (λ es. lift (resolve_index es (named name))) h

  -- `ar[name]` and the position that `read(name)`, `open(name)` and a selection use agree, on any
  -- archive whose listing, if it has one, came with its index: either both raise, the same
  -- exception, or the entry that `ar[name]` returns is the one in the listing at that position.
  -- Both leave the archive as the listing leaves it, and its index is never missing.
  pub get_item-index_of :
      (name : String) (s : State E.Reader)
      → Coherent P s.archive
      → ((exc : Exc) × (get_item E P (named name) s ≡ (err exc, (listing E P s).1))
          × (index_of E P (named name) s ≡ (err exc, (listing E P s).1)))
        ⊎ ((es : List Entry) × (e : Entry) × (listing E P s ≡ (ok es, (listing E P s).1))
            × (get_item E P (named name) s ≡ (ok e, (listing E P s).1))
            × (index_of E P (named name) s ≡ (ok e.index, (listing E P s).1))
            × (get_elem? es e.index ≡ some e))
  unfolding get_item index_of ◌>>=◌
  get_item-index_of name s h = elim (Result-cases (listing E P s).0) [
    | inr (exc, failed) ↦ inl (
      exc,
      bind-err (listing E P) (item E P (named name)) failed,
      bind-err (listing E P) (λ es. lift (resolve_index es (named name))) failed,
    )
    | inl (es, returned) ↦
        let t = (listing E P s).1 in
        let whole : listing E P s ≡ (ok es, t) = ap (λ r. (r, t)) returned in
        elim (agree name t es (listing-Coherent E P s h) (listing-kept E P s t es whole)) [
          | inl (exc, not_found, unresolved) ↦ inl (
            exc,
            get_item_then name s returned ∙ not_found,
            index_of_then name s returned ∙ ap (λ r. (r, t)) unresolved,
          )
          | inr (e, is_found, resolved, there) ↦ inr (
            es,
            e,
            whole,
            get_item_then name s returned ∙ is_found,
            index_of_then name s returned ∙ ap (λ r. (r, t)) resolved,
            there,
          )
        ]
  ]

  -- Some entry of the listing is encrypted.
  abbrev pub SomeEncrypted : List Entry → Type 0
  SomeEncrypted es = (k : ℕ) × (e : Entry) × (get_elem? es k ≡ some e) × (e.is_encrypted ≡ true)

  some_encrypted : (es : List Entry) → any_encrypted es ≡ true → SomeEncrypted es
  unfolding any_encrypted
  some_encrypted [] h = cc
  some_encrypted (e ∷ es) h = elim (Bool-cases e.is_encrypted) [
    | inl encrypted ↦ (0, e, refl, encrypted)
    | inr plain ↦ let (k, f, p, q) = some_encrypted es (ground arith) in (suc k, f, p, q)
  ]

  encrypted_any :
      (es : List Entry) (k : ℕ) (e : Entry)
      → get_elem? es k ≡ some e
      → e.is_encrypted ≡ true
      → any_encrypted es ≡ true
  unfolding any_encrypted
  encrypted_any [] k e p q = cc
  encrypted_any (f ∷ es) zero e p q = ground arith
  encrypted_any (f ∷ es) (suc k) e p q = let rest = encrypted_any es k e p q in ground arith

  -- What `needs_password` makes of the listing.
  abbrev behind : Result (List Entry) → State E.Reader → Result Bool × State E.Reader
  behind r t =
      let (b, t') = continue r (λ es s. (ok (any_encrypted es), s)) t in (or_password_error b, t')

  -- `needs_password` says whether some entry of the listing is encrypted; where the listing raises
  -- it returns `True` for `PasswordRequiredError` and `WrongPasswordError`, and raises an exception of
  -- any other class again.
  pub needs_password_cases :
      (s : State E.Reader)
      → ((es : List Entry) × (b : Bool) × ((listing E P s).0 ≡ ok es)
          × (needs_password E P s ≡ (ok b, (listing E P s).1))
          × ((b ≡ true) ↔ SomeEncrypted es))
        ⊎ ((exc : Exc) × ((listing E P s).0 ≡ err exc)
            × ((((class_of exc ≡ password_required_error) ⊎ (class_of exc ≡ wrong_password_error))
                  × (needs_password E P s ≡ (ok true, (listing E P s).1)))
                ⊎ ((class_of exc ≢ password_required_error)
                    × (class_of exc ≢ wrong_password_error)
                    × (needs_password E P s ≡ (err exc, (listing E P s).1)))))
  unfolding needs_password encrypted_in_listing or_password_error ◌>>=◌
  needs_password_cases s = elim (Result-cases (listing E P s).0) [
    | inl (es, returned) ↦ inl (
      es,
      any_encrypted es,
      returned,
      ap (λ r. behind r (listing E P s).1) returned,
      (some_encrypted es, λ (k, e, p, q). encrypted_any es k e p q),
    )
    | inr (exc, failed) ↦
        let behind_it = ap (λ r. behind r (listing E P s).1) failed in
        inr (
          exc,
          failed,
          elim (password_error_cases (class_of exc)) [
            | inl (which, raised) ↦ inl (which, behind_it ∙ rw raised refl)
            | inr (a, b, raised) ↦ inr (a, b, behind_it ∙ rw raised refl)
          ],
        )
  ]
