-- ===== src/Archive/Opening/Steps.antt =====
-- What one call of `_open` or `_listing` comes to.
use newtua_py.Base.{
  ◌≡◌, ap, ◌∙◌, ◌⊎◌, inl, inr, none, some, List, Option, refl, Option-cases, Bool-cases, Bool, true,
  false, not, ◌&&◌, String, if◌then◌else◌,
}
use newtua_py.Errors.{
  Exc, Result, ok, err, new, file_not_found_error, class_of, is_exception, raise_for, ok-injective,
  Result-cases,
}
use newtua_py.Exec.{Exec, raise, gets, lift, continue, ◌>>=◌}
use newtua_py.Exec.Keeps.{either}
use newtua_py.Listing.{Entry, Index, entries_from_raw}
use newtua_py.Engine.{Engine, Platform}
use newtua_py.Host.{exists}
use newtua_py.Archive.{has_own_path, State}
use newtua_py.Archive.Opening.{
  keep_reader, backing_path, call_open, reopen, open_if_needed, open_reader, listing,
  list_if_needed, keep_listing,
}

module _ {S A B : Type 0} (m : Exec S A) (k : A → Exec S B) {s : S} where
  pub bind-err : {exc : Exc} → (m s).0 ≡ err exc → (m >>= k) s ≡ (err exc, (m s).1)
  unfolding ◌>>=◌
  bind-err h = ap (λ r. continue r k (m s).1) h

  pub bind-ok : {a : A} → (m s).0 ≡ ok a → (m >>= k) s ≡ k a (m s).1
  unfolding ◌>>=◌
  bind-ok h = ap (λ r. continue r k (m s).1) h

module _ (E : Engine) (P : Platform) where
  pub listing-some :
      (s : State E.Reader) (es : List Entry)
      → s.archive.entries ≡ some es
      → listing E P s ≡ (ok es, s)
  unfolding listing ◌>>=◌
  listing-some s es h = ap (λ o. list_if_needed E P o s) h

  listing-none :
      (s : State E.Reader) → s.archive.entries ≡ none → listing E P s ≡ list_if_needed E P none s
  unfolding listing
  listing-none s h = ap (λ o. list_if_needed E P o s) h

  -- The rest of `_listing` behind `_open`.
  abbrev build : E.Reader → Exec (State E.Reader) (List Entry)
  build reader = gets (λ s. s.archive.self_id) >>= λ self_id.
      lift (entries_from_raw P.fromtimestamp (E.entries reader) (some self_id)) >>= keep_listing E P

  pub listing_unopened :
      (s : State E.Reader) {exc : Exc}
      → s.archive.entries ≡ none
      → (open_reader E P s).0 ≡ err exc
      → listing E P s ≡ (err exc, (open_reader E P s).1)
  unfolding list_if_needed
  listing_unopened s h failed = listing-none s h ∙ bind-err (open_reader E P) (build) failed

  listing_opened :
      (s : State E.Reader) {reader : E.Reader}
      → s.archive.entries ≡ none
      → (open_reader E P s).0 ≡ ok reader
      → listing E P s ≡ build reader (open_reader E P s).1
  unfolding list_if_needed
  listing_opened s h opened = listing-none s h ∙ bind-ok (open_reader E P) build opened

  -- A reader that is returned is the archive's.
  abbrev Opened : Result E.Reader × State E.Reader → Type 0
  Opened p = (r : E.Reader) → p.0 ≡ ok r → p.1.archive.reader ≡ some r

  keep_reader-Opened :
      (result : Result E.Reader) (s : State E.Reader) → Opened (keep_reader E P result s)
  unfolding keep_reader raise_for
  keep_reader-Opened (ok reader) s r h = ap some (ok-injective h)
  keep_reader-Opened (err exc) s r h = elim (Bool-cases (is_exception (class_of exc))) [
    | inl ordinary ↦ let failed = rw ordinary at h in cc
    | inr base ↦ let failed = rw base at h in cc
  ]

  continue-Opened :
      {A : Type 0} (result : Result A) (f : A → Exec (State E.Reader) E.Reader) (s : State E.Reader)
      → ((a : A) (s : State E.Reader) → Opened (f a s))
      → Opened (continue result f s)
  continue-Opened (ok a) f s each r h = each a s r h
  continue-Opened (err exc) f s each r h = cc

  reopen-Opened : (s : State E.Reader) → Opened (reopen E P s)
  unfolding reopen call_open ◌>>=◌
  reopen-Opened s =
      continue-Opened (backing_path P E.Reader s).0
        (λ p s'.
          (if has_own_path s'.archive.source && not (exists p s'.host.disk)
              then raise (new file_not_found_error p)
              else call_open E P p)
            s')
        (backing_path P E.Reader s).1
        λ p s'. call-Opened p s' (has_own_path s'.archive.source && not (exists p s'.host.disk))
    where
      call-Opened :
          (p : String) (s : State E.Reader) (missing : Bool)
          → Opened ((if missing then raise (new file_not_found_error p) else call_open E P p) s)
      call-Opened p s true r h = cc
      call-Opened p s false r h = keep_reader-Opened _ s r h

  if-Opened :
      (b : Bool) (x y : Result E.Reader × State E.Reader)
      → Opened x
      → Opened y
      → Opened (if b then x else y)
  if-Opened true x y of_x of_y = of_x
  if-Opened false x y of_x of_y = of_y

  open_if_needed-Opened :
      (o : Option E.Reader) (s : State E.Reader)
      → s.archive.reader ≡ o
      → Opened (open_if_needed E P o s)
  unfolding open_if_needed ◌>>=◌
  open_if_needed-Opened none s e r h = reopen-Opened s r h
  open_if_needed-Opened (some reader) s e r h = e ∙ ap some (ok-injective h)

  refused-Opened : (s : State E.Reader) (exc : Exc) → Opened (err exc, s)
  refused-Opened s exc r h = cc

  open_reader-Opened : (s : State E.Reader) → Opened (open_reader E P s)
  unfolding open_reader
  open_reader-Opened s =
      if-Opened s.archive.closed _ (open_if_needed E P s.archive.reader s) (refused-Opened s _)
        (open_if_needed-Opened s.archive.reader s refl)

  -- With a reader there is nothing to open.
  pub open_reader-some :
      (s : State E.Reader) (r : E.Reader) → s.archive.reader ≡ some r → (open_reader E P s).1 ≡ s
  unfolding open_reader open_if_needed ◌>>=◌
  open_reader-some s r h =
      either (λ t. t ≡ s) s.archive.closed _ (open_if_needed E P s.archive.reader s) refl
        (ap (λ o. (open_if_needed E P o s).1) h)

  -- The state behind a listing that was built.
  abbrev pub with_listing : State E.Reader → List Entry → Index → State E.Reader
  with_listing s es d = record s {
    archive = record s.archive { entries = some es; by_name = some d };
  }

  built_cases :
      (reader : E.Reader) (s : State E.Reader)
      → ((exc : Exc) × (build reader s ≡ (err exc, s)))
        ⊎ ((es : List Entry) × (d : Index) × (entries_from_raw P.fromtimestamp
                (E.entries reader)
                (some s.archive.self_id)
              ≡ ok (es, d))
            × (build reader s ≡ (ok es, with_listing s es d)))
  unfolding keep_listing ◌>>=◌
  built_cases reader s =
      elim (Result-cases
        (entries_from_raw P.fromtimestamp (E.entries reader) (some s.archive.self_id))) [
          | inl ((es, d), h) ↦ inr (es, d, h, ap (λ r. continue r (keep_listing E P) s) h)
          | inr (exc, h) ↦ inl (exc, ap (λ r. continue r (keep_listing E P) s) h)
        ]

  -- A listing is the one that is kept, or it fails, or it is built from what the opened reader
  -- lists.
  pub listing_cases :
      (s : State E.Reader)
      → ((es : List Entry) × (s.archive.entries ≡ some es) × (listing E P s ≡ (ok es, s)))
        ⊎ ((exc : Exc) × (s.archive.entries ≡ none)
            × (listing E P s ≡ (err exc, (open_reader E P s).1)))
        ⊎ ((reader : E.Reader) × (es : List Entry) × (d : Index) × (s.archive.entries ≡ none)
            × ((open_reader E P s).1.archive.reader ≡ some reader)
            × (entries_from_raw P.fromtimestamp
                  (E.entries reader)
                  (some (open_reader E P s).1.archive.self_id)
                ≡ ok (es, d))
            × (listing E P s ≡ (ok es, with_listing (open_reader E P s).1 es d)))
  listing_cases s = elim (Option-cases s.archive.entries) [
    | inr (es, h) ↦ inl (es, h, listing-some s es h)
    | inl h ↦ elim (Result-cases (open_reader E P s).0) [
      | inr (exc, failed) ↦ inr (inl (exc, h, listing_unopened s h failed))
      | inl (reader, opened) ↦ elim (built_cases reader (open_reader E P s).1) [
        | inl (exc, e) ↦ inr (inl (exc, h, listing_opened s h opened ∙ e))
        | inr (es, d, built, e) ↦ inr (
            inr (
              reader,
              es,
              d,
              h,
              open_reader-Opened s reader opened,
              built,
              listing_opened s h opened ∙ e,
            ))
      ]
    ]
  ]
