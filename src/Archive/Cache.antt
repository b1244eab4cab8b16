-- ===== src/Archive/Cache.antt =====
-- The cached listing and its name index.
use newtua_py.Base.{◌≡◌, refl, sym, ◌∙◌, ap, subst, inl, inr, none, some, List}
use newtua_py.Errors.{Exc, ok-injective, Result, ok, err}
use newtua_py.Listing.{RawEntry, Entry, Index, entries_from_raw}
use newtua_py.Engine.{Engine, Platform}
use newtua_py.Archive.{Archive, State}
use newtua_py.Archive.Opening.{open_reader, listing}
use newtua_py.Archive.Opening.Steps.{listing_cases, listing-some}
use newtua_py.Archive.Opening.Kept.{Kept, Kept-refl, open_reader-Kept}

-- Where there is a listing, there is a reader too, the listing is one that was built from some
-- engine's listing, and the name index is the one that was built with it.
pub data Coherent (P : Platform) {R : Type 0} (a : Archive R) : Type 0 where
  unlisted : a.entries ≡ none → Coherent P a
  listed :
      (reader : R) (raw : List RawEntry) (es : List Entry) (d : Index)
      → a.reader ≡ some reader
      → a.entries ≡ some es
      → a.by_name ≡ some d
      → entries_from_raw P.fromtimestamp raw (some a.self_id) ≡ ok (es, d)
      → Coherent P a

listed_same :
    {S : Type 0} {p : Result (List Entry) × S} {s t : S} {es fs : List Entry}
    → p ≡ (ok es, s)
    → p ≡ (ok fs, t)
    → es ≡ fs
listed_same e h = ok-injective (ap (λ q. q.0) (sym e ∙ h))

not_listed :
    {S : Type 0} {p : Result (List Entry) × S} {s t : S} {exc : Exc} {es : List Entry}
    → p ≡ (err exc, s)
    → p ≡ (ok es, t)
    → ⊥
not_listed {S} {p} {s} {t} {exc} {es} e h = err_ok (ap (λ q. q.0) (sym e ∙ h))
  where
    err_ok : err exc ≡ ok es → ⊥
    err_ok h = cc

module _ (E : Engine) (P : Platform) where
  open_reader-same : (s : State E.Reader) → Kept s (open_reader E P s).1
  open_reader-same s = (open_reader-Kept E P).at s (Kept-refl s)

  pub listing-kept :
      (s t : State E.Reader) (es : List Entry)
      → listing E P s ≡ (ok es, t)
      → t.archive.entries ≡ some es
  listing-kept s t es h = elim (listing_cases E P s) [
    | inl (es', kept, e) ↦ on_result (sym e ∙ h) (kept ∙ ap some (listed_same e h))
    | inr (inl (exc, none_listed, e)) ↦ absurd (not_listed e h)
    | inr (inr (reader, es', d, none_listed, has_reader, built, e)) ↦
        on_result (sym e ∙ h) (ap some (listed_same e h))
  ]
    where
      on_result :
          {p q : Result (List Entry) × State E.Reader}
          → p ≡ q
          → p.1.archive.entries ≡ some es
          → q.1.archive.entries ≡ some es
      on_result e =
          subst (λ (p : Result (List Entry) × State E.Reader). p.1.archive.entries ≡ some es) e

  -- A listing that was returned is kept: each further call returns it again, asks the engine for
  -- nothing and changes nothing.
  listing_cached :
      (s t : State E.Reader) (es : List Entry)
      → listing E P s ≡ (ok es, t)
      → listing E P t ≡ (ok es, t)
  listing_cached s t es h = listing-some E P t es (listing-kept s t es h)

  -- A failed listing leaves nothing listed, and any other leaves the listing and the index that were
  -- built together.
  pub listing-Coherent :
      (s : State E.Reader) → Coherent P s.archive → Coherent P (listing E P s).1.archive
  listing-Coherent s h = elim (listing_cases E P s) [
    | inl (es, kept, e) ↦
        subst (λ (p : Result (List Entry) × State E.Reader). Coherent P p.1.archive) (sym e) h
    | inr (inl (exc, none_listed, e)) ↦
        subst (λ (p : Result (List Entry) × State E.Reader). Coherent P p.1.archive) (sym e)
          (unlisted ((open_reader-same s).entries ∙ none_listed))
    | inr (inr (reader, es, d, none_listed, has_reader, built, e)) ↦
        subst (λ (p : Result (List Entry) × State E.Reader). Coherent P p.1.archive) (sym e)
          (listed reader (E.entries reader) es d has_reader refl refl built)
  ]

  -- A listing touches neither the streams nor the descriptors.
  pub listing-elsewhere :
      (s : State E.Reader)
      → ((listing E P s).1.host.streams ≡ s.host.streams)
        × ((listing E P s).1.host.open_fds ≡ s.host.open_fds)
        × ((listing E P s).1.host.next_fd ≡ s.host.next_fd)
  listing-elsewhere s =
      let k = open_reader-same s in
      elim (listing_cases E P s) [
        | inl (es, kept, e) ↦ (
          ap (λ p. p.1.host.streams) e,
          ap (λ p. p.1.host.open_fds) e,
          ap (λ p. p.1.host.next_fd) e,
        )
        | inr (inl (exc, none_listed, e)) ↦ (
          ap (λ p. p.1.host.streams) e ∙ k.streams,
          ap (λ p. p.1.host.open_fds) e ∙ k.open_fds,
          ap (λ p. p.1.host.next_fd) e ∙ k.next_fd,
        )
        | inr (inr (reader, es, d, none_listed, has_reader, built, e)) ↦ (
          ap (λ p. p.1.host.streams) e ∙ k.streams,
          ap (λ p. p.1.host.open_fds) e ∙ k.open_fds,
          ap (λ p. p.1.host.next_fd) e ∙ k.next_fd,
        )
      ]
