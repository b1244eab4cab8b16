-- ===== src/Archive/Coherence.antt =====
-- The listing of an archive and its name index, after any history.
use newtua_py.Base.{ℕ, ◌≡◌, refl, ◌∙◌, String, Option, some, List, get_elem?, ◌⊎◌}
use newtua_py.Errors.{Exc, ok, err}
use newtua_py.Listing.{Entry, named}
use newtua_py.Host.{Disk}
use newtua_py.Engine.{Engine, Platform, DeletesNothing}
use newtua_py.Archive.{State, Source}
use newtua_py.Archive.Opening.{open_reader, listing, close, set_password, drop_tempfile}
use newtua_py.Archive.Opening.Kept.{Kept-refl, open_reader-Kept}
use newtua_py.Archive.Opening.Steps.{open_reader-some}
use newtua_py.Archive.Access.{get_item, index_of}
use newtua_py.Archive.Access.Lookup.{get_item-index_of}
use newtua_py.Archive.Cache.{Coherent, unlisted, listed, listing-Coherent}
use newtua_py.Archive.History.{Law, Reach, Reach-Keeps, start}

module _ (E : Engine) (P : Platform) where
  open_reader-Coherent :
      (s : State E.Reader) → Coherent P s.archive → Coherent P (open_reader E P s).1.archive
  open_reader-Coherent s (unlisted none_listed) =
      unlisted (((open_reader-Kept E P).at s (Kept-refl s)).entries ∙ none_listed)
  open_reader-Coherent s (listed reader raw es d has_reader kept indexed built) =
      rw (open_reader-some E P s reader has_reader)
        (listed reader raw es d has_reader kept indexed built)

  law : Law E P (λ a _. Coherent P a)
  unfolding close set_password drop_tempfile
  law = record {
    opened = record { at = open_reader-Coherent };
    listed = record { at = listing-Coherent E P };
    on_posix = λ a open_stream expected. record { at = λ h c. c };
    on_windows = λ a open_stream expected. record { at = λ h c. c };
    grown = λ s d more c. c;
    rekeyed = λ value s c. unlisted refl;
    closed = λ s c. unlisted refl;
    stream_closed = λ a s c. c;
    stream_used = λ call a s c. c;
  }

module _ (E : Engine) (P : Platform) (adds : DeletesNothing E) where
  pub Reach-Coherent :
      {self_id : ℕ} {source : Source} {password encoding : Option String} {disk : Disk}
      {s : State E.Reader}
      → Reach E P (start E.Reader self_id source password encoding disk) s
      → Coherent P s.archive
  Reach-Coherent r = Reach-Keeps adds (law E P) (unlisted refl) r

  -- After any history of calls on a new archive, failed ones and new passwords included, `ar[name]`
  -- and the position that `read(name)`, `open(name)` and a selection use agree: either both raise, the
  -- same exception, or the entry that `ar[name]` returns is the one in the listing at that position.
  -- Both leave the archive as the listing leaves it, and its index is never missing.
  pub get_item-agrees :
      {self_id : ℕ} {source : Source} {password encoding : Option String} {disk : Disk}
      {s : State E.Reader}
      → Reach E P (start E.Reader self_id source password encoding disk) s
      → (name : String)
      → ((exc : Exc) × (get_item E P (named name) s ≡ (err exc, (listing E P s).1))
          × (index_of E P (named name) s ≡ (err exc, (listing E P s).1)))
        ⊎ ((es : List Entry) × (e : Entry) × (listing E P s ≡ (ok es, (listing E P s).1))
            × (get_item E P (named name) s ≡ (ok e, (listing E P s).1))
            × (index_of E P (named name) s ≡ (ok e.index, (listing E P s).1))
            × (get_elem? es e.index ≡ some e))
  get_item-agrees {s = s} r name = get_item-index_of E P name s (Reach-Coherent r)
