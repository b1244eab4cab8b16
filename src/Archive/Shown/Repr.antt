-- ===== src/Archive/Shown/Repr.antt =====
-- Printing an archive: `__repr__` on a whole archive.
use newtua_py.Base.{ℕ, ◌^◌, ◌<◌, ◌≡◌, refl, ap, String, ◌<>◌, Option, some, List, length}
use newtua_py.Base.Float.{float_of_small}
use newtua_py.Base.Text.{str_nat}
use newtua_py.Errors.{ok}
use newtua_py.Enums.{Format, format_of, format_value}
use newtua_py.Listing.{Entry}
use newtua_py.Host.{Disk}
use newtua_py.Engine.{Engine, Platform, DeletesNothing}
use newtua_py.Archive.{State, Source}
use newtua_py.Archive.Cache.{Coherent, unlisted, listed}
use newtua_py.Archive.Coherence.{Reach-Coherent}
use newtua_py.Archive.History.{Reach, start}
use newtua_py.Archive.Shown.{
  total_size, size_text, shown_size, index_for, human_size, listed_repr, repr_by, archive_repr,
}

-- The engine names formats that the package knows.
abbrev pub KnownFormats : Engine → Type 0
KnownFormats E = (reader : E.Reader) → (f : Format) × (format_of (E.format reader) ≡ ok f)

human_size-ok : (n : ℕ) → n < 2 ^ 53 → (text : String) × (human_size n ≡ ok text)
unfolding human_size
human_size-ok n h = (size_text n (index_for 4 n 0), ap shown_size (float_of_small n h))

module _ (E : Engine) (known : KnownFormats E) where
  listed_repr-ok :
      (reader : E.Reader) (es : List Entry)
      → total_size es < 2 ^ 53
      → (text : String) × (listed_repr E (some reader) es ≡ ok text)
  unfolding listed_repr
  listed_repr-ok reader es small =
      let (f, named) = known reader in
      let (size, shown) = human_size-ok (total_size es) small in
      (
        "<newtua Archive: "
            <> format_value f
            <> ", "
            <> str_nat (length es)
            <> " entries, "
            <> size
            <> ">",
        rw (named, shown) refl,
      )

  repr-ok :
      (P : Platform) (repr : Source → String) (s : State E.Reader)
      → Coherent P s.archive
      → ((es : List Entry) → s.archive.entries ≡ some es → total_size es < 2 ^ 53)
      → (text : String) × (archive_repr E repr s ≡ ok text)
  unfolding archive_repr repr_by
  repr-ok P repr s (unlisted none_listed) small =
      ("<newtua Archive: " <> repr s.archive.source <> ", not opened yet>", rw none_listed refl)
  repr-ok P repr s (listed reader raw es d has_reader kept indexed built) small =
      let (text, shown) = listed_repr-ok reader es (small es kept) in
      (text, rw (kept, has_reader) shown)

  -- After any history of calls on a new archive, failed ones, new passwords and `close` included,
  -- `repr(ar)` returns a text: it never meets a listing without a reader. The engine is taken to
  -- name known formats, and the entries to have less than 2^53 bytes together.
  pub repr_lem :
      (P : Platform)
      → DeletesNothing E
      → {self_id : ℕ} {source : Source} {password encoding : Option String} {disk : Disk}
        {s : State E.Reader}
      → Reach E P (start E.Reader self_id source password encoding disk) s
      → (repr : Source → String)
      → ((es : List Entry) → s.archive.entries ≡ some es → total_size es < 2 ^ 53)
      → (text : String) × (archive_repr E repr s ≡ ok text)
  repr_lem P adds {s = s} r repr small = repr-ok P repr s (Reach-Coherent E P adds r) small
