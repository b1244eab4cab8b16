-- ===== src/Examples/Printed.antt =====
-- Archives that are printed, and an archive that is opened again.
use newtua_py.Base.{
  ℕ, ◌*◌, ◌/◌, ◌%◌, ◌^◌, ◌<◌, ◌≤◌, ◌≡◌, refl, sym, ap, arith, ◌⊎◌, String, ◌<>◌, Option, none, some,
  List, [], ◌∷◌, ◌+◌,
}
use newtua_py.Base.Text.{str_nat}
use newtua_py.Base.Float.{round_half_even, float_of, one_decimal}
use newtua_py.Errors.{Exc, ok, raise_for, raised, other, text}
use newtua_py.Enums.{format_of, zip}
use newtua_py.Exec.{◌>>=◌}
use newtua_py.Listing.{Entry, entries_from_raw, entry_from_raw, safe_mtime}
use newtua_py.Archive.{State, Source, bytes, init}
use newtua_py.Archive.Opening.{open_reader, backing_path, listing, set_password}
use newtua_py.Archive.History.{enters, Reach, here, next, start}
use newtua_py.Archive.Retry.{failed_open_lem, copied_once}
use newtua_py.Archive.Shown.{total_size, unit_at, human_size, archive_repr}
use newtua_py.Archive.Shown.Size.{IsNearest, human_size_lem}
use newtua_py.Archive.Shown.Repr.{KnownFormats, repr_lem}
use newtua_py.Examples.{engine, engine-DeletesNothing, machine, machine-NewNames}

human_size_kilobytes : human_size 1536 ≡ ok "1.5 KB"
unfolding human_size float_of round_half_even one_decimal str_nat
human_size_kilobytes = refl

-- One byte less than a megabyte.
human_size_rounded_up : human_size 1048575 ≡ ok "1024.0 KB"
unfolding human_size float_of round_half_even one_decimal str_nat
human_size_rounded_up = refl

human_size_terabytes : human_size 12345678901234567 ≡ ok "11228.3 TB"
unfolding human_size float_of round_half_even one_decimal str_nat
human_size_terabytes = refl

human_size_example :
    (k : ℕ) × (k ≤ 4)
    × ((k ≡ 0) ⊎ (1024 ^ k ≤ 1536))
    × ((k ≡ 4) ⊎ (1536 < 1024 ^ (k + 1)))
    × (((k ≡ 0) × (human_size 1536 ≡ ok (str_nat 1536 <> " " <> "B")))
        ⊎ ((q : ℕ) × IsNearest q (1536 * 10) (1024 ^ k)
            × (human_size 1536
                ≡ ok ((str_nat (q / 10) <> "." <> str_nat (q % 10)) <> " " <> unit_at k))))
human_size_example = human_size_lem 1536 (omega arith)

-- The source is an archive of two bytes.
abbrev unlisted_archive : State engine.Reader
unlisted_archive = start engine.Reader 5 (bytes (80 ∷ 75 ∷ [])) (some "x") none []

abbrev entered_archive : State engine.Reader
entered_archive = (listing engine machine unlisted_archive).1

abbrev entered_history : Reach engine machine unlisted_archive entered_archive
entered_history = next here (enters unlisted_archive)

abbrev repr_of_bytes : Source → String
repr_of_bytes source = "b'PK'"

engine-KnownFormats : KnownFormats engine
unfolding format_of
engine-KnownFormats reader = (zip, refl)

listed_size : (es : List Entry) → entered_archive.archive.entries ≡ some es → total_size es < 2 ^ 53
unfolding listing open_reader backing_path ◌>>=◌ entries_from_raw entry_from_raw safe_mtime
listed_size es h = let few : total_size es ≡ 4 = ap sizes (sym h) in omega (arith, few)
  where
    sizes : Option (List Entry) → ℕ
    sizes none = 0
    sizes (some es) = total_size es

repr_example : (text : String) × (archive_repr engine repr_of_bytes entered_archive ≡ ok text)
repr_example =
    repr_lem engine engine-KnownFormats machine engine-DeletesNothing entered_history repr_of_bytes
      listed_size

abbrev locked_out : Exc
locked_out = raised (other "NewtuaError") "wrong password" (text "wrong_password")

failed_open_example :
    let (r, s) =
      open_reader engine machine (start engine.Reader 5 (bytes (80 ∷ [])) (some "y") none []) in
    (r ≡ raise_for locked_out)
    × (s.host.disk ≡ [])
    × (s.archive ≡ init 5 (copied_once (bytes (80 ∷ []))) (some "y") none)
    × ((value : Option String) (reader : engine.Reader)
        → engine.open_archive (("t", 80 ∷ []) ∷ []) "t" value none ≡ ok reader
        → (open_reader engine machine (set_password value s)).0 ≡ ok reader)
failed_open_example =
    failed_open_lem engine machine machine-NewNames 5 (bytes (80 ∷ [])) (some "y") none [] (80 ∷ [])
      locked_out refl refl refl
