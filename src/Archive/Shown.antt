-- ===== src/Archive/Shown.antt =====
-- How an archive is printed: `_human_size` and `__repr__` of python/newtua/_archive.py.
pub mod Size
pub mod Repr
use newtua_py.Base.{
  ℕ, zero, suc, ◌+◌, ◌*◌, ◌^◌, ◌<◌, ◌≤◌, ◌≡◌, refl, arith, String, ◌<>◌, Bool, true, false, ltb,
  Option, none, some, List, [], ◌∷◌, length, if◌then◌else◌,
}
use newtua_py.Base.Text.{str_nat}
use newtua_py.Base.Float.{round_half_even, float_of, one_decimal}
use newtua_py.Errors.{Exc, Result, ok, err, new, overflow_error, assertion_error, ◌>>=◌}
use newtua_py.Enums.{format_of, format_value}
use newtua_py.Listing.{Entry}
use newtua_py.Engine.{Engine}
use newtua_py.Archive.{State, Source}

-- `units[index]`
abbrev pub unit_at : ℕ → String
unit_at zero = "B"
unit_at (suc zero) = "KB"
unit_at (suc (suc zero)) = "MB"
unit_at (suc (suc (suc zero))) = "GB"
unit_at (suc (suc (suc (suc n)))) = "TB"

-- The loop: the float is `m / 1024 ^ index`, and every division by `step` is exact.
index_for : ℕ → ℕ → ℕ → ℕ
index_for zero m index = index
index_for (suc left) m index =
    let rest = index_for left m (index + 1) in if ltb m (1024 ^ (index + 1)) then index else rest

-- The text that is returned: without decimals in bytes, with one otherwise.
abbrev pub size_text : ℕ → ℕ → String
size_text m zero = str_nat m <> " " <> unit_at 0
size_text m (suc k) = one_decimal m (1024 ^ suc k) <> " " <> unit_at (suc k)

shown_size : Option ℕ → Result String
shown_size none = err (new overflow_error "int too large to convert to float")
shown_size (some m) = ok (size_text m (index_for 4 m 0))

-- `_human_size`
unfoldable pub human_size : ℕ → Result String
unfolding shown_size index_for
human_size n = shown_size (float_of n)

-- `sum(e.size for e in entries)`
abbrev pub total_size : List Entry → ℕ
total_size [] = 0
total_size (e ∷ es) = e.size + total_size es

module _ (E : Engine) where
  listed_repr : Option E.Reader → List Entry → Result String
  listed_repr none entries = err (new assertion_error "")
  listed_repr (some reader) entries = do
    format ← format_of (E.format reader)
    size ← human_size (total_size entries)
    ok (
        "<newtua Archive: "
        <> format_value format
        <> ", "
        <> str_nat (length entries)
        <> " entries, "
        <> size
        <> ">")

  repr_by : (Source → String) → Option (List Entry) → State E.Reader → Result String
  repr_by repr none s = ok ("<newtua Archive: " <> repr s.archive.source <> ", not opened yet>")
  repr_by repr (some entries) s = listed_repr s.archive.reader entries

  -- `__repr__`, over the `repr` of the source.
  unfoldable pub archive_repr : (Source → String) → State E.Reader → Result String
  unfolding repr_by listed_repr
  archive_repr repr s = repr_by repr s.archive.entries s
