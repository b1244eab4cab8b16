-- ===== src/Listing/Compare.antt =====
-- Equality of entries, and the search for one: the comparison that `@dataclass` gives `Entry` of
-- python/newtua/_entry.py.
use newtua_py.Base.{
  Bool, true, false, not, ◌&&◌, ◌||◌, ◌==◌, text_eq, Option, none, some, List, [], ◌∷◌,
}
use newtua_py.Base.Int.{ℤ, pos, negsuc}
use newtua_py.Enums.{entry_kind_value}
use newtua_py.Paths.{path_eq}
use newtua_py.Listing.{Bytes, Entry}

-- `a == b` of two entries: the fields but `_archive`, in the order of the dataclass.
options_eq : {A : Type 0} → (A → A → Bool) → Option A → Option A → Bool
options_eq eq none none = true
options_eq eq none (some _) = false
options_eq eq (some _) none = false
options_eq eq (some a) (some b) = eq a b

bytes_eq : Bytes → Bytes → Bool
bytes_eq [] [] = true
bytes_eq [] (_ ∷ _) = false
bytes_eq (_ ∷ _) [] = false
bytes_eq (a ∷ r) (b ∷ s) = a == b && bytes_eq r s

ints_eq : ℤ → ℤ → Bool
ints_eq (pos a) (pos b) = a == b
ints_eq (pos _) (negsuc _) = false
ints_eq (negsuc _) (pos _) = false
ints_eq (negsuc a) (negsuc b) = a == b

bools_eq : Bool → Bool → Bool
bools_eq true b = b
bools_eq false b = not b

unfoldable pub entry_eq : Entry → Entry → Bool
unfolding options_eq bytes_eq ints_eq bools_eq
entry_eq a b =
    a.index == b.index
    && path_eq a.path b.path
    && bytes_eq a.raw_name b.raw_name
    && text_eq (entry_kind_value a.kind) (entry_kind_value b.kind)
    && a.size == b.size
    && bools_eq a.is_encrypted b.is_encrypted
    && options_eq ◌==◌ a.mode b.mode
    && options_eq ints_eq a.mtime b.mtime

-- `key in entries`
unfoldable pub contains_entry : List Entry → Entry → Bool
contains_entry [] key = false
contains_entry (e ∷ es) key = entry_eq e key || contains_entry es key
