-- ===== src/Examples/Slices.antt =====
-- A slice forward and one back, of three entries.
use newtua_py.Base.{ℕ, ◌≡◌, refl, none, some, List, [], ◌∷◌}
use newtua_py.Base.Int.{pos, negsuc}
use newtua_py.Errors.{ok}
use newtua_py.Listing.{Entry, make_entry}
use newtua_py.Listing.Slices.{tuple_slice}
use newtua_py.Examples.{raw_entry}

abbrev entry_at : ℕ → Entry
entry_at i = make_entry none i (raw_entry "a" [] 1) none

abbrev three : List Entry
three = entry_at 0 ∷ entry_at 1 ∷ entry_at 2 ∷ []

reversed :
    tuple_slice three (record { start = none; stop = none; step = some (negsuc 0) })
    ≡ ok (entry_at 2 ∷ entry_at 1 ∷ entry_at 0 ∷ [])
unfolding tuple_slice
reversed = refl

last_two :
    tuple_slice three (record { start = some (negsuc 1); stop = none; step = none })
    ≡ ok (entry_at 1 ∷ entry_at 2 ∷ [])
unfolding tuple_slice
last_two = refl

every_other :
    tuple_slice three (record { start = some (negsuc 8); stop = some (pos 9); step = some (pos 2) })
    ≡ ok (entry_at 0 ∷ entry_at 2 ∷ [])
unfolding tuple_slice
every_other = refl
