-- ===== src/Listing/Slices.antt =====
-- `entries[start:stop:step]` of a tuple of entries.
use newtua_py.Base.{
  ℕ, zero, suc, ◌+◌, ◌-◌, ltb, Option, none, some, List, [], ◌∷◌, length, get_elem?, if◌then◌else◌,
}
use newtua_py.Base.Int.{ℤ, pos, negsuc}
use newtua_py.Errors.{Result, ok, err, new, value_error}
use newtua_py.Listing.{Entry}

-- `slice(start, stop, step)`
pub record Slice : Type 0 where
  pub start : Option ℤ
  pub stop : Option ℤ
  pub step : Option ℤ

abbrev smaller : ℕ → ℕ → ℕ
smaller a b = if ltb a b then a else b

-- A bound for steps forward, between 0 and `n`; `missing` is what no bound means.
pub forward : ℕ → ℕ → Option ℤ → ℕ
forward n missing none = missing
forward n missing (some (pos i)) = smaller i n
forward n missing (some (negsuc m)) = n - (m + 1)

-- A bound for steps back, between -1 and `n - 1`, plus one.
pub backward : ℕ → ℕ → Option ℤ → ℕ
backward n missing none = missing
backward n missing (some (pos i)) = smaller (i + 1) n
backward n missing (some (negsuc m)) = n - m

-- The positions from `i` up to `stop`. Each step goes one place forward at least, so the length of
-- the tuple is fuel enough.
up : ℕ → ℕ → ℕ → ℕ → List ℕ
up zero i stop step = []
up (suc fuel) i stop step =
    let rest = up fuel (i + step) stop step in if ltb i stop then i ∷ rest else []

-- The positions from `i - 1` down to above `stop - 1`.
down : ℕ → ℕ → ℕ → ℕ → List ℕ
down zero i stop step = []
down (suc fuel) i stop step =
    let rest = down fuel (i - step) stop step in if ltb stop i then (i - 1) ∷ rest else []

positions : ℕ → Slice → ℤ → Result (List ℕ)
positions n key (pos zero) = err (new value_error "slice step cannot be zero")
positions n key (pos (suc s)) = ok (up n (forward n 0 key.start) (forward n n key.stop) (suc s))
positions n key (negsuc s) = ok (down n (backward n n key.start) (backward n 0 key.stop) (suc s))

-- What stands at a position, in front of the rest; each position is in the tuple.
add_at : Option Entry → List Entry → List Entry
add_at none rest = rest
add_at (some e) rest = e ∷ rest

pick : List Entry → List ℕ → List Entry
pick es [] = []
pick es (i ∷ is_at) = add_at (get_elem? es i) (pick es is_at)

picked : List Entry → Result (List ℕ) → Result (List Entry)
picked es (ok is_at) = ok (pick es is_at)
picked es (err exc) = err exc

step_of : Option ℤ → ℤ
step_of none = pos 1
step_of (some step) = step

-- `entries[key]`
unfoldable pub tuple_slice : List Entry → Slice → Result (List Entry)
unfolding positions up down pick picked add_at step_of forward backward
tuple_slice es key = picked es (positions (length es) key (step_of key.step))
