-- ===== src/Enums/Laws.antt =====
-- The calls `Format(…)`, `EntryKind(…)` and `EventKind(…)`.
use newtua_py.Base.{String, ◌≡◌, refl, List, [], ◌∷◌, some, arith, text_eq_iff}
use newtua_py.Errors.{ok}
use newtua_py.Enums.{member_of, Format, alz, formats, format_value, format_of, enum_call}

-- A member that is found has the value that was looked for.
value-member_of {ℓ} :
    {A : Type ℓ} (value : A → String) (xs : List A) (s : String) (x : A)
    → member_of value xs s ≡ some x
    → value x ≡ s
value-member_of value [] s x h = ground arith
value-member_of value (y ∷ ys) s x h =
    ground (arith, text_eq_iff (value y) s, value-member_of value ys s x)

format_of-format_value : (f : Format) → format_of (format_value f) ≡ ok f
unfolding format_of format_value
format_of-format_value alz = refl
format_of-format_value _ = refl

-- What an enumeration's call returns is a member with the value that was given.
value-enum_call :
    {A : Type 0} (value : A → String) (xs : List A) (name s : String) (x : A)
    → enum_call value xs name s ≡ ok x
    → value x ≡ s
value-enum_call value xs name s x h = value-member_of value xs s x (ground arith)

format_value-format_of :
    (name : String) (f : Format) → format_of name ≡ ok f → format_value f ≡ name
unfolding format_of
format_value-format_of name f h = value-enum_call format_value formats "Format" name f h

-- `Format(f.value)` is `f`, for every member, so no two members share a value; and a format that
-- `Format(name)` returns has that name as its value.
format_lem :
    ((f : Format) → format_of (format_value f) ≡ ok f)
    × ((name : String) (f : Format) → format_of name ≡ ok f → format_value f ≡ name)
format_lem = (format_of-format_value, format_value-format_of)
