-- ===== src/Base/Text.antt =====
-- Texts: the decimal form of an integer, and lookup by a text.
use Prim.Native.Nat.{ℕ, zero, suc, ◌+◌, ◌/◌, ◌%◌}
use Prim.Native.String.{String, ◌++◌}
use mathlib.Core.Option.{Option, none, some}
use mathlib.Core.List.{List, [], ◌∷◌}
use text.Mathlib.Text.{◌==◌ as text_eq}
use newtua_py.Base.Tests.{ltb, if◌then◌else◌}
use newtua_py.Base.Int.{ℤ, pos, negsuc}

digit : ℕ → String
digit zero = "0"
digit (suc zero) = "1"
digit (suc (suc zero)) = "2"
digit (suc (suc (suc zero))) = "3"
digit (suc (suc (suc (suc zero)))) = "4"
digit (suc (suc (suc (suc (suc zero))))) = "5"
digit (suc (suc (suc (suc (suc (suc zero)))))) = "6"
digit (suc (suc (suc (suc (suc (suc (suc zero))))))) = "7"
digit (suc (suc (suc (suc (suc (suc (suc (suc zero)))))))) = "8"
digit (suc (suc (suc (suc (suc (suc (suc (suc (suc n))))))))) = "9"

-- The decimal digits in front of `out`; a number has fewer digits than its successor as fuel.
digits : ℕ → ℕ → String → String
digits zero n out = out
digits (suc fuel) n out =
    let shown = digit (n % 10) ++ out in
    let rest = digits fuel (n / 10) shown in if ltb n 10 then shown else rest

-- `str(n)` of an int that is not negative.
unfoldable pub str_nat : ℕ → String
unfolding digits digit
str_nat n = digits (suc n) n ""

-- `str(n)` of any int.
unfoldable pub str_int : ℤ → String
unfolding str_nat
str_int (pos n) = str_nat n
str_int (negsuc n) = "-" ++ str_nat (n + 1)

-- `d.get(key)` of a dict with string keys, written as its items.
abbrev pub lookup {ℓ} : {A : Type ℓ} → String → List (String × A) → Option A
lookup key [] = none
lookup key ((k, v) ∷ rest) = if text_eq k key then some v else lookup key rest
