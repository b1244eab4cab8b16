-- ===== src/Base/Float.antt =====
-- Python's floats, as far as sizes need them: a whole number made a float, and a float that is a
-- whole number over a power of two printed with one decimal. Both round half to even.
use Prim.Native.Nat.{ℕ, zero, suc, ◌+◌, ◌*◌, ◌/◌, ◌%◌, ◌^◌, ◌<◌}
use Prim.Native.String.{String, ◌++◌}
use mathlib.Core.Bool.{true, false}
use mathlib.Core.Option.{Option, none, some}
use mathlib.Core.Path.{◌≡◌, ap, ◌∙◌}
use native.Mathlib.Omega.{arith}
use newtua_py.Base.Tests.{ltb, if◌then◌else◌}
use newtua_py.Base.Text.{str_nat}

-- The whole number nearest to a / b.
unfoldable pub round_half_even : ℕ → ℕ → ℕ
round_half_even a b =
    let q = a / b in
    let r = a % b in if ltb (r + r) b then q else if ltb b (r + r) then q + 1 else q + q % 2

-- A float has 53 bits: the units by which `n` may be counted are tried one after the other.
in_units : ℕ → ℕ → ℕ → Option ℕ
in_units zero n unit = none
in_units (suc fuel) n unit = elim (ltb (n / unit) (2 ^ 53)) [
  | true ↦ some (round_half_even n unit * unit)
  | false ↦ in_units fuel n (unit * 2)
]

-- `float(n)`, which is a whole number again; `none` stands for the `OverflowError` from 2^1024 on.
unfoldable pub float_of : ℕ → Option ℕ
unfolding in_units
float_of n = elim (in_units 972 n 1) [
  | none ↦ none
  | some m ↦ if ltb m (2 ^ 1024) then some m else none
]

-- `f"{m / d:.1f}"`, where the division is exact.
unfoldable pub one_decimal : ℕ → ℕ → String
one_decimal m d =
    let tenths = round_half_even (m * 10) d in str_nat (tenths / 10) ++ "." ++ str_nat (tenths % 10)

whole_quotient : (n : ℕ) → round_half_even n 1 * 1 ≡ n
unfolding round_half_even
whole_quotient n = ground arith

-- Counted by ones.
by_ones : (fuel n : ℕ) → n < 2 ^ 53 → in_units (suc fuel) n 1 ≡ some n
unfolding in_units
by_ones fuel n h =
    let small : ltb (n / 1) (2 ^ 53) ≡ true = ground arith in
    ap (λ b. elim b [ true ↦ some (round_half_even n 1 * 1) | false ↦ in_units fuel n (1 * 2) ])
      small
    ∙ ap some (whole_quotient n)

-- A whole number below 2^53 is a float.
pub float_of_small : (n : ℕ) → n < 2 ^ 53 → float_of n ≡ some n
unfolding float_of
float_of_small n h =
    let small : ltb n (2 ^ 1024) ≡ true = ground arith in
    ap (λ o. elim o [ none ↦ none | some m ↦ if ltb m (2 ^ 1024) then some m else none ])
      (by_ones 971 n h)
    ∙ ap (λ b. if b then some n else none) small
