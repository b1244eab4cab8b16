-- ===== src/Archive/Shown/Size.antt =====
-- What the text of a size says.
use newtua_py.Base.{
  ℕ, zero, suc, ◌+◌, ◌*◌, ◌/◌, ◌%◌, ◌^◌, ◌<◌, ◌≤◌, ◌≡◌, refl, ap, arith, ◌⊎◌, inl, inr, ◌<>◌, ltb,
  Bool-cases, if◌then◌else◌,
}
use native.Mathlib.Nat.{div-add-mod', mod-lt, add-mul}
use newtua_py.Base.Text.{str_nat}
use newtua_py.Base.Float.{round_half_even, float_of_small, one_decimal}
use newtua_py.Errors.{ok}
use newtua_py.Archive.Shown.{unit_at, index_for, size_text, shown_size, human_size}

-- `q` is a whole number nearest to a / b.
abbrev pub IsNearest : ℕ → ℕ → ℕ → Type 0
IsNearest q a b = (2 * a ≤ 2 * (q * b) + b) × (2 * (q * b) ≤ 2 * a + b)

parity : (q : ℕ) → (q % 2 ≡ 0) ⊎ (q % 2 ≡ 1)
parity q = ground arith

-- A quotient and a remainder, rounded.
round_near :
    (q r a b : ℕ)
    → q * b + r ≡ a
    → r < b
    → IsNearest (if ltb (r + r) b then q else if ltb b (r + r) then q + 1 else q + q % 2) a b
round_near q r a b whole small = elim (Bool-cases (ltb (r + r) b)) [
  | inl below ↦ rw below (ground arith, ground arith)
  | inr not_below ↦ elim (Bool-cases (ltb b (r + r))) [
    | inl above ↦
        rw (not_below, above) (ground (arith, add-mul q 1 b), ground (arith, add-mul q 1 b))
    | inr not_above ↦ elim (parity q) [
      | inl even ↦
          rw (not_below, not_above, even)
            (ground (arith, add-mul q 0 b), ground (arith, add-mul q 0 b))
      | inr odd ↦
          rw (not_below, not_above, odd)
            (ground (arith, add-mul q 1 b), ground (arith, add-mul q 1 b))
    ]
  ]
]

round_half_even-IsNearest : (a b : ℕ) → 0 < b → IsNearest (round_half_even a b) a b
unfolding round_half_even
round_half_even-IsNearest a b h = round_near (a / b) (a % b) a b (div-add-mod' a b) (mod-lt a h)

power_pos : (k : ℕ) → 0 < 1024 ^ k
power_pos zero = omega arith
power_pos (suc k) = omega (arith, power_pos k)

-- The unit that the loop ends with.
index_for_cases :
    (left m index : ℕ)
    → (index ≡ 0) ⊎ (1024 ^ index ≤ m)
    → let k = index_for left m index in
      (index ≤ k)
      × (k ≤ index + left)
      × ((k ≡ 0) ⊎ (1024 ^ k ≤ m))
      × ((k ≡ index + left) ⊎ (m < 1024 ^ (k + 1)))
unfolding index_for
index_for_cases zero m index h = (omega arith, omega arith, h, inl (omega arith))
index_for_cases (suc left) m index h = elim (Bool-cases (ltb m (1024 ^ (index + 1)))) [
  | inl small ↦ rw small (omega arith, omega arith, h, inr (ground arith))
  | inr large ↦
      let rest = index_for_cases left m (index + 1) (inr (ground arith)) in
      let (a, b, c, d) = rest in
      rw large (
        omega arith,
        omega arith,
        c,
        elim d [ inl last ↦ inl (omega arith) | inr small ↦ inr small ],
      )
]

-- For a size below 2^53, `_human_size` picks the largest unit, of bytes to terabytes, that is not
-- more than the size; in bytes it prints the size as it is, and in any other unit a number of tenths
-- that is nearest to the exact quotient.
pub human_size_lem :
    (n : ℕ)
    → n < 2 ^ 53
    → (k : ℕ) × (k ≤ 4)
      × ((k ≡ 0) ⊎ (1024 ^ k ≤ n))
      × ((k ≡ 4) ⊎ (n < 1024 ^ (k + 1)))
      × (((k ≡ 0) × (human_size n ≡ ok (str_nat n <> " " <> "B")))
          ⊎ ((q : ℕ) × IsNearest q (n * 10) (1024 ^ k)
              × (human_size n
                  ≡ ok ((str_nat (q / 10) <> "." <> str_nat (q % 10)) <> " " <> unit_at k))))
unfolding human_size one_decimal
human_size_lem n h =
    let (a, b, c, d) = index_for_cases 4 n 0 (inl refl) in
    (index_for 4 n 0, b, c, d, shown (index_for 4 n 0) (ap shown_size (float_of_small n h)))
  where
    shown :
        (k : ℕ)
        → human_size n ≡ ok (size_text n k)
        → ((k ≡ 0) × (human_size n ≡ ok (str_nat n <> " " <> "B")))
          ⊎ ((q : ℕ) × IsNearest q (n * 10) (1024 ^ k)
              × (human_size n
                  ≡ ok ((str_nat (q / 10) <> "." <> str_nat (q % 10)) <> " " <> unit_at k)))
    shown zero e = inl (refl, e)
    shown (suc k) e = inr (
      round_half_even (n * 10) (1024 ^ suc k),
      round_half_even-IsNearest (n * 10) (1024 ^ suc k) (power_pos (suc k)),
      e,
    )
