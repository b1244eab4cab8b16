-- ===== src/Host/Locked.antt =====
-- `release` of `_TempFile` (python/newtua/_archive.py) in the two steps that other threads can come
-- between: the count under the lock, and the call of the finalizer behind it.
pub mod Kept
pub mod Follows
use newtua_py.Base.{
  ℕ, zero, suc, ◌≡◌, refl, ap, arith, Bool, true, false, not, Option, none, some, List, [], ◌∷◌,
  get_elem?, get_elem?-lt, set, length, ◌<◌, get_elem?-set_self, if◌then◌else◌, Option-cases,
  Bool-cases, inl, inr,
}
use newtua_py.Base.Int.{pos, ◌-ℤ◌, ltb_ℤ}
use newtua_py.Host.{Host, TempFile, finalize, release, release_temp}

-- The part under the lock, and whether no holder is left.
counted_down : ℕ → Option TempFile → Host → Bool × Host
counted_down t none h = (false, h)
counted_down t (some f) h =
    let f' = record f { holders = f.holders -ℤ pos 1 } in
    (not (ltb_ℤ (pos 0) f'.holders), record h { temps = set h.temps t f' })

unfoldable pub count_down : ℕ → Host → Bool × Host
unfolding counted_down ◌-ℤ◌
count_down t h = counted_down t (get_elem? h.temps t) h

-- `self._delete()`
deleted : ℕ → Option TempFile → Host → Host
deleted t none h = h
deleted t (some f) h = finalize t f h

unfoldable pub delete : ℕ → Host → Host
unfolding deleted finalize
delete t h = deleted t (get_elem? h.temps t) h

pub set-set : (ts : List TempFile) (t : ℕ) (f g : TempFile) → set (set ts t f) t g ≡ set ts t g
set-set [] t f g = refl
set-set (x ∷ ts) zero f g = refl
set-set (x ∷ ts) (suc t) f g = ap (λ l. x ∷ l) (set-set ts t f g)

-- With nothing in between, the two steps are one release.
pub release_steps :
    (t : ℕ) (h : Host)
    → release t h ≡ (if (count_down t h).0 then delete t (count_down t h).1 else (count_down t h).1)
unfolding release count_down delete finalize
release_steps t h = elim (Option-cases (get_elem? h.temps t)) [
  | inl nowhere ↦ rw nowhere
  | inr (f, here) ↦
      let f' = record f { holders = f.holders -ℤ pos 1 } in
      let again = get_elem?-set_self h.temps t f' (get_elem?-lt h.temps t f here) in
      rw here (
        ground (
          arith,
          again,
          set-set h.temps t f' f',
          set-set h.temps t f' (record f' { finalizer = false }),
        ))
]
