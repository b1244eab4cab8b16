-- ===== src/Exec.antt =====
-- Methods that change an object and may raise. What was written before a raise stays written, so
-- the state comes back beside the exception too.
pub mod Keeps
use newtua_py.Base.{Bool, if◌then◌else◌}
use newtua_py.Errors.{Exc, Result, ok, err}

abbrev pub Exec : Type 0 → Type 0 → Type 0
Exec S A = S → Result A × S

module _ {S A : Type 0} where
  -- Look at the state.
  pub gets : (S → A) → Exec S A
  gets look before = (ok (look before), before)

  -- A result that no state is needed for.
  pub lift : Result A → Exec S A
  lift outcome before = (outcome, before)

  pub raise : Exc → Exec S A
  raise exc before = (err exc, before)

  pub pure : A → Exec S A
  pure value before = (ok value, before)

module _ {S : Type 0} where
  pub raise_if : Bool → Exc → Exec S (Unit {0})
  raise_if test exc before = (if test then err exc else ok tt, before)

  pub modify : (S → S) → Exec S (Unit {0})
  modify change before = (ok tt, change before)

abbrev pub continue : {S A B : Type 0} → Result A → (A → Exec S B) → Exec S B
continue (ok a) f s = f a s
continue (err exc) f s = (err exc, s)

infixl 10 ◌>>=◌ ◌>>◌
-- Opening this opens the other ways to make a method too.
unfoldable pub ◌>>=◌ : {S A B : Type 0} → Exec S A → (A → Exec S B) → Exec S B
unfolding pure raise lift gets modify raise_if
◌>>=◌ m f s = let (r, s') = m s in continue r f s'

abbrev pub ◌>>◌ : {S A B : Type 0} → Exec S A → Exec S B → Exec S B
m >> k = m >>= λ _. k
