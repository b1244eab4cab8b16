-- ===== src/Exec/Keeps.antt =====
-- Invariants of methods, one rule for each way to make a method.
use newtua_py.Base.{Bool, true, false, if◌then◌else◌}
use newtua_py.Errors.{Exc, Result, ok, err}
use newtua_py.Exec.{Exec, pure, raise, lift, gets, continue, ◌>>=◌}

-- A call of the method in a state where `Inv` holds ends in one where it holds, be it by a value or
-- by an exception.
pub record Keeps {S A : Type 0} (Inv : S → Type 0) (method : Exec S A) : Type 0 where
  pub at : (before : S) → Inv before → Inv (method before).1

-- A method that only computes or looks leaves the state as it is.
module _ {S A : Type 0} {Inv : S → Type 0} where
  pub Keeps-lift : (outcome : Result A) → Keeps Inv (lift outcome)
  unfolding lift
  Keeps-lift outcome = record { at = λ before held. held }

  pub Keeps-gets : (look : S → A) → Keeps Inv (gets look)
  unfolding gets
  Keeps-gets look = record { at = λ before held. held }

  pub Keeps-raise : (exc : Exc) → Keeps Inv (raise {A = A} exc)
  unfolding raise lift
  Keeps-raise exc = Keeps-lift (err exc)

  pub Keeps-pure : (value : A) → Keeps Inv (pure value)
  unfolding pure lift
  Keeps-pure value = Keeps-lift (ok value)

  pub Keeps-if :
      (test : Bool) (then_do else_do : Exec S A)
      → Keeps Inv then_do
      → Keeps Inv else_do
      → Keeps Inv (if test then then_do else else_do)
  Keeps-if true then_do else_do of_then of_else = of_then
  Keeps-if false then_do else_do of_then of_else = of_else

-- The same of an `if` between two outcomes.
pub either :
    {S A : Type 0} (P : S → Type 0) (b : Bool) (x y : Result A × S)
    → P x.1
    → P y.1
    → P (if b then x else y).1
either P true x y hx hy = hx
either P false x y hx hy = hy

module _ {S A B : Type 0} {Inv : S → Type 0} where
  Keeps-continue :
      (outcome : Result A) (rest : A → Exec S B)
      → ((value : A) → Keeps Inv (rest value))
      → (s : S) → Inv s
      → Inv (continue outcome rest s).1
  Keeps-continue (ok value) rest of_rest s held = (of_rest value).at s held
  Keeps-continue (err exc) rest of_rest s held = held

  pub Keeps-bind :
      (method : Exec S A) (rest : A → Exec S B)
      → Keeps Inv method
      → ((value : A) → Keeps Inv (rest value))
      → Keeps Inv (method >>= rest)
  unfolding ◌>>=◌
  Keeps-bind method rest of_method of_rest = record {
    at = λ before held.
        Keeps-continue (method before).0 rest of_rest (method before).1 (of_method.at before held);
  }

pub ruleset keeps_rules = (Keeps-bind, Keeps-if, Keeps-gets, Keeps-lift, Keeps-pure, Keeps-raise)
