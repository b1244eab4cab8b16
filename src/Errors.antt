-- ===== src/Errors.antt =====
-- The exceptions that the Python layer raises and handles, and the mapping from the compiled
-- module's error kinds (python/newtua/_errors.py; `_as_typed` of python/newtua/_batch.py).
pub mod Laws
use newtua_py.Base.{
  if◌then◌else◌, ◌≡◌, refl, ◌⊎◌, inl, inr, String, Bool, true, false, Option, none, some, List, [],
  ◌∷◌,
}
use newtua_py.Base.Text.{lookup}

-- The classes by name: those of `_errors.py`, and the built-in ones that the package raises or
-- handles. `other` is any further subclass of `Exception`, `other_base` one of `BaseException`.
pub data ExcClass : Type 0 where
  newtua_error unknown_format_error unsupported_error password_required_error : ExcClass
  wrong_password_error corrupt_archive_error missing_volume_error unsafe_path_error : ExcClass
  entry_not_found_error key_error os_error file_not_found_error index_error : ExcClass
  value_error overflow_error unsupported_operation not_implemented_error : ExcClass
  type_error assertion_error stop_async_iteration keyboard_interrupt : ExcClass
  other other_base : String → ExcClass

-- `isinstance(exc, NewtuaError)`, from the class statements.
unfoldable pub is_newtua_error : ExcClass → Bool
is_newtua_error newtua_error = true
is_newtua_error unknown_format_error = true
is_newtua_error unsupported_error = true
is_newtua_error password_required_error = true
is_newtua_error wrong_password_error = true
is_newtua_error corrupt_archive_error = true
is_newtua_error missing_volume_error = true
is_newtua_error unsafe_path_error = true
is_newtua_error _ = false

-- `isinstance(exc, KeyError)`.
unfoldable pub is_key_error : ExcClass → Bool
is_key_error entry_not_found_error = true
is_key_error key_error = true
is_key_error _ = false

-- `isinstance(exc, Exception)`: what `except Exception` takes.
abbrev pub is_exception : ExcClass → Bool
is_exception keyboard_interrupt = false
is_exception (other_base _) = false
is_exception _ = true

-- `isinstance(exc, (ValueError, OverflowError, OSError))`. `io.UnsupportedOperation` is both an
-- `OSError` and a `ValueError`.
unfoldable pub is_time_error : ExcClass → Bool
is_time_error value_error = true
is_time_error overflow_error = true
is_time_error os_error = true
is_time_error file_not_found_error = true
is_time_error unsupported_operation = true
is_time_error _ = false

-- `isinstance(exc, (PasswordRequiredError, WrongPasswordError))`.
abbrev pub is_password_error : ExcClass → Bool
is_password_error password_required_error = true
is_password_error wrong_password_error = true
is_password_error _ = false

-- The attribute `kind` of an exception: missing or `None`, a text, or another object.
pub data KindAttr : Type 0 where
  absent : KindAttr
  text : String → KindAttr
  other_object : KindAttr

-- An exception object: its class, the text of `str(exc)` and its `kind`; behind `raise … from`
-- also its cause.
pub data Exc : Type 0 where
  raised : ExcClass → String → KindAttr → Exc
  raised_from : ExcClass → String → KindAttr → Exc → Exc

-- `C(message)`, as the package itself makes it.
abbrev pub new : ExcClass → String → Exc
new cls message = raised cls message absent

abbrev pub class_of : Exc → ExcClass
class_of (raised cls _ _) = cls
class_of (raised_from cls _ _ _) = cls

-- `str(exc)`
abbrev pub message_of : Exc → String
message_of (raised _ message _) = message
message_of (raised_from _ message _ _) = message

-- `getattr(exc, "kind", None)`
abbrev pub kind_of : Exc → KindAttr
kind_of (raised _ _ kind) = kind
kind_of (raised_from _ _ kind _) = kind

-- A call that may raise.
pub data Result (A : Type 0) : Type 0 where
  ok : A → Result A
  err : Exc → Result A

-- A call behind another is made if that one returned.
infixl 10 ◌>>=◌
abbrev pub ◌>>=◌ : {A B : Type 0} → Result A → (A → Result B) → Result B
err exc >>= rest = err exc
ok value >>= rest = rest value

-- Two calls in a row return only if each of them does.
pub >>=-eq-ok :
    {A B : Type 0} {last : B} (call : Result A) (rest : A → Result B)
    → (call >>= rest) ≡ ok last
    → (value : A) × (call ≡ ok value) × (rest value ≡ ok last)
>>=-eq-ok (err exc) rest h = cc
>>=-eq-ok (ok value) rest h = (value, refl, h)

pub ok-injective : {A : Type 0} {a b : A} → ok a ≡ ok b → a ≡ b
ok-injective h = cc

-- To split on a result and keep the equation.
pub Result-cases :
    {A : Type 0} (r : Result A) → ((a : A) × (r ≡ ok a)) ⊎ ((exc : Exc) × (r ≡ err exc))
Result-cases (ok a) = inl (a, refl)
Result-cases (err exc) = inr (exc, refl)

-- `_BY_KIND`
abbrev pub by_kind : List (String × ExcClass)
by_kind =
    ("unknown_format", unknown_format_error)
    ∷ ("unsupported", unsupported_error)
    ∷ ("encrypted", password_required_error)
    ∷ ("wrong_password", wrong_password_error)
    ∷ ("corrupt", corrupt_archive_error)
    ∷ ("missing_volume", missing_volume_error)
    ∷ ("path_traversal", unsafe_path_error)
    ∷ ("io", os_error)
    ∷ ("invalid_index", index_error)
    ∷ []

or_newtua_error : Option ExcClass → ExcClass
or_newtua_error none = newtua_error
or_newtua_error (some cls) = cls

-- The class that `raise_for` chooses.
class_for : KindAttr → ExcClass
class_for absent = newtua_error
class_for (text kind) = or_newtua_error (lookup kind by_kind)
class_for other_object = newtua_error

-- `raise_for`: it never returns.
unfoldable pub raise_for : {A : Type 0} → Exc → Result A
unfolding class_for or_newtua_error
raise_for exc = err (raised_from (class_for (kind_of exc)) (message_of exc) absent exc)

-- What an `except Exception as exc: raise_for(exc)` around a call makes of it.
unfoldable pub typed : {A : Type 0} → Result A → Result A
typed (ok a) = ok a
typed (err exc) = if is_exception (class_of exc) then raise_for exc else err exc

-- The `try … except` of `_as_typed`.
caught : Exc → Result (Unit {0}) → Exc
caught exc (ok _) = exc
caught exc (err typed) = typed

-- `_as_typed`
unfoldable pub as_typed : Exc → Exc
unfolding raise_for caught
as_typed exc = elim (kind_of exc) [
  | absent ↦ exc
  | text _ ↦ caught exc (raise_for exc)
  | other_object ↦ caught exc (raise_for exc)
]
