-- ===== src/Errors/Laws.antt =====
-- What `raise_for` and `_as_typed` promise their callers.
use newtua_py.Base.{
  ◌≢◌, String, List, [], ◌∷◌, ◌∙◌, ap, Option, some, none, text_eq, ◌≡◌, refl, ◌⊎◌, inl, inr,
  Bool-cases, true, arith, text_eq_iff,
}
use newtua_py.Base.Text.{lookup}
use newtua_py.Errors.{
  by_kind, unknown_format_error, unsupported_error, password_required_error, wrong_password_error,
  corrupt_archive_error, missing_volume_error, unsafe_path_error, newtua_error, ExcClass, os_error,
  index_error, is_exception, KindAttr, absent, text, other_object, typed, class_of, Exc, raised,
  raised_from, message_of, kind_of, err, class_for, raise_for, as_typed,
}

-- The kind of the engine's error that a class stands for, if there is one.
abbrev pub stands_for : ExcClass → Option String
stands_for unknown_format_error = some "unknown_format"
stands_for unsupported_error = some "unsupported"
stands_for password_required_error = some "encrypted"
stands_for wrong_password_error = some "wrong_password"
stands_for corrupt_archive_error = some "corrupt"
stands_for missing_volume_error = some "missing_volume"
stands_for unsafe_path_error = some "path_traversal"
stands_for os_error = some "io"
stands_for index_error = some "invalid_index"
stands_for _ = none

-- The class stands for that kind; or it is `NewtuaError`, and no class stands for the kind.
abbrev pub Fitting : KindAttr → ExcClass → Type 0
Fitting k cls =
    ((kind : String) × (k ≡ text kind) × (stands_for cls ≡ some kind))
    ⊎ ((cls ≡ newtua_error)
        × ((c : ExcClass) (kind : String) → stands_for c ≡ some kind → k ≢ text kind))

-- The class that a table gives, where each class of it stands for its own key.
abbrev AllFit : List (String × ExcClass) → Type 0
AllFit [] = Unit
AllFit ((name, cls) ∷ table) = (stands_for cls ≡ some name) × AllFit table

abbrev NoKey : String → List (String × ExcClass) → Type 0
NoKey kind [] = Unit
NoKey kind ((name, _) ∷ table) = (name ≢ kind) × NoKey kind table

looked_up :
    (kind : String) (table : List (String × ExcClass))
    → AllFit table
    → ((cls : ExcClass) × (lookup kind table ≡ some cls) × (stands_for cls ≡ some kind))
      ⊎ ((lookup kind table ≡ none) × NoKey kind table)
looked_up kind [] fit = inr (refl, tt)
looked_up kind ((name, cls) ∷ table) (own, fit) = elim (Bool-cases (text_eq name kind)) [
  | inl same ↦ inl (cls, ground arith, own ∙ ap some (ground (arith, text_eq_iff name kind)))
  | inr differs ↦ elim (looked_up kind table fit) [
    | inl (c, at, stands) ↦ inl (c, ground arith, stands)
    | inr (nowhere, others) ↦ inr (ground arith, (ground (arith, text_eq_iff name kind), others))
  ]
]

unlisted :
    (kind : String)
    → NoKey kind by_kind
    → (c : ExcClass) (name : String) → stands_for c ≡ some name
    → text kind ≢ text name
unlisted kind h unknown_format_error name e = λ same. h.0 cc
unlisted kind h unsupported_error name e = λ same. h.1.0 cc
unlisted kind h password_required_error name e = λ same. h.1.1.0 cc
unlisted kind h wrong_password_error name e = λ same. h.1.1.1.0 cc
unlisted kind h corrupt_archive_error name e = λ same. h.1.1.1.1.0 cc
unlisted kind h missing_volume_error name e = λ same. h.1.1.1.1.1.0 cc
unlisted kind h unsafe_path_error name e = λ same. h.1.1.1.1.1.1.0 cc
unlisted kind h os_error name e = λ same. h.1.1.1.1.1.1.1.0 cc
unlisted kind h index_error name e = λ same. h.1.1.1.1.1.1.1.1.0 cc
unlisted kind h _ name e = cc

fits_text :
    (kind : String)
    → ((cls : ExcClass) × (lookup kind by_kind ≡ some cls) × (stands_for cls ≡ some kind))
      ⊎ ((lookup kind by_kind ≡ none) × NoKey kind by_kind)
    → Fitting (text kind) (class_for (text kind))
unfolding raise_for
fits_text kind (inl (cls, there, stands)) = inl (kind, refl, rw there stands)
fits_text kind (inr (nowhere, others)) = inr (rw nowhere refl, unlisted kind others)

class_for-Fitting : (k : KindAttr) → Fitting k (class_for k)
unfolding raise_for
class_for-Fitting absent = inr (refl, λ c kind h e. cc)
class_for-Fitting (text kind) = fits_text kind (
    looked_up kind by_kind
      (refl, (refl, (refl, (refl, (refl, (refl, (refl, (refl, (refl, tt))))))))))
class_for-Fitting other_object = inr (refl, λ c kind h e. cc)

-- The typed counterpart of any exception is an `Exception`, so `except Exception` still takes it.
class_for-exception : (k : KindAttr) → is_exception (class_for k) ≡ true
unfolding raise_for
class_for-exception absent = refl
class_for-exception (text kind) = ground arith
class_for-exception other_object = refl

-- Whatever `raise_for` is given, it raises; the exception carries the text and the cause of the
-- one given and no `kind`. Its class is the one that stands for the given kind; if the kind is missing
-- or is no text, or no class stands for it, the class is `NewtuaError`.
pub raise_for_lem :
    {A : Type 0} (exc : Exc)
    → (cls : ExcClass) × (raise_for {A = A} exc ≡ err (raised_from cls (message_of exc) absent exc))
      × Fitting (kind_of exc) cls
unfolding raise_for
raise_for_lem exc = (class_for (kind_of exc), refl, class_for-Fitting (kind_of exc))

-- What `except Exception` makes of an exception does not depend on what was to be returned.
pub typed-err :
    {A B : Type 0} (exc : Exc)
    → (exc' : Exc) × (typed {A = A} (err exc) ≡ err exc') × (typed {A = B} (err exc) ≡ err exc')
unfolding typed raise_for
typed-err exc = elim (Bool-cases (is_exception (class_of exc))) [
  | inl ordinary ↦ (
    raised_from (class_for (kind_of exc)) (message_of exc) absent exc,
    rw ordinary refl,
    rw ordinary refl,
  )
  | inr base ↦ (exc, rw base refl, rw base refl)
]

-- `_as_typed` is idempotent: the batch tools apply it once in the task and once more when the
-- task's result is collected, and the second time changes nothing.
as_typed-as_typed : (exc : Exc) → as_typed (as_typed exc) ≡ as_typed exc
unfolding as_typed
as_typed-as_typed exc = ground arith

-- An exception with no `kind` is not the engine's, and `_as_typed` returns it as it is; any other
-- becomes exactly what `raise_for` raises for it.
as_typed_cases :
    (exc : Exc)
    → ((kind_of exc ≡ absent) × (as_typed exc ≡ exc))
      ⊎ (raise_for {A = Unit {0}} exc ≡ err (as_typed exc))
unfolding as_typed
as_typed_cases (raised cls message absent) = inl (refl, refl)
as_typed_cases (raised_from cls message absent cause) = inl (refl, refl)
as_typed_cases _ = inr refl
