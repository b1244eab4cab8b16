-- ===== src/Async/Access/Selection.antt =====
-- An extraction behind `_ensure_ready`, on an archive that was entered.
use newtua_py.Base.{ℕ, ◌≡◌, refl, ap, ◌∙◌, String, Bool, Option, none, some, List, map, inl, inr}
use newtua_py.Base.Int.{ℤ, pos}
use newtua_py.Errors.{Exc, Result, ok, err, Result-cases}
use newtua_py.Exec.{◌>>=◌}
use newtua_py.Events.{ProgressEvent, Callback}
use newtua_py.Listing.{Entry, Ref, resolve_all}
use newtua_py.Listing.Detached.{detach, resolve_all-detach}
use newtua_py.Engine.{PathExtraction, PathCalls, Platform}
use newtua_py.Archive.{wrapper_name_source}
use newtua_py.Archive.Access.Selection.{chosen}
use newtua_py.Async.{AsyncState, ensure_ready, str_of}
use newtua_py.Async.Access.{selected, call_extract, extract}

-- The positions of a selection as the engine's calls by path take them.
abbrev pub as_ints : Option (List ℕ) → Option (List ℤ)
as_ints none = none
as_ints (some indices) = some (map pos indices)

abbrev pub ints_of : Result (Option (List ℕ)) → Result (Option (List ℤ))
ints_of (ok indices) = ok (as_ints indices)
ints_of (err exc) = err exc

selected-detach :
    (es : List Entry) (selection : Option (List Ref)) (s : AsyncState)
    → selected (map detach es) selection s ≡ (ints_of (chosen es selection), s)
unfolding selected ◌>>=◌
selected-detach es none s = refl
selected-detach es (some refs) s = elim (Result-cases (resolve_all es refs)) [
  | inl (indices, found) ↦ rw (resolve_all-detach, found) refl
  | inr (exc, failed) ↦ rw (resolve_all-detach, failed) refl
]

-- The same of the entries that the archive keeps.
selected_kept :
    (fs es : List Entry) (selection : Option (List Ref)) (s : AsyncState)
    → fs ≡ map detach es
    → selected fs selection s ≡ (ints_of (chosen es selection), s)
selected_kept fs es selection s h =
    ap (λ fs. selected fs selection s) h ∙ selected-detach es selection s

module _ (C : PathCalls) (P : Platform) (dest : String) (selection : Option (List Ref))
    (wrapper strict preserve : Bool) {U : Type 0} (progress : Option (Callback U ProgressEvent))
    (u : U) where
  abbrev pub path_args : AsyncState → Option (List ℤ) → PathExtraction
  path_args s indices = record {
    archive = str_of s.archive.path;
    dest = dest;
    selection = indices;
    wrapper = wrapper;
    strict = strict;
    preserve = preserve;
    name_source = wrapper_name_source s.archive.sync.source;
    password = s.archive.password;
    encoding = s.archive.encoding;
  }

  pub extract-err :
      (s : AsyncState) (es : List Entry) (exc : Exc)
      → ensure_ready s ≡ (ok tt, s)
      → s.archive.entries ≡ map detach es
      → chosen es selection ≡ err exc
      → extract C P dest selection wrapper strict preserve progress u s ≡ (err exc, s)
  unfolding extract ◌>>=◌
  extract-err s es exc ready entries failed =
      rw (ready, selected_kept s.archive.entries es selection s entries, failed) refl

  pub extract-ok :
      (s : AsyncState) (es : List Entry) (indices : Option (List ℕ))
      → ensure_ready s ≡ (ok tt, s)
      → s.archive.entries ≡ map detach es
      → chosen es selection ≡ ok indices
      → extract C P dest selection wrapper strict preserve progress u s
        ≡ call_extract C P (path_args s (as_ints indices)) progress u s
  unfolding extract ◌>>=◌
  extract-ok s es indices ready entries found =
      rw (ready, selected_kept s.archive.entries es selection s entries, found) refl
