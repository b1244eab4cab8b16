-- ===== src/Batch/Jobs.antt =====
-- One job of a batch: `ExtractJob`, `_normalise_job`, `_selection_indices`, `_extract_one` and
-- `_list_one` of python/newtua/_batch.py.
use newtua_py.Base.{
  String, Bool, true, false, Option, none, some, List, [], ◌∷◌, map, if◌then◌else◌,
}
use newtua_py.Base.Int.{ℤ, pos}
use newtua_py.Errors.{Result, ok, err, class_of, is_exception, as_typed}
use newtua_py.Exec.{Exec, pure, lift, gets, ◌>>=◌}
use newtua_py.Events.{ProgressEvent, Callback, wrapped}
use newtua_py.Listing.{Entry, Ref, at, named, under, entry, entries_from_raw, resolve_all}
use newtua_py.Host.{Disk}
use newtua_py.Engine.{Report, PathCalls}

-- `ExtractJob`
pub record ExtractJob (U : Type 0) : Type 0 where
  pub archive : String
  pub dest : String
  pub password : Option String
  pub encoding : Option String
  pub selection : Option (List Ref)
  pub wrapper : Bool
  pub strict : Bool
  pub preserve : Bool
  pub progress : Option (Callback U ProgressEvent)

-- A job, or the shorthand of an archive and a destination.
pub data GivenJob (U : Type 0) : Type 0 where
  whole : ExtractJob U → GivenJob U
  shorthand : String → String → GivenJob U

-- `_normalise_job`
abbrev pub normalise_job : {U : Type 0} → GivenJob U → ExtractJob U
normalise_job (whole job) = job
normalise_job (shorthand archive dest) = record {
  archive = archive;
  dest = dest;
  password = none;
  encoding = none;
  selection = none;
  wrapper = true;
  strict = false;
  preserve = true;
  progress = none;
}

-- The ints of a selection that has nothing else.
all_ints : List Ref → Option (List ℤ)
all_ints [] = some []
all_ints (at i ∷ refs) = elim (all_ints refs) [ none ↦ none | some rest ↦ some (i ∷ rest) ]
all_ints (named _ ∷ refs) = none
all_ints (under _ ∷ refs) = none
all_ints (entry _ ∷ refs) = none

-- `except Exception as exc: raise _as_typed(exc)`
abbrev pub typed : {A : Type 0} → Result A → Result A
typed (ok a) = ok a
typed (err exc) = if is_exception (class_of exc) then err (as_typed exc) else err exc

module _ (C : PathCalls) {U : Type 0} where
  -- The branch of `_selection_indices` that lists the archive.
  listed_indices : ExtractJob U → List Ref → Exec (Disk × U) (Option (List ℤ))
  listed_indices job refs = do
    disk ← gets (λ w. w.0)
    listing ← lift (C.list_path disk job.archive job.password job.encoding)
    built ← lift (entries_from_raw C.fromtimestamp listing.0 none)
    indices ← lift (resolve_all built.0 refs)
    pure (some (map pos indices))

  ints_or_listed : ExtractJob U → List Ref → Option (List ℤ) → Exec (Disk × U) (Option (List ℤ))
  ints_or_listed job refs (some ints) = pure (some ints)
  ints_or_listed job refs none = listed_indices job refs

  indices_for : ExtractJob U → Option (List Ref) → Exec (Disk × U) (Option (List ℤ))
  indices_for job none = pure none
  indices_for job (some refs) = ints_or_listed job refs (all_ints refs)

  -- `_selection_indices`
  unfoldable pub selection_indices : ExtractJob U → Exec (Disk × U) (Option (List ℤ))
  unfolding indices_for ints_or_listed listed_indices all_ints
  selection_indices job = indices_for job job.selection

  run_extraction : ExtractJob U → Exec (Disk × U) Report
  run_extraction job = do
    indices ← selection_indices job
    C.extract_path U
        (record {
          archive = job.archive;
          dest = job.dest;
          selection = indices;
          wrapper = job.wrapper;
          strict = job.strict;
          preserve = job.preserve;
          name_source = some job.archive;
          password = job.password;
          encoding = job.encoding;
        })
        (wrapped job.progress)

  -- `_extract_one`
  unfoldable pub extract_one : ExtractJob U → Exec (Disk × U) Report
  unfolding run_extraction
  extract_one job w = let (r, w') = run_extraction job w in (typed r, w')

  -- `_list_one`
  unfoldable pub list_one : Option String → Option String → String → Exec (Disk × U) (List Entry)
  list_one password encoding archive = do
    disk ← gets (λ w. w.0)
    listing ← lift (typed (C.list_path disk archive password encoding))
    built ← lift (entries_from_raw C.fromtimestamp listing.0 none)
    pure built.0
