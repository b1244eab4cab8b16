-- ===== src/Archive/History.antt =====
-- Any history of an archive, of the streams that it handed out and of the calls on both, and when
-- each call keeps an invariant.
use newtua_py.Base.{ℕ, ◌≡◌, String, Bool, true, Option, List}
use newtua_py.Exec.Keeps.{Keeps}
use newtua_py.Listing.{Bytes, Ref}
use newtua_py.Listing.Slices.{Slice}
use newtua_py.Errors.{Result}
use newtua_py.Events.{ProgressEvent, Callback}
use newtua_py.Host.{Disk, new_host, Host, exists, close_stream}
use newtua_py.Host.Used.{use_stream}
use newtua_py.Stream.Kept.{StreamCall}
use newtua_py.Host.Pipes.{pipe_posix, pipe_windows}
use newtua_py.Engine.{Engine, Platform, DeletesNothing}
use newtua_py.Archive.{Archive, State, Source, init}
use newtua_py.Archive.Opening.{open_reader, listing, close, set_password}
use newtua_py.Archive.Access.{
  get_item, get_slice, Key, contains, format, detected_encoding, needs_password, read, extract,
}
use newtua_py.Archive.Access.Lifetime.{
  get_item-Keeps, get_slice-Keeps, contains-Keeps, format-Keeps, detected_encoding-Keeps,
  needs_password-Keeps, read-Keeps, extract-Keeps,
}
use newtua_py.Archive.Pipes.{open_entry}
use newtua_py.Archive.Pipes.Kept.{open_entry-Keeps}

-- A call of the program that uses the archive; whether it returns or raises, the program goes on.
pub data Step (E : Engine) (P : Platform) : State E.Reader → State E.Reader → Type 1 where
  enters : (s : State E.Reader) → Step E P s (listing E P s).1
  gets_item : (key : Ref) (s : State E.Reader) → Step E P s (get_item E P key s).1
  slices : (key : Slice) (s : State E.Reader) → Step E P s (get_slice E P key s).1
  tests_in : (key : Key) (s : State E.Reader) → Step E P s (contains E P key s).1
  asks_format : (s : State E.Reader) → Step E P s (format E P s).1
  asks_encoding : (s : State E.Reader) → Step E P s (detected_encoding E P s).1
  asks_password : (s : State E.Reader) → Step E P s (needs_password E P s).1
  sets_password : (value : Option String) (s : State E.Reader) → Step E P s (set_password value s)
  reads : (ref : Ref) (s : State E.Reader) → Step E P s (read E P ref s).1
  opens :
      (ref : Ref) (stream : Bool) (s : State E.Reader) → Step E P s (open_entry E P ref stream s).1
  extracts :
      (U : Type 0) (progress : Option (Callback U ProgressEvent)) (u : U) (dest : String)
      (selection : Option (List Ref)) (wrapper strict preserve : Bool) (s : State E.Reader)
      → Step E P s (extract E P dest selection wrapper strict preserve progress u s).1
  closes : (s : State E.Reader) → Step E P s (close s)
  closes_stream :
      (a : ℕ) (s : State E.Reader) → Step E P s (record s { host = close_stream a s.host })
  uses_stream :
      (call : StreamCall) (a : ℕ) (s : State E.Reader)
      → Step E P s (record s { host = use_stream call a s.host })

pub data Reach (E : Engine) (P : Platform) (s : State E.Reader) : State E.Reader → Type 1 where
  here : Reach E P s s
  next : {t u : State E.Reader} → Reach E P s t → Step E P t u → Reach E P s u

-- An archive that was just made, on a machine with any files and no other archive.
abbrev pub start : (R : Type 0) → ℕ → Source → Option String → Option String → Disk → State R
start R self_id source password encoding disk = record {
  archive = init self_id source password encoding;
  host = new_host disk;
}

-- An invariant of the archive and of the machine that each part of a call keeps.
pub record Law (E : Engine) (P : Platform) (J : Archive E.Reader → Host → Type 0) : Type 0 where
  pub opened : Keeps (λ s. J s.archive s.host) (open_reader E P)
  pub listed : Keeps (λ s. J s.archive s.host) (listing E P)
  pub on_posix :
      (a : Archive E.Reader) (open_stream : Disk → Result Bytes) (expected : Option ℕ)
      → Keeps (J a) (pipe_posix open_stream a.tempfile expected)
  pub on_windows :
      (a : Archive E.Reader) (open_stream : Disk → Result Bytes) (expected : Option ℕ)
      → Keeps (J a) (pipe_windows open_stream expected)
  pub grown :
      (s : State E.Reader) (d : Disk)
      → ((path : String) → exists path s.host.disk ≡ true → exists path d ≡ true)
      → J s.archive s.host
      → J s.archive (record s.host { disk = d })
  pub rekeyed :
      (value : Option String) (s : State E.Reader)
      → J s.archive s.host
      → J (set_password value s).archive (set_password value s).host
  pub closed : (s : State E.Reader) → J s.archive s.host → J (close s).archive (close s).host
  pub stream_closed :
      (a : ℕ) (s : State E.Reader) → J s.archive s.host → J s.archive (close_stream a s.host)
  pub stream_used :
      (call : StreamCall) (a : ℕ) (s : State E.Reader)
      → J s.archive s.host
      → J s.archive (use_stream call a s.host)

module _ {E : Engine} {P : Platform} (adds : DeletesNothing E)
    {J : Archive E.Reader → Host → Type 0} (law : Law E P J) where
  abbrev I : State E.Reader → Type 0
  I s = J s.archive s.host

  Step-Keeps : {s t : State E.Reader} → Step E P s t → I s → I t
  Step-Keeps (enters s) h = law.listed.at s h
  Step-Keeps (gets_item key s) h = (get_item-Keeps E P law.opened law.listed key).at s h
  Step-Keeps (slices key s) h = (get_slice-Keeps E P law.opened law.listed key).at s h
  Step-Keeps (tests_in key s) h = (contains-Keeps E P law.opened law.listed key).at s h
  Step-Keeps (asks_format s) h = (format-Keeps E P law.opened law.listed).at s h
  Step-Keeps (asks_encoding s) h = (detected_encoding-Keeps E P law.opened law.listed).at s h
  Step-Keeps (asks_password s) h = (needs_password-Keeps E P law.opened law.listed).at s h
  Step-Keeps (sets_password value s) h = law.rekeyed value s h
  Step-Keeps (reads ref s) h = (read-Keeps E P law.opened law.listed ref).at s h
  Step-Keeps (opens ref stream s) h =
      (open_entry-Keeps E P J law.on_posix law.on_windows law.opened law.listed ref stream).at s h
  Step-Keeps (extracts U progress u dest selection wrapper strict preserve s) h =
      (extract-Keeps E P law.opened law.listed adds law.grown progress u dest selection wrapper
          strict preserve).at
        s h
  Step-Keeps (closes s) h = law.closed s h
  Step-Keeps (closes_stream a s) h = law.stream_closed a s h
  Step-Keeps (uses_stream call a s) h = law.stream_used call a s h

  pub Reach-Keeps : {s t : State E.Reader} → I s → Reach E P s t → I t
  Reach-Keeps h here = h
  Reach-Keeps h (next r step) = Step-Keeps step (Reach-Keeps h r)
