-- ===== src/Engine.antt =====
-- What the package calls and does not implement: the compiled module `newtua._newtua` (its stubs
-- are python/newtua/_newtua.pyi), and the parts of Python's standard library and of the platform
-- that stand outside the language. Their calls are functions of what they are given and of the
-- files on the disk.
use newtua_py.Base.{ℕ, String, Bool, false, true, Option, List, ◌≡◌}
use newtua_py.Base.Int.{ℤ}
use newtua_py.Errors.{Result, ok}
use newtua_py.Exec.{Exec}
use newtua_py.Listing.{Bytes, RawEntry}
use newtua_py.Events.{RawEvent, Callback}
use newtua_py.Stream.Store.{Spooled}
use newtua_py.Host.{Disk, exists}

-- `Report`, of the compiled module and of python/newtua/_archive.py alike.
pub record Report : Type 0 where
  pub extracted : ℕ
  pub failed : ℕ
  pub aborted : Bool

-- What the engine's call comes to, with the state that the callback leaves: an exception that it
-- raises comes with that state as well, while one that is raised before it leaves the state alone.
abbrev pub with_state : {U : Type 0} → U → Result Report → Result (Result Report × U)
with_state u r = ok (r, u)

-- The arguments of an extraction but for the callback.
pub record ExtractArgs : Type 0 where
  pub dest : String
  pub selection : Option (List ℕ)
  pub wrapper : Bool
  pub strict : Bool
  pub preserve : Bool
  pub name_source : Option String

-- The compiled module. `open_stream` gives the bytes that its worker puts into the pipe before it
-- closes it, or raises at the handshake; `write_entry_to` writes into the sink and may raise;
-- `extract` may call the callback, whose state is `U`, and changes the disk.
pub record Engine : Type 1 where
  pub Reader : Type 0
  pub open_archive : Disk → String → Option String → Option String → Result Reader
  pub entries : Reader → List RawEntry
  pub format : Reader → String
  pub detected_encoding : Reader → String
  pub read : Reader → Disk → ℕ → Result Bytes
  pub write_entry_to : Reader → Disk → ℕ → Exec Spooled (Unit {0})
  pub open_stream : Reader → Disk → ℕ → Result Bytes
  pub open_stream_windows : Reader → Disk → ℕ → Result Bytes
  pub extract :
      (U : Type 0) → Reader → ExtractArgs → Option (Callback U RawEvent) → Exec (Disk × U) Report

-- The arguments of an extraction by path; a position may be negative.
pub record PathExtraction : Type 0 where
  pub archive : String
  pub dest : String
  pub selection : Option (List ℤ)
  pub wrapper : Bool
  pub strict : Bool
  pub preserve : Bool
  pub name_source : Option String
  pub password : Option String
  pub encoding : Option String

-- The compiled module's calls that take a path, and `datetime.fromtimestamp`. `list_path` gives the
-- entries, the format and the detected encoding; `open_stream_path` and its Windows twin give the
-- bytes that will come out of the pipe, or raise at the handshake.
pub record PathCalls : Type 1 where
  pub list_path :
      Disk → String → Option String → Option String → Result (List RawEntry × String × String)
  pub extract_path :
      (U : Type 0) → PathExtraction → Option (Callback U RawEvent) → Exec (Disk × U) Report
  pub read_path : Disk → String → ℕ → Option String → Option String → Result Bytes
  pub open_stream_path : Disk → String → ℕ → Option String → Option String → Result Bytes
  pub open_stream_windows_path : Disk → String → ℕ → Option String → Option String → Result Bytes
  pub fromtimestamp : ℕ → Result ℤ

-- `os.name`
pub data OsName : Type 0 where
  posix nt other_os : OsName

-- `str(pathlib.Path(text))`, the name that `NamedTemporaryFile(suffix=".newtua")` chooses, and
-- `datetime.fromtimestamp(…, tz=timezone.utc)`.
pub record Platform : Type 0 where
  pub os_name : OsName
  pub is_win32 : Bool
  pub path_text : String → String
  pub temp_name : Disk → String
  pub fromtimestamp : ℕ → Result ℤ

-- `NamedTemporaryFile` makes a file that was not there.
abbrev pub NewNames : Platform → Type 0
NewNames P = (d : Disk) → exists (P.temp_name d) d ≡ false

-- An extraction adds and overwrites files and deletes none.
abbrev pub DeletesNothing : Engine → Type 1
DeletesNothing E =
    (U : Type 0) (reader : E.Reader) (args : ExtractArgs) (callback : Option (Callback U RawEvent))
    (d : Disk) (u : U) (path : String)
    → exists path d ≡ true
    → exists path (E.extract U reader args callback (d, u)).1.0 ≡ true

abbrev pub RemovesNothing : PathCalls → Type 1
RemovesNothing C =
    (U : Type 0) (args : PathExtraction) (callback : Option (Callback U RawEvent)) (d : Disk)
    (u : U) (path : String)
    → exists path d ≡ true
    → exists path (C.extract_path U args callback (d, u)).1.0 ≡ true
