-- ===== src/Events.antt =====
-- Progress events and how they are built from the compiled module's five values
-- (python/newtua/_events.py; `_wrap_progress` of python/newtua/_archive.py).
pub mod Laws
use newtua_py.Base.{ℕ, String, ◌<>◌, Bool, Option, none, some, refl, ◌≡◌}
use newtua_py.Errors.{Exc, Result, ok, err, new, value_error, is_exception, class_of, ◌>>=◌}
use newtua_py.Enums.{EventKind, started, bytes, finished, event_kind_of}
use newtua_py.Paths.{PurePosixPath, posix_path}

-- The classes `EntryStarted`, `BytesWritten` and `EntryFinished`, with their fields.
pub data ProgressEvent : Type 0 where
  entry_started : ℕ → PurePosixPath → ℕ → ProgressEvent
  bytes_written : ℕ → ℕ → ProgressEvent
  entry_finished : ℕ → ProgressEvent

-- `event.kind`, the class variable.
unfoldable pub kind : ProgressEvent → EventKind
kind (entry_started _ _ _) = started
kind (bytes_written _ _) = bytes
kind (entry_finished _) = finished

-- `event.index`
unfoldable pub index : ProgressEvent → ℕ
index (entry_started i _ _) = i
index (bytes_written i _) = i
index (entry_finished i) = i

-- The five values that the compiled module passes to its callback.
pub record RawEvent : Type 0 where
  pub event : String
  pub index : ℕ
  pub path : Option String
  pub written : ℕ
  pub size : ℕ

-- `path or ""`
abbrev pub or_empty : Option String → String
or_empty none = ""
or_empty (some p) = p

build_started : RawEvent → ProgressEvent
build_started r = entry_started r.index (posix_path (or_empty r.path)) r.size

build_bytes : RawEvent → ProgressEvent
build_bytes r = bytes_written r.index r.written

build_finished : RawEvent → ProgressEvent
build_finished r = entry_finished r.index

-- `_BUILDERS[kind]`
builder : EventKind → RawEvent → ProgressEvent
builder started = build_started
builder bytes = build_bytes
builder finished = build_finished

-- The `try … except ValueError` around `EventKind(event)`, which raises nothing else.
named_kind : String → Result EventKind → Result EventKind
named_kind event (ok k) = ok k
named_kind event (err _) = err (new value_error ("Unknown event type: '" <> event <> "'"))

unfoldable pub event_from_raw : RawEvent → Result ProgressEvent
unfolding named_kind builder build_started build_bytes build_finished event_kind_of
event_from_raw r = do k ← named_kind r.event (event_kind_of r.event); ok (builder k r)

-- A user's callback over whatever state it reads and writes; it may raise, and returns a `bool` or
-- `None`.
abbrev pub Callback : Type 0 → Type 0 → Type 0
Callback U E = E → U → Result (Option Bool) × U

after_event :
    {U : Type 0} → Callback U ProgressEvent → Result ProgressEvent → U → Result (Option Bool) × U
after_event progress (ok event) u = progress event u
after_event progress (err exc) u = (err exc, u)

-- `_wrap_progress`
unfoldable pub wrap_progress : {U : Type 0} → Callback U ProgressEvent → Callback U RawEvent
unfolding after_event
wrap_progress progress r u = after_event progress (event_from_raw r) u

-- `_wrap_progress(progress) if progress is not None else None`
abbrev pub wrapped : {U : Type 0} → Option (Callback U ProgressEvent) → Option (Callback U RawEvent)
wrapped none = none
wrapped (some progress) = some (wrap_progress progress)
