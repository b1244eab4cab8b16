-- ===== src/Async/History.antt =====
-- Any history of an `AsyncArchive`, of its streams and of the calls on both, one call after the
-- other, and when each call keeps an invariant.
use newtua_py.Base.{ℕ, ◌≡◌, String, Bool, true, Option, some, List}
use newtua_py.Exec.Keeps.{Keeps}
use newtua_py.Listing.{Ref}
use newtua_py.Events.{ProgressEvent, Callback}
use newtua_py.Host.{Disk, new_host, exists}
use newtua_py.Host.Used.{use_stream}
use newtua_py.Stream.Kept.{calls_read}
use newtua_py.Base.Int.{ℤ}
use newtua_py.Engine.{PathCalls, RemovesNothing, Platform}
use newtua_py.Archive.{Source}
use newtua_py.Async.{AsyncState, init, aenter, aexit}
use newtua_py.Async.Access.{
  AsyncStreamCtx, open_entry, aclose, ctx_aenter, ctx_aexit, open_pipe_sync, read, extract,
}
use newtua_py.Async.Access.Kept.{
  open_entry-Keeps, ctx_aenter-Keeps, ctx_aexit-Keeps, read-Keeps, extract-Keeps,
}

-- `AsyncEntryStream.read(size)`, of the stream at an address; `__anext__` is that with `CHUNK`.
unfoldable pub read_stream : ℤ → ℕ → AsyncState → AsyncState
read_stream size address s = record s { host = use_stream (calls_read (some size)) address s.host }

-- A call of the program that uses the archive; whether it returns or raises, the program goes on.
pub data Step (C : PathCalls) (P : Platform) : AsyncState → AsyncState → Type 1 where
  enters : (s : AsyncState) → Step C P s (aenter C P s).1
  exits : (s : AsyncState) → Step C P s (aexit s)
  opens : (ref : Ref) (s : AsyncState) → Step C P s (open_entry ref s).1
  enters_stream : (ctx : AsyncStreamCtx) (s : AsyncState) → Step C P s (ctx_aenter C P ctx s).1
  exits_stream : (ctx : AsyncStreamCtx) (s : AsyncState) → Step C P s (ctx_aexit ctx s)
  closes_stream : (address : ℕ) (s : AsyncState) → Step C P s (aclose address s)
  reads_stream : (size : ℤ) (address : ℕ) (s : AsyncState) → Step C P s (read_stream size address s)
  reads : (ref : Ref) (s : AsyncState) → Step C P s (read C P ref s).1
  extracts :
      (U : Type 0) (progress : Option (Callback U ProgressEvent)) (u : U) (dest : String)
      (selection : Option (List Ref)) (wrapper strict preserve : Bool) (s : AsyncState)
      → Step C P s (extract C P dest selection wrapper strict preserve progress u s).1

pub data Reach (C : PathCalls) (P : Platform) (s : AsyncState) : AsyncState → Type 1 where
  here : Reach C P s s
  next : {t u : AsyncState} → Reach C P s t → Step C P t u → Reach C P s u

-- An archive that was just made, on a machine with any files and no other archive.
abbrev pub start : ℕ → Source → Option String → Option String → Disk → AsyncState
start self_id source password encoding disk = record {
  archive = init self_id source password encoding;
  host = new_host disk;
}

-- An invariant that each part of a call keeps.
pub record Law (C : PathCalls) (P : Platform) (I : AsyncState → Type 0) : Type 0 where
  pub entered : Keeps I (aenter C P)
  pub exited : (s : AsyncState) → I s → I (aexit s)
  pub piped : (index size : ℕ) → Keeps I (open_pipe_sync C P index size)
  pub stream_closed : (address : ℕ) (s : AsyncState) → I s → I (aclose address s)
  pub stream_read : (size : ℤ) (address : ℕ) (s : AsyncState) → I s → I (read_stream size address s)
  pub grown :
      (s : AsyncState) (d : Disk)
      → ((path : String) → exists path s.host.disk ≡ true → exists path d ≡ true)
      → I s
      → I (record s { host = record s.host { disk = d } })

module _ {C : PathCalls} {P : Platform} (adds : RemovesNothing C) {I : AsyncState → Type 0}
    (law : Law C P I) where
  Step-Keeps : {s t : AsyncState} → Step C P s t → I s → I t
  Step-Keeps (enters s) h = law.entered.at s h
  Step-Keeps (exits s) h = law.exited s h
  Step-Keeps (opens ref s) h = (open_entry-Keeps {I = I} ref).at s h
  Step-Keeps (enters_stream ctx s) h = (ctx_aenter-Keeps C P law.piped ctx).at s h
  Step-Keeps (exits_stream ctx s) h = ctx_aexit-Keeps law.stream_closed ctx s h
  Step-Keeps (closes_stream address s) h = law.stream_closed address s h
  Step-Keeps (reads_stream size address s) h = law.stream_read size address s h
  Step-Keeps (reads ref s) h = (read-Keeps {I = I} C P ref).at s h
  Step-Keeps (extracts U progress u dest selection wrapper strict preserve s) h =
      (extract-Keeps C P adds law.grown progress u dest selection wrapper strict preserve).at s h

  pub Reach-Keeps : {s t : AsyncState} → I s → Reach C P s t → I t
  Reach-Keeps h here = h
  Reach-Keeps h (next r step) = Step-Keeps step (Reach-Keeps h r)
