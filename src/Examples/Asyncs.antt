-- ===== src/Examples/Asyncs.antt =====
-- An asynchronous archive at work: entered, streamed from, read from and left.
use newtua_py.Base.{
  ℕ, ◌+◌, ◌≤◌, ◌≡◌, refl, true, false, Option, none, some, [], ◌∷◌, get_elem?, ltb, arith,
  if◌then◌else◌,
}
use newtua_py.Base.Int.{pos}
use newtua_py.Errors.{Exc, ok, err, raise_for, raised, other, text}
use newtua_py.Exec.{◌>>=◌}
use newtua_py.Events.{ProgressEvent, Callback}
use newtua_py.Listing.{named}
use newtua_py.Host.{TempFile, exists}
use newtua_py.Host.Owners.{held_by, stream_claims}
use newtua_py.Host.Pipes.Descriptors.{count, readers}
use newtua_py.Engine.{PathCalls, RemovesNothing}
use newtua_py.Archive.{bytes}
use newtua_py.Archive.Access
use newtua_py.Archive.History
use newtua_py.Async.{AsyncState, aenter, aexit, unready}
use newtua_py.Async.Access.{AsyncStreamCtx, open_entry, ctx_aenter, read, extract}
use newtua_py.Async.History.{
  Reach, here, next, enters, enters_stream, reads_stream, read_stream, start,
}
use newtua_py.Async.Lifetime.{async_lifetime}
use newtua_py.Async.Closed.{left_lem}
use newtua_py.Async.Entering.{failed_aenter_lem}
use newtua_py.Async.Twin.{SameEngine, opened_for, with_opened, twin_read}
use newtua_py.Async.Twin.Extraction.{seen, seen_async, twin_extract}
use newtua_py.Examples.{engine, machine, machine-NewNames, stamps, stamps-Documented}

-- Each call opens the archive with the engine of the other examples.
abbrev pub by_path : PathCalls
by_path = record {
  list_path = λ d p password encoding.
      opened_for (engine.open_archive d p password encoding)
        (λ r. ok (engine.entries r, engine.format r, engine.detected_encoding r));
  read_path = λ d p i password encoding.
      opened_for (engine.open_archive d p password encoding) (λ r. engine.read r d i);
  open_stream_path = λ d p i password encoding. ok (1 ∷ 2 ∷ 3 ∷ []);
  open_stream_windows_path = λ d p i password encoding. ok (1 ∷ 2 ∷ 3 ∷ []);
  extract_path = λ U args callback w.
      with_opened (engine.open_archive w.0 args.archive args.password args.encoding) w (λ r.
        engine.extract U r
          (record {
            dest = args.dest;
            selection = none;
            wrapper = args.wrapper;
            strict = args.strict;
            preserve = args.preserve;
            name_source = args.name_source;
          })
          callback w);
  fromtimestamp = stamps;
}

pub by_path-RemovesNothing : RemovesNothing by_path
unfolding exists
by_path-RemovesNothing U args callback d u path h = ground arith

same_engine : SameEngine engine by_path machine
same_engine = record {
  lists = λ d p password encoding. refl;
  reads = λ d p i password encoding. refl;
  extracts = λ U d u p password encoding dest selection wrapper strict preserve name callback. refl;
  times = refl;
}

abbrev pub fresh_async : AsyncState
fresh_async = start 5 (bytes (80 ∷ 75 ∷ [])) (some "x") none []

abbrev pub entered : AsyncState
entered = (aenter by_path machine fresh_async).1

abbrev first_entry : AsyncStreamCtx
first_entry = record { index = 0; size = 3; stream = none }

abbrev async_opened : AsyncState
async_opened = (ctx_aenter by_path machine first_entry entered).1

-- Read to its end.
abbrev async_streaming : AsyncState
async_streaming = read_stream (pos 8) 0 (read_stream (pos 8) 0 async_opened)

async_history : Reach by_path machine fresh_async async_streaming
async_history =
    next
      (next (next (next here (enters fresh_async)) (enters_stream first_entry entered))
        (reads_stream (pos 8) 0 async_opened))
      (reads_stream (pos 8) 0 (read_stream (pos 8) 0 async_opened))

async_lifetime_example :
    ((t : ℕ) (f : TempFile)
      → get_elem? async_streaming.host.temps t ≡ some f
      → (f.holders
          ≡ pos (
              held_by async_streaming.archive.sync.tempfile t
              + stream_claims async_streaming.host.streams t))
        × (f.finalizer
            ≡ ltb 0 (
                held_by async_streaming.archive.sync.tempfile t
                + stream_claims async_streaming.host.streams t))
        × ((if f.finalizer then exists f.path async_streaming.host.disk else true) ≡ true))
    × ((fd : ℕ)
        → (count fd async_streaming.host.open_fds ≡ readers async_streaming.host.streams fd)
          × (readers async_streaming.host.streams fd ≤ 1))
async_lifetime_example =
    async_lifetime by_path machine machine-NewNames by_path-RemovesNothing async_history

-- Left while a stream is open, and then entered again.
abbrev entered_again : AsyncState
entered_again = (aenter by_path machine (aexit async_streaming)).1

abbrev no_callback : Option (Callback (Unit {0}) ProgressEvent)
no_callback = none

left_example :
    (open_entry (named "a") entered_again ≡ (err unready, entered_again))
    × (read by_path machine (named "a") entered_again ≡ (err unready, entered_again))
    × (extract by_path machine "out" none true false true no_callback tt entered_again
        ≡ (err unready, entered_again))
left_example =
    left_lem by_path machine by_path-RemovesNothing async_streaming
      (next here (enters (aexit async_streaming))) (named "a") "out" none true false true Unit
      no_callback tt

abbrev needs_a_password : Exc
needs_a_password = raised (other "NewtuaError") "password required" (text "encrypted")

-- Entered without the password.
failed_aenter_example :
    let r = aenter by_path machine (start 5 (bytes (80 ∷ [])) none none []) in
    (r.0 ≡ raise_for needs_a_password)
    × (r.1.archive.sync.tempfile ≡ none)
    × (r.1.archive.entries ≡ [])
    × (r.1.host.disk ≡ [])
failed_aenter_example =
    failed_aenter_lem by_path machine machine-NewNames 5 (bytes (80 ∷ [])) none none [] (80 ∷ [])
      needs_a_password refl refl refl

twin_read_example :
    ((aenter by_path machine >>= λ _. read by_path machine (named "a")) fresh_async).0
    ≡ (Access.read engine machine
        (named "a")
        (History.start engine.Reader 5 (bytes (80 ∷ 75 ∷ [])) (some "x") none [])).0
twin_read_example =
    twin_read engine by_path machine same_engine 5 (bytes (80 ∷ 75 ∷ [])) (some "x") none []
      (named "a")

twin_extract_example :
    seen_async (
      (aenter by_path machine >>= λ _.
      extract by_path machine "out" (some (named "a" ∷ [])) true false true no_callback tt)
        fresh_async)
    ≡ seen (
        Access.extract engine machine "out"
          (some (named "a" ∷ []))
          true
          false
          true
          no_callback
          tt
          (History.start engine.Reader 5 (bytes (80 ∷ 75 ∷ [])) (some "x") none []))
twin_extract_example =
    twin_extract engine by_path machine same_engine stamps-Documented "out" (some (named "a" ∷ []))
      true false true no_callback tt 5 (bytes (80 ∷ 75 ∷ [])) (some "x") none []
