-- ===== src/Async/Session/Whole.antt =====
-- An entry streamed whole, after any history of the archive.
use newtua_py.Base.{ℕ, ◌+◌, ◌<◌, ◌≡◌, String, false, Option, some, [], ◌∷◌, length}
use newtua_py.Base.Int.{pos}
use newtua_py.Errors.{Result, ok, err, typed}
use newtua_py.Listing.{Bytes, Entry, Ref, resolve_index, tuple_item}
use newtua_py.Stream.Pipe.{settled}
use newtua_py.Host.{Disk}
use newtua_py.Engine.{PathCalls, Platform, posix, NewNames, RemovesNothing}
use newtua_py.Archive.{Source}
use newtua_py.Host.Pipes.Claims.{Held, Held-start}
use newtua_py.Host.Pipes.Descriptors.{Tidy, Tidy-start}
use newtua_py.Host.Pipes.RoundTrip.{with_closed}
use newtua_py.Async.{AsyncState}
use newtua_py.Async.History.{Reach, Reach-Keeps, start}
use newtua_py.Async.Lifetime.{claims_kept, descriptors_kept}
use newtua_py.Async.Session.{stream_whole}
use newtua_py.Async.Session.Steps.{failed, worked, used}

-- The bytes that an answer to the handshake is followed by.
abbrev pub delivered : Result Bytes → Bytes
delivered (ok rest) = rest
delivered (err exc) = []

-- What the caller gets, for an entry of that size.
abbrev pub outcome : ℕ → Result Bytes → Result (Option Bytes)
outcome size (ok rest) = settled (some size) (length rest) (some rest)
outcome size (err exc) = typed (err exc)

-- The state behind it: two descriptors were used up, and a stream, if there was one, is closed.
abbrev pub behind : AsyncState → ℕ → Result Bytes → AsyncState
behind s size (ok rest) = record s { host = with_closed s.host (used s size rest ∷ []) }
behind s size (err exc) = record s { host = record s.host { next_fd = s.host.next_fd + 2 } }

module _ (C : PathCalls) (P : Platform) where
  -- On POSIX, in every state that a history of calls reaches from a new `AsyncArchive`, if that is
  -- entered and not left, an `async with` block that opens an entry which resolves, and in which the
  -- stream is iterated over with fuel above the number of bytes that come, gives exactly the bytes
  -- that the engine delivers after its handshake; but `CorruptArchiveError` if they are fewer than
  -- the entry's positive size, and the typed counterpart of the exception if the handshake fails.
  -- Behind it the disk, the claims on the temporary files, their finalizers, the open descriptors
  -- and the archive are as before; what is new is the next descriptor number, and after a good
  -- handshake the stream, which is closed.
  pub stream_whole_lem :
      P.os_name ≡ posix
      → NewNames P
      → RemovesNothing C
      → {self_id : ℕ} {source : Source} {password encoding : Option String} {disk : Disk}
        {s : AsyncState}
      → Reach C P (start self_id source password encoding disk) s
      → (p : String) (ref : Ref) (i : ℕ) (e : Entry) (answer : Result Bytes) (fuel : ℕ)
      → s.archive.path ≡ some p
      → s.archive.closed ≡ false
      → resolve_index s.archive.entries ref ≡ ok i
      → tuple_item s.archive.entries (pos i) ≡ ok e
      → C.open_stream_path s.host.disk p i s.archive.password s.archive.encoding ≡ answer
      → length (delivered answer) < fuel
      → stream_whole C P fuel ref s ≡ (outcome e.size answer, behind s e.size answer)
  stream_whole_lem os fresh adds {disk = disk} {s = s} r p ref i e (ok rest) fuel at_path open_yet
        resolved item works enough =
      let held : Held s.archive.sync.tempfile s.host =
        Reach-Keeps adds (claims_kept C P fresh) (Held-start disk) r in
      let tidy : Tidy s.host = Reach-Keeps adds (descriptors_kept C P) (Tidy-start disk) r in
      worked C P os s p ref i e at_path open_yet resolved item held tidy rest fuel works enough
  stream_whole_lem os fresh adds {disk = disk} {s = s} r p ref i e (err exc) fuel at_path open_yet
        resolved item fails enough =
      let held : Held s.archive.sync.tempfile s.host =
        Reach-Keeps adds (claims_kept C P fresh) (Held-start disk) r in
      let tidy : Tidy s.host = Reach-Keeps adds (descriptors_kept C P) (Tidy-start disk) r in
      failed C P os s p ref i e at_path open_yet resolved item held tidy exc fuel fails
