-- ===== src/Host/Pipes.antt =====
-- Making a pipe stream: what `_open_pipe_posix` and `_open_pipe_windows` of
-- python/newtua/_archive.py and `_open_pipe_sync` of python/newtua/_async.py do alike to the
-- machine. They differ in the call of the compiled module, which is a parameter here.
pub mod Claims
pub mod Descriptors
pub mod RoundTrip
use newtua_py.Base.{ℕ, ◌+◌, Option, none, some, List, [], ◌∷◌, ◌++◌, length}
use newtua_py.Errors.{Result, ok, err, typed}
use newtua_py.Exec.{Exec, lift, gets, ◌>>=◌}
use newtua_py.Listing.{Bytes}
use newtua_py.Stream.{pipe_stream}
use newtua_py.Host.{Disk, Host, Piped, hold_some, release_some, close_fd}

-- `os.pipe()`, and the claim on the temporary file before the handshake.
unfoldable pub open_ends : Option ℕ → Host → Host
open_ends claim h =
    hold_some claim
      (record h { open_fds = h.next_fd ∷ (h.next_fd + 1) ∷ h.open_fds; next_fd = h.next_fd + 2 })

-- The handshake failed: both ends are closed and the claim is given up.
unfoldable pub undo_ends : ℕ → Option ℕ → Host → Host
undo_ends read_fd claim h =
    release_some claim
      (record h { open_fds = close_fd (read_fd + 1) (close_fd read_fd h.open_fds) })

-- The worker has the write end; the read end goes into a new stream.
unfoldable pub hand_out : ℕ → Bytes → Option ℕ → Option ℕ → Host → Host
hand_out read_fd rest expected claim h = record h {
  open_fds = close_fd (read_fd + 1) h.open_fds;
  streams = h.streams ++ (record { fd = read_fd; stream = pipe_stream rest expected claim }) ∷ [];
}

-- Behind the handshake: an `Exception` becomes its typed counterpart, any other is raised again.
unfoldable pub shake_hands : Result Bytes → ℕ → Option ℕ → Option ℕ → Exec Host ℕ
shake_hands (ok rest) read_fd expected claim h =
    (ok (length h.streams), hand_out read_fd rest expected claim h)
shake_hands (err exc) read_fd expected claim h = (typed (err exc), undo_ends read_fd claim h)

-- The POSIX branch; the handshake looks at the disk.
unfoldable pub pipe_posix : (Disk → Result Bytes) → Option ℕ → Option ℕ → Exec Host ℕ
pipe_posix open_stream claim expected h =
    let h' = open_ends claim h in shake_hands (open_stream h'.disk) h.next_fd expected claim h'

-- `msvcrt.open_osfhandle` and `os.fdopen` on the handle that the engine made.
unfoldable pub adopt_handle : Bytes → Option ℕ → Exec Host ℕ
adopt_handle rest expected h = (
  ok (length h.streams),
  record h {
    open_fds = h.next_fd ∷ h.open_fds;
    next_fd = h.next_fd + 1;
    streams =
        h.streams ++ (record { fd = h.next_fd; stream = pipe_stream rest expected none }) ∷ [];
  },
)

-- The Windows branch.
unfoldable pub pipe_windows : (Disk → Result Bytes) → Option ℕ → Exec Host ℕ
pipe_windows open_stream expected = do
  disk ← gets (λ h. h.disk)
  rest ← lift (typed (open_stream disk))
  adopt_handle rest expected
