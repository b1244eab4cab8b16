-- ===== src/Host.antt =====
-- What the archive object shares with its streams and with the machine: the files, the reference
-- counted temporary files (`_TempFile` and `_delete_tempfile` of python/newtua/_archive.py), the
-- descriptors and the streams that were handed out.
pub mod Counts
pub mod Claims
pub mod Release
pub mod Owners
pub mod Used
pub mod Locked
pub mod Pipes
use newtua_py.Base.{
  ℕ, suc, ◌+◌, ◌==◌, String, text_eq, Bool, true, false, Option, none, some, List, [], ◌∷◌, ◌++◌,
  length, get_elem?, set, if◌then◌else◌,
}
use newtua_py.Base.Int.{ℤ, pos, ◌+ℤ◌, ◌-ℤ◌, ltb_ℤ}
use newtua_py.Listing.{Bytes}
use newtua_py.Stream
use newtua_py.Stream.{Stream}

-- Files by their path, the newest first.
abbrev pub Disk : Type 0
Disk = List (String × Bytes)

-- `path.exists()`
unfoldable pub exists : String → Disk → Bool
exists p [] = false
exists p ((q, _) ∷ d) = let rest = exists p d in if text_eq q p then true else rest

-- `path.unlink(missing_ok=True)`, which is `_delete_tempfile`.
unfoldable pub unlink : String → Disk → Disk
unlink p [] = []
unlink p ((q, b) ∷ d) = let rest = unlink p d in if text_eq q p then rest else (q, b) ∷ rest

-- A `_TempFile`: its path, its counter, and whether its finalizer is still to run.
pub record TempFile : Type 0 where
  pub path : String
  pub holders : ℤ
  pub finalizer : Bool

-- A stream over a pipe, with the descriptor of the read end.
pub record Piped : Type 0 where
  pub fd : ℕ
  pub stream : Stream

-- The address of a `_TempFile` is its place in `temps`, that of a stream its place in `streams`.
-- `open_fds` are the descriptors that Python has to close.
pub record Host : Type 0 where
  pub disk : Disk
  pub temps : List TempFile
  pub open_fds : List ℕ
  pub next_fd : ℕ
  pub streams : List Piped

-- A machine with these files, where the program has made nothing yet.
abbrev pub new_host : Disk → Host
new_host disk = record { disk = disk; temps = []; open_fds = []; next_fd = 0; streams = [] }

-- `_TempFile(path)`
abbrev pub new_temp : String → TempFile
new_temp path = record { path = path; holders = pos 1; finalizer = true }

-- The call of the finalizer: the first one deletes the file, any other does nothing.
finalize : ℕ → TempFile → Host → Host
finalize t f h =
    if f.finalizer
    then record h {
      temps = set h.temps t (record f { finalizer = false });
      disk = unlink f.path h.disk;
    }
    else record h { temps = set h.temps t f }

hold_temp : ℕ → Option TempFile → Host → Host
hold_temp t none h = h
hold_temp t (some f) h = record h {
  temps = set h.temps t (record f { holders = f.holders +ℤ pos 1 });
}

release_temp : ℕ → Option TempFile → Host → Host
release_temp t none h = h
release_temp t (some f) h =
    let f' = record f { holders = f.holders -ℤ pos 1 } in
    if ltb_ℤ (pos 0) f'.holders then record h { temps = set h.temps t f' } else finalize t f' h

-- `tempfile.hold()`
unfoldable pub hold : ℕ → Host → Host
unfolding hold_temp ◌+ℤ◌
hold t h = hold_temp t (get_elem? h.temps t) h

-- `tempfile.release()`
unfoldable pub release : ℕ → Host → Host
unfolding release_temp finalize ◌-ℤ◌
release t h = release_temp t (get_elem? h.temps t) h

-- The same where there may be no temporary file.
unfoldable pub hold_some : Option ℕ → Host → Host
hold_some none h = h
hold_some (some t) h = hold t h

unfoldable pub release_some : Option ℕ → Host → Host
release_some none h = h
release_some (some t) h = release t h

-- A new file at `path`, and the object that counts its holders.
unfoldable pub add_temp : String → Bytes → Host → Host
add_temp path content h = record h {
  disk = (path, content) ∷ h.disk;
  temps = h.temps ++ new_temp path ∷ [];
}

-- `os.close(fd)`
unfoldable pub close_fd : ℕ → List ℕ → List ℕ
close_fd fd [] = []
close_fd fd (g ∷ fds) = let rest = close_fd fd fds in if g == fd then rest else g ∷ rest

unfoldable pub close_piped : ℕ → Option Piped → Host → Host
close_piped a none h = h
close_piped a (some p) h =
    let (claim, stream) = Stream.close p.stream in
    release_some claim (record h {
      streams = set h.streams a (record p { stream = stream });
      open_fds = if p.stream.closed then h.open_fds else close_fd p.fd h.open_fds;
    })

-- `stream.close()` of the stream at an address: its descriptor and its claim are given up.
unfoldable pub close_stream : ℕ → Host → Host
unfolding close_piped
close_stream a h = close_piped a (get_elem? h.streams a) h
