-- ===== src/Stream/Store.antt =====
-- The two backing stores of a stream, and what Python's `io` does on them: the read end of a pipe
-- behind a buffer, and a `SpooledTemporaryFile`.
use newtua_py.Base.{
  ℕ, ◌+◌, ◌-◌, Bool, false, not, ◌&&◌, ◌||◌, [], ◌++◌, ltb, ◌==◌, length, take, drop, replicate,
  if◌then◌else◌,
}
use newtua_py.Base.Int.{ℤ, pos, negsuc, ◌+ℤ◌}
use newtua_py.Errors.{Result, ok, err, new, value_error, os_error}
use newtua_py.Exec.{Exec}
use newtua_py.Listing.{Bytes}

-- `content` is what was written, `rolled` whether it has moved from memory to a file.
pub record Spooled : Type 0 where
  pub content : Bytes
  pub position : ℕ
  pub max_size : ℕ
  pub rolled : Bool

-- Of a pipe: the bytes that will still come out before the writer closes its end.
pub data Backing : Type 0 where
  spooled : Spooled → Backing
  pipe : Bytes → Backing

pub data Whence : Type 0 where
  from_start from_here from_end : Whence

-- `SpooledTemporaryFile(max_size=n)`
abbrev pub empty_spool : ℕ → Spooled
empty_spool n = record { content = []; position = 0; max_size = n; rolled = false }

-- `write` at the position, behind zeros if that lies past the end. Past `max_size` bytes, unless
-- that is 0, the file rolls over.
unfoldable pub write : Bytes → Spooled → Spooled
write chunk f =
    let past = f.position + length chunk in
    record {
      content =
          take f.position f.content
          ++ (replicate (f.position - length f.content) 0 ++ (chunk ++ drop past f.content));
      position = past;
      max_size = f.max_size;
      rolled = f.rolled || (not (f.max_size == 0) && ltb f.max_size past);
    }

unfoldable pub read_spool : ℤ → Spooled → Result Bytes × Spooled
read_spool (pos n) f =
    let chunk = take n (drop f.position f.content) in
    (ok chunk, record f { position = f.position + length chunk })
read_spool (negsuc n) f =
    if f.rolled && not (n == 0)
    then (err (new value_error "read length must be non-negative or -1"), f)
    else let chunk = drop f.position f.content in
      (ok chunk, record f { position = f.position + length chunk })

-- Reads of the buffered pipe return exactly `n` bytes until the end.
unfoldable pub read_pipe : ℤ → Bytes → Result Bytes × Bytes
read_pipe (pos n) rest = (ok (take n rest), drop n rest)
read_pipe (negsuc n) rest =
    if n == 0
    then (ok rest, [])
    else (err (new value_error "read length must be non-negative or -1"), rest)

-- Where `seek` goes, as an int that may be negative.
target : Spooled → ℤ → Whence → ℤ
target f offset from_start = offset
target f offset from_here = pos f.position +ℤ offset
target f offset from_end = pos (length f.content) +ℤ offset

-- In memory an absolute negative position is a `ValueError` and a relative one means 0; a file
-- refuses both.
seek_to : Spooled → ℤ → Whence → Result ℕ × Spooled
seek_to f (pos n) w = (ok n, record f { position = n })
seek_to f (negsuc n) from_start =
    (err (new (if f.rolled then os_error else value_error) "negative seek value"), f)
seek_to f (negsuc n) _ =
    if f.rolled
    then (err (new os_error "Invalid argument"), f)
    else (ok 0, record f { position = 0 })

unfoldable pub seek_spool : ℤ → Whence → Spooled → Result ℕ × Spooled
unfolding target seek_to ◌+ℤ◌
seek_spool offset w f = seek_to f (target f offset w) w

on_spool : {A : Type 0} → Result A × Spooled → Result A × Backing
on_spool (r, f) = (r, spooled f)

on_pipe : {A : Type 0} → Result A × Bytes → Result A × Backing
on_pipe (r, rest) = (r, pipe rest)

-- `backing.read(size)`
unfoldable pub read : ℤ → Exec Backing Bytes
unfolding read_spool read_pipe on_spool on_pipe
read size (spooled f) = on_spool (read_spool size f)
read size (pipe rest) = on_pipe (read_pipe size rest)

-- `backing.seek(offset, whence)`; a pipe refuses.
unfoldable pub seek : ℤ → Whence → Exec Backing ℕ
unfolding seek_spool on_spool
seek offset w (spooled f) = on_spool (seek_spool offset w f)
seek offset w (pipe rest) = (err (new os_error "Illegal seek"), pipe rest)

-- `backing.tell()`
unfoldable pub tell : Exec Backing ℕ
tell (spooled f) = (ok f.position, spooled f)
tell (pipe rest) = (err (new os_error "Illegal seek"), pipe rest)
