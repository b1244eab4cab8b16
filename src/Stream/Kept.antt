-- ===== src/Stream/Kept.antt =====
-- What every method of a stream but `close` leaves as it is.
use newtua_py.Base.{ℕ, ◌≡◌, refl, sym, ap, ◌∙◌, Bool, Option, none, some, length}
use newtua_py.Base.Int.{ℤ, pos}
use newtua_py.Errors.{Result}
use newtua_py.Exec.{Exec, raise, ◌>>=◌, ◌>>◌}
use newtua_py.Exec.Keeps.{Keeps, Keeps-bind, Keeps-pure}
use newtua_py.Stream.Store
use newtua_py.Stream.Store.{Backing, Whence}
use newtua_py.Stream.{
  Stream, Tally, claim_of, check_open, on_backing, took, took_by, not_seekable, read_chunk, read,
  read1, readinto, seek, tell,
}

-- The flag and the claim.
abbrev pub Alike : Bool → Option ℕ → Stream → Type 0
Alike is_closed claim s = (s.closed ≡ is_closed) × (claim_of s.tally ≡ claim)

module _ (b : Bool) (o : Option ℕ) where
  check_open-Alike : Keeps (Alike b o) check_open
  unfolding check_open ◌>>=◌
  check_open-Alike = record { at = λ s h. h }

  on_backing-Alike : {A : Type 0} (m : Exec Backing A) → Keeps (Alike b o) (on_backing m)
  unfolding on_backing
  on_backing-Alike m = record { at = λ s h. h }

  took_by-Alike :
      (t : Option Tally) (n : ℕ) (e : Bool) (s : Stream)
      → s.tally ≡ t
      → Alike b o s
      → Alike b o (took_by t n e s).1
  unfolding took_by
  took_by-Alike none n e s same h = h
  took_by-Alike (some t) n e s same h = (h.0, ap claim_of (sym same) ∙ h.1)

  took-Alike : (n : ℕ) (e : Bool) → Keeps (Alike b o) (took n e)
  unfolding took
  took-Alike n e = record { at = λ s h. took_by-Alike s.tally n e s refl h }

  read_chunk-Alike : (size : ℤ) → Keeps (Alike b o) (read_chunk size)
  unfolding read_chunk
  read_chunk-Alike size = Keeps-bind _ _ check_open-Alike λ _.
      Keeps-bind _ _ (on_backing-Alike (Store.read size))
        λ chunk. Keeps-bind _ _ (took-Alike (length chunk) _) λ _. Keeps-pure chunk

  readinto-Alike : (capacity : ℕ) → Keeps (Alike b o) (readinto capacity)
  unfolding readinto
  readinto-Alike capacity = Keeps-bind _ _ check_open-Alike λ _.
      Keeps-bind _ _ (on_backing-Alike (Store.read (pos capacity)))
        λ chunk. Keeps-bind _ _ (took-Alike (length chunk) _) λ _. Keeps-pure chunk

  on_open :
      {A : Type 0} (m : Exec Backing A) (t : Option Tally) (s : Stream)
      → Alike b o s
      → let x : Result A × Stream = elim t [
        | none ↦ (check_open >> on_backing m) s
        | some _ ↦ raise not_seekable s
      ] in
        Alike b o x.1
  unfolding ◌>>=◌
  on_open m none s h = (Keeps-bind _ _ check_open-Alike λ _. on_backing-Alike m).at s h
  on_open m (some t) s h = h

-- A call of a method, with its arguments.
pub data StreamCall : Type 0 where
  calls_read : Option ℤ → StreamCall
  calls_read1 : ℤ → StreamCall
  calls_readinto : ℕ → StreamCall
  calls_seek : ℤ → Whence → StreamCall
  calls_tell : StreamCall

-- The stream behind the call, whether it returned or raised.
unfoldable pub after_call : StreamCall → Stream → Stream
after_call (calls_read size) s = (read size s).1
after_call (calls_read1 size) s = (read1 size s).1
after_call (calls_readinto capacity) s = (readinto capacity s).1
after_call (calls_seek offset w) s = (seek offset w s).1
after_call calls_tell s = (tell s).1

-- No call but `close` closes a stream or gives up its claim.
pub after_call-Alike :
    (call : StreamCall) (s : Stream) → Alike s.closed (claim_of s.tally) (after_call call s)
unfolding after_call read read1 seek tell
after_call-Alike (calls_read none) s = (read_chunk-Alike _ _ _).at s (refl, refl)
after_call-Alike (calls_read (some n)) s = (read_chunk-Alike _ _ _).at s (refl, refl)
after_call-Alike (calls_read1 size) s = (read_chunk-Alike _ _ size).at s (refl, refl)
after_call-Alike (calls_readinto capacity) s = (readinto-Alike _ _ capacity).at s (refl, refl)
after_call-Alike (calls_seek offset w) s = on_open _ _ _ s.tally s (refl, refl)
after_call-Alike calls_tell s = on_open _ _ _ s.tally s (refl, refl)
