-- ===== src/Stream/Pipe.antt =====
-- Reading a pipe stream to its end, and closing it.
use newtua_py.Base.{
  ℕ, zero, suc, ◌+◌, ◌<◌, ◌≡◌, ◌≢◌, refl, ap, ◌⊎◌, inl, inr, Bool, true, false, ◌&&◌, Option, none,
  some, [], ◌∷◌, ◌++◌, arith, ltb, length, take, drop, take-append-drop, length-take, length-drop,
  if◌then◌else◌,
}
use newtua_py.Base.Int.{ℤ, pos, negsuc}
use mathlib.Core.List.{append-nil, append_assoc}
use native.Mathlib.Nat.{zero-add}
use newtua_py.Errors.{
  Result-cases, Exc, Result, ok, err, new, class_of, value_error, corrupt_archive_error,
}
use newtua_py.Listing.{Bytes}
use newtua_py.Stream.Store
use newtua_py.Stream.Store.{Backing, pipe, spooled, Whence}
use newtua_py.Stream.{
  Stream, pipe_stream, read_chunk, read, readinto, close, iterate, collect, cut_short,
}

-- An open pipe stream that has given out `got` bytes and has `rest` before it.
abbrev pub live : Bytes → ℕ → Option ℕ → Option ℕ → Stream
live rest got expected claim = record {
  backing = pipe rest;
  closed = false;
  tally = some (record { expected_size = expected; read_total = got; on_close = claim });
}

-- Whether an entry of that size is not all there in `n` bytes. Size 0 says nothing.
abbrev pub is_short : Option ℕ → ℕ → Bool
is_short none n = false
is_short (some expected) n = ltb 0 expected && ltb n expected

-- What a read at the end of the data comes to: `value`, or the error about a short entry.
abbrev pub settled : Option ℕ → ℕ → {A : Type 0} → A → Result A
settled none n value = ok value
settled (some expected) n value =
    if ltb 0 expected && ltb n expected then err (cut_short n expected) else ok value

read_some :
    (n : ℕ) (b : ℕ) (rest : Bytes) (got : ℕ) (expected claim : Option ℕ)
    → read_chunk (pos (suc n)) (live (b ∷ rest) got expected claim)
      ≡ (ok (b ∷ take n rest), live (drop n rest) (got + suc (length (take n rest))) expected claim)
unfolding read_chunk Store.read
read_some n b rest got expected claim = ground arith

read_at_end :
    (n : ℕ) (got : ℕ) (expected claim : Option ℕ)
    → read_chunk (pos n) (live [] got expected claim)
      ≡ (settled expected got [], live [] got expected claim)
unfolding read_chunk Store.read
read_at_end zero got expected claim = ground arith
read_at_end (suc n) got expected claim = ground arith

read_all :
    (rest : Bytes) (got : ℕ) (expected claim : Option ℕ)
    → read_chunk (negsuc 0) (live rest got expected claim)
      ≡ (settled expected (got + length rest) rest, live [] (got + length rest) expected claim)
unfolding read_chunk Store.read
read_all rest got expected claim = ground arith

-- One more chunk, and what is left, make up what was there.
regroup : (n b : ℕ) (out rest : Bytes) → (out ++ b ∷ take n rest) ++ drop n rest ≡ out ++ b ∷ rest
regroup n b out rest = rw append_assoc (ap (λ r. out ++ b ∷ r) (take-append-drop n rest))

recount :
    (n got : ℕ) (rest : Bytes)
    → got + suc (length (take n rest)) + length (drop n rest) ≡ got + suc (length rest)
recount n got rest = omega (arith, length-take n rest, length-drop n rest)

collect_lem :
    (n fuel : ℕ) (out rest : Bytes) (got : ℕ) (expected claim : Option ℕ)
    → length rest < fuel
    → collect (suc n) fuel out (live rest got expected claim) ≡ (
      settled expected (got + length rest) (some (out ++ rest)),
      live [] (got + length rest) expected claim,
    )
unfolding collect read
collect_lem n zero out rest got expected claim h = absurd (omega arith)
collect_lem n (suc fuel) out [] got expected claim h =
    ground (arith, read_at_end (suc n) got expected claim, append-nil out)
collect_lem n (suc fuel) out (b ∷ rest) got expected claim h = ground (
  arith,
  read_some n b rest got expected claim,
  collect_lem n fuel (out ++ b ∷ take n rest) (drop n rest) (got + suc (length (take n rest)))
      expected claim (omega (arith, length-drop n rest)),
  regroup n b out rest,
  recount n got rest,
)

-- Iterating over a fresh pipe stream ends, for any fuel above the number of bytes that the writer
-- delivers, and gives exactly those bytes in order; but if the entry's size is known, positive and
-- more than that number, it raises `CorruptArchiveError` instead. The stream is then at its end,
-- with every byte counted.
pub iterate_lem :
    (fuel : ℕ) (rest : Bytes) (expected claim : Option ℕ)
    → length rest < fuel
    → iterate fuel (pipe_stream rest expected claim)
      ≡ (settled expected (length rest) (some rest), live [] (length rest) expected claim)
unfolding iterate
iterate_lem fuel rest expected claim h =
    rw (collect_lem 65535 fuel [] rest 0 expected claim h, zero-add)

-- How a call leaves an open pipe stream: what it gave out and what remains make up what was there,
-- and the tally has gone up by what was taken.
pub record Took (rest : Bytes) (got : ℕ) (expected claim : Option ℕ) (r : Result Bytes) (s : Stream)
    : Type 0 where
  pub chunk : Bytes
  pub left : Bytes
  pub state : s ≡ live left (got + length chunk) expected claim
  pub whole : chunk ++ left ≡ rest
  pub given : (r ≡ ok chunk) ⊎ ((exc : Exc) × (r ≡ err exc))

given_or_raised :
    {r : Result Bytes} (chunk : Bytes)
    → ((a : Bytes) → r ≡ ok a → r ≡ ok chunk)
    → (r ≡ ok chunk) ⊎ ((exc : Exc) × (r ≡ err exc))
given_or_raised {r} chunk same = elim (Result-cases r) [
  | inl (a, h) ↦ inl (same a h)
  | inr raised ↦ inr raised
]

-- Any `read` or `read1` of an open pipe stream, of any size, takes a prefix of what the writer
-- still delivers, counts exactly that, and leaves the rest; it returns that prefix, or raises.
pub read_chunk-Took :
    (size : ℤ) (rest : Bytes) (got : ℕ) (expected claim : Option ℕ)
    → Took rest got expected claim
        (read_chunk size (live rest got expected claim)).0
        (read_chunk size (live rest got expected claim)).1
unfolding read_chunk Store.read
read_chunk-Took (pos n) rest got expected claim = record {
  chunk = take n rest;
  left = drop n rest;
  state = ground arith;
  whole = take-append-drop n rest;
  given = given_or_raised (take n rest) (λ a h. ground arith);
}
read_chunk-Took (negsuc zero) rest got expected claim = record {
  chunk = rest;
  left = [];
  state = ground arith;
  whole = append-nil rest;
  given = given_or_raised rest (λ a h. ground arith);
}
read_chunk-Took (negsuc (suc n)) rest got expected claim = record {
  chunk = [];
  left = rest;
  state = ground arith;
  whole = refl;
  given = given_or_raised [] (λ a h. ground arith);
}

-- A read that is not of zero bytes raises `CorruptArchiveError` only if the writer delivers fewer
-- bytes in all than the entry has.
pub read_chunk-is_short :
    (size : ℤ) (rest : Bytes) (got : ℕ) (expected claim : Option ℕ) (exc : Exc)
    → size ≢ pos 0
    → (read_chunk size (live rest got expected claim)).0 ≡ err exc
    → class_of exc ≡ corrupt_archive_error
    → is_short expected (got + length rest) ≡ true
unfolding read_chunk Store.read
read_chunk-is_short (pos zero) rest got expected claim exc nonzero h c = absurd (nonzero refl)
read_chunk-is_short (pos (suc n)) rest got expected claim exc nonzero h c = ground arith
read_chunk-is_short (negsuc n) rest got expected claim exc nonzero h c = ground arith

-- A read of zero bytes is taken for the end of the data: while fewer bytes than the entry has were
-- read, it raises `CorruptArchiveError`, however many bytes are still to come.
pub read_chunk_zero :
    (rest : Bytes) (got n : ℕ) (claim : Option ℕ)
    → got < n
    → read_chunk (pos 0) (live rest got (some n) claim)
      ≡ (err (cut_short got n), live rest got (some n) claim)
unfolding read_chunk Store.read
read_chunk_zero rest got n claim h = ground arith

-- After a `close`, a second `close` gives up no claim and changes nothing, and every read, of any
-- size or into any buffer, raises `ValueError` and changes nothing; of either class of stream.
pub close_lem :
    (s : Stream) (size : ℤ) (capacity : ℕ)
    → (close (close s).1 ≡ (none, (close s).1))
      × (read_chunk size (close s).1
          ≡ (err (new value_error "I/O operation on closed file"), (close s).1))
      × (readinto capacity (close s).1
          ≡ (err (new value_error "I/O operation on closed file"), (close s).1))
unfolding close read_chunk readinto
close_lem s size capacity = (ground arith, refl, refl)
