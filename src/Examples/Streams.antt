-- ===== src/Examples/Streams.antt =====
-- Streams at concrete contents.
use mathlib.Core.List.{flatten}
use newtua_py.Base.{◌≡◌, ◌≢◌, refl, arith, true, none, some, [], ◌∷◌}
use newtua_py.Base.Int.{pos}
use newtua_py.Errors.{ok, err, new, value_error}
use newtua_py.Listing.{Bytes}
use newtua_py.Stream.Store
use newtua_py.Stream.Store.{from_start}
use newtua_py.Stream.{
  Stream, pipe_stream, read_chunk, readinto, read, seek, close, iterate, from_writer, max_in_memory,
  cut_short,
}
use newtua_py.Stream.Pipe.{
  live, is_short, iterate_lem, Took, read_chunk-Took, read_chunk-is_short, read_chunk_zero,
  close_lem,
}
use newtua_py.Stream.Spool.{write_chunks, from_writer_lem}
use newtua_py.Examples.{engine_error}

abbrev three : Bytes
three = 1 ∷ 2 ∷ 3 ∷ []

iterate_example :
    iterate 4 (pipe_stream three (some 5) (some 0))
    ≡ (err (cut_short 3 5), live [] 3 (some 5) (some 0))
iterate_example = iterate_lem 4 three (some 5) (some 0) (omega arith)

read_chunk-Took_example :
    Took three 1
      (some 4)
      none
      (read_chunk (pos 2) (live three 1 (some 4) none)).0
      (read_chunk (pos 2) (live three 1 (some 4) none)).1
read_chunk-Took_example = read_chunk-Took (pos 2) three 1 (some 4) none

two_is_not_zero : pos 2 ≢ pos 0
two_is_not_zero = λ h. cc

cut_at_end : (read_chunk (pos 2) (live [] 1 (some 4) none)).0 ≡ err (cut_short 1 4)
unfolding read_chunk Store.read
cut_at_end = refl

read_chunk-is_short_example : is_short (some 4) 1 ≡ true
read_chunk-is_short_example =
    read_chunk-is_short (pos 2) [] 1 (some 4) none (cut_short 1 4) two_is_not_zero cut_at_end refl

read_chunk_zero_example :
    read_chunk (pos 0) (live three 0 (some 3) none)
    ≡ (err (cut_short 0 3), live three 0 (some 3) none)
read_chunk_zero_example = read_chunk_zero three 0 3 none (omega arith)

abbrev piped : Stream
piped = live three 0 (some 3) (some 8)

close_example :
    (close (close piped).1 ≡ (none, (close piped).1))
    × (read_chunk (pos 2) (close piped).1
        ≡ (err (new value_error "I/O operation on closed file"), (close piped).1))
    × (readinto 6 (close piped).1
        ≡ (err (new value_error "I/O operation on closed file"), (close piped).1))
close_example = close_lem piped (pos 2) 6

from_writer_example :
    ((s : Stream) × (from_writer (write_chunks (three ∷ three ∷ []) (ok tt)) max_in_memory ≡ ok s)
      × ((read none s).0 ≡ ok (1 ∷ 2 ∷ 3 ∷ 1 ∷ 2 ∷ 3 ∷ []))
      × ((read none (seek (pos 0) from_start (read none s).1).1).0
          ≡ ok (1 ∷ 2 ∷ 3 ∷ 1 ∷ 2 ∷ 3 ∷ [])))
    × (from_writer (write_chunks (three ∷ three ∷ []) (err engine_error)) max_in_memory
        ≡ err engine_error)
unfolding flatten
from_writer_example = from_writer_lem (three ∷ three ∷ []) max_in_memory engine_error
