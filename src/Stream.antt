-- ===== src/Stream.antt =====
-- File-like access to one entry (python/newtua/_stream.py), and the asynchronous iteration over it
-- (`AsyncEntryStream` of python/newtua/_async.py).
pub mod Store
pub mod Pipe
pub mod Spool
pub mod Kept
use newtua_py.Base.{
  ℕ, zero, suc, ◌+◌, ◌*◌, String, ◌<>◌, Bool, true, false, not, ◌&&◌, ◌||◌, Option, none, some,
  List, [], ◌∷◌, ◌++◌, ltb, length, if◌then◌else◌,
}
use newtua_py.Base.Int.{ℤ, pos, negsuc, ltb_ℤ}
use newtua_py.Base.Text.{str_nat}
use newtua_py.Errors.{
  Exc, Result, ok, err, new, value_error, unsupported_operation, corrupt_archive_error,
}
use newtua_py.Exec.{Exec, pure, raise, gets, modify, raise_if, continue, ◌>>=◌, ◌>>◌}
use newtua_py.Listing.{Bytes}
use Store
use Store.{Backing, Spooled, spooled, pipe, empty_spool, Whence}

-- What `_PipeStream` adds: the entry's size if it is known, the bytes read so far, and whose claim
-- `close` lets go (the address of a `_TempFile`).
pub record Tally : Type 0 where
  pub expected_size : Option ℕ
  pub read_total : ℕ
  pub on_close : Option ℕ

-- An `EntryStream`; it is a `_PipeStream` if it has a tally.
pub record Stream : Type 0 where
  pub backing : Backing
  pub closed : Bool
  pub tally : Option Tally

-- `_check_open`
check_open : Exec Stream (Unit {0})
check_open s = raise_if s.closed (new value_error "I/O operation on closed file") s

-- A call of a method of the backing store.
on_backing : {A : Type 0} → Exec Backing A → Exec Stream A
on_backing m s = let (r, b) = m s.backing in (r, record s { backing = b })

-- The text is in Russian in the source.
abbrev pub cut_short : ℕ → ℕ → Exc
cut_short got expected = new corrupt_archive_error (
    "поток оборвался на "
    <> str_nat got
    <> " из "
    <> str_nat expected
    <> " ожидаемых байт: распаковка записи не завершилась")

-- The test at the end of the data.
check_tally : Option ℕ → ℕ → Result (Unit {0})
check_tally none got = ok tt
check_tally (some expected) got =
    if ltb 0 expected && ltb got expected then err (cut_short got expected) else ok tt

-- `_took`, of either class.
took_by : Option Tally → ℕ → Bool → Exec Stream (Unit {0})
took_by none n exhausted s = (ok tt, s)
took_by (some t) n exhausted s =
    let total = t.read_total + n in
    (
      if exhausted then check_tally t.expected_size total else ok tt,
      record s { tally = some (record t { read_total = total }) },
    )

took : ℕ → Bool → Exec Stream (Unit {0})
unfolding took_by check_tally
took n exhausted s = took_by s.tally n exhausted s

abbrev pub is_empty : Bytes → Bool
is_empty [] = true
is_empty (_ ∷ _) = false

-- `_read_chunk`
unfoldable pub read_chunk : ℤ → Exec Stream Bytes
unfolding check_open on_backing took ◌>>=◌
read_chunk size = do
  check_open
  chunk ← on_backing (Store.read size)
  took (length chunk) (ltb_ℤ size (pos 0) || is_empty chunk)
  pure chunk

size_or_all : Option ℤ → ℤ
size_or_all none = negsuc 0
size_or_all (some n) = n

-- `read(size)`
unfoldable pub read : Option ℤ → Exec Stream Bytes
unfolding size_or_all
read size = read_chunk (size_or_all size)

-- `read1(size)`
unfoldable pub read1 : ℤ → Exec Stream Bytes
read1 size = read_chunk size

-- `readinto(buffer)`, by the length of the buffer; the bytes that it fills in come back.
unfoldable pub readinto : ℕ → Exec Stream Bytes
unfolding check_open on_backing took ◌>>=◌
readinto capacity = do
  check_open
  chunk ← on_backing (Store.read (pos capacity))
  took (length chunk) (is_empty chunk)
  pure chunk

abbrev pub not_seekable : Exc
not_seekable = new unsupported_operation "stream=True is not seekable"

-- `seek`, of either class.
unfoldable pub seek : ℤ → Whence → Exec Stream ℕ
unfolding check_open on_backing ◌>>=◌
seek offset w s = elim s.tally [
  | none ↦ (check_open >> on_backing (Store.seek offset w)) s
  | some _ ↦ raise not_seekable s
]

-- `tell`, of either class.
unfoldable pub tell : Exec Stream ℕ
unfolding check_open on_backing ◌>>=◌
tell s = elim s.tally [
  | none ↦ (check_open >> on_backing Store.tell) s
  | some _ ↦ raise not_seekable s
]

unfoldable pub readable : Stream → Bool
readable s = true

unfoldable pub seekable : Stream → Bool
seekable s = elim s.tally [ none ↦ true | some _ ↦ false ]

abbrev pub claim_of : Option Tally → Option ℕ
claim_of none = none
claim_of (some t) = t.on_close

-- `close`, of either class: the new stream, and the claim that `on_close` gives up, if this is the
-- first close. What is left in the backing store is gone with it.
unfoldable pub close : Stream → Option ℕ × Stream
close s = (if s.closed then none else claim_of s.tally, record s { closed = true })

-- `_PipeStream(backing, expected_size=…, on_close=…)` over what will come out of the pipe.
abbrev pub pipe_stream : Bytes → Option ℕ → Option ℕ → Stream
pipe_stream rest expected claim = record {
  backing = pipe rest;
  closed = false;
  tally = some (record { expected_size = expected; read_total = 0; on_close = claim });
}

-- `EntryStream.from_writer`: on any exception of the writer the spool is closed, and nobody has it.
rewound : Result (Unit {0}) × Spooled → Result Stream
rewound (ok _, f) =
    ok (record { backing = spooled (record f { position = 0 }); closed = false; tally = none })
rewound (err exc, f) = err exc

unfoldable pub from_writer : Exec Spooled (Unit {0}) → ℕ → Result Stream
unfolding rewound
from_writer write_into max_in_memory = rewound (write_into (empty_spool max_in_memory))

-- `MAX_IN_MEMORY`, and the chunk of asynchronous iteration.
abbrev pub max_in_memory : ℕ
max_in_memory = 8 * 1024 * 1024

abbrev pub chunk_size : ℕ
chunk_size = 64 * 1024

-- `async for chunk in stream`: `__anext__` reads a chunk and stops at an empty one. With fuel for
-- the rounds; `none` means that it ran out.
unfoldable pub collect : ℕ → ℕ → Bytes → Exec Stream (Option Bytes)
collect size zero out s = (ok none, s)
collect size (suc fuel) out s =
    let (r, s') = read (some (pos size)) s in
    elim r [
      | err exc ↦ (err exc, s')
      | ok [] ↦ (ok (some out), s')
      | ok (b ∷ chunk) ↦ collect size fuel (out ++ b ∷ chunk) s'
    ]

unfoldable pub iterate : ℕ → Exec Stream (Option Bytes)
unfolding collect
iterate fuel = collect chunk_size fuel []
