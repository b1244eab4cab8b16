-- ===== src/Lib.antt =====
-- A verification library for newtua, a Python package that lists and extracts archives.
--
-- The package is a layer of Python over one compiled module, which decodes the formats. An `Archive`
-- (python/newtua/_archive.py) opens its source lazily; a source of bytes or an open file is copied
-- to a temporary file first, which the archive and the streams that it hands out share by counted
-- claims. The engine's listing is turned into entries (python/newtua/_entry.py) with an index by
-- name. An entry is read whole, extracted, or opened as a stream (python/newtua/_stream.py), which
-- is a spool that rewinds or a pipe that a worker fills. Errors of the engine carry a kind and are
-- turned into typed ones (python/newtua/_errors.py); its progress is turned into event objects
-- (python/newtua/_events.py) for the user's callback.
--
-- Which file models which part:
--   Base      the libraries' names, Boolean tests, lists, integers, floats and printing
--   Errors    _errors.py, and `_as_typed` of _batch.py
--   Enums     the string enumerations of _format.py, _entry.py and _events.py
--   Paths     PurePosixPath of the standard library, as far as it is used
--   Events    _events.py, and `_wrap_progress` of _archive.py
--   Listing   `Entry` of _entry.py; `_entries_from_raw`, `_resolve_index` and the lookups of
--             _archive.py. Listing/Build is about the built listing, Listing/Resolve about references,
--             Listing/Slices about slices, Listing/Detached about entries without an archive
--   Exec      methods: a state in, a result or an exception and the state out
--   Stream    _stream.py, and the iteration of `AsyncEntryStream` of _async.py; Stream/Store is the
--             two backing stores
--   Host      `_TempFile`, the disk, the descriptors and the streams that were handed out. Host/Pipes
--             is the making of a pipe stream, which `Archive` and `AsyncArchive` do alike; Host/Used
--             is the calls on a stream that was handed out, but `close`
--   Engine    the compiled module and the platform, as records of functions
--   Archive   the class `Archive`: Opening (`_backing_path`, `_open`, `_listing`, `password`,
--             `close`), Access (the sequence protocol, the properties, `read`, `extract`) and Pipes
--             (`open` and what it calls). Archive/History is any history of calls on an archive and
--             on its streams; Archive/Lifetime is about the claims on temporary files then,
--             Archive/Descriptors about the open descriptors, Archive/Coherence about the listing.
--             Archive/Retry is a second open, Archive/Shown `__repr__` and `_human_size`
--   Async     `AsyncArchive` and `_AsyncStreamCtx` of _async.py, in the same way: Async itself is
--             entering and leaving, Async/Access streams, `read` and `extract`, Async/History any
--             history of calls. Async/Twin reads and extracts beside an `Archive`. Async/Overlap takes
--             the calls apart into the steps of worker threads: a job is what a thread has still to
--             do. Async/Overlap/Moves is the schedules of jobs and of leaving; its children are about
--             the claims and the streams. Async/Session is the `async with` block over a stream
--   Batch     _batch.py: Batch/Jobs is one job, Batch/Pool the executor (`_make_executor`,
--             `_run_backend`), Batch itself `extract_many` and `list_many`. The executors are functions
--             from the submitted tasks to their futures in the order of `as_completed`, and what
--             `cancel.is_set()` answers is a function of the number of the call. Batch/Results is about
--             the results, Batch/Reported about the callbacks. Batch/Gevent is `_GeventExecutor`, over a
--             thread pool of gevent that is the order in which it runs what was spawned
--   Examples  concrete inputs: the tests, and each theorem at work
--
-- A method is a function from the state to a result and the state behind it, so what was written
-- before an exception stays written. `Archive.State` is the object's fields and a `Host`: the files
-- by path, each `_TempFile` at its address, the open descriptors, and each pipe stream at its
-- address; a stream's `on_close` is the address of the `_TempFile` whose claim it holds. In
-- Host/Locked `release` is in two steps: the count under the lock, and the finalizer behind it.
-- A schedule is a list of moves, each by the event loop or by a job, and `run` takes any of them: the
-- loop awaits any call at any time, but does nothing else while it leaves the archive, since there is
-- no `await` in `__aexit__`. A call that is refused on the loop makes no job.
--
-- Assumed of code outside the repository: `datetime.fromtimestamp` fails with the documented
-- classes (`Documented`), `NamedTemporaryFile` makes a file that was not there (`NewNames`), and an
-- extraction deletes no file (`DeletesNothing`, `RemovesNothing`). Async/Twin assumes that a call by
-- path is that of a reader which is opened from the path for it (`SameEngine`).
--
-- Fuel: the iteration over a stream has fuel for its rounds; each round but the last takes a byte at
-- least, so more fuel than bytes is enough. The walk of a slice has the length of the tuple as fuel,
-- since each step passes a position, and `float_of` one unit for each exponent of a float.
--
-- Simplified: numbers of Python have no bound, and none is given them here. A float of the
-- engine is its bit pattern and is never computed with; those of `_human_size` are computed exactly,
-- as whole numbers of 53 bits over powers of two. A pipe is the bytes that its writer will still
-- deliver, and a buffered read of it gives the number asked for until the end; a text is a list of
-- characters, and `os.fspath` of a text is that text. The worker thread is what it delivers. A lock
-- makes each operation on a counter one step. In the histories a call that `asyncio.to_thread` runs is
-- one step too, and nothing comes between those of a block in Async/Session. In Async/Overlap a call
-- has steps: `_PipeStream.close` tests the flag in one, closes in another and gives up the claim in a
-- third, since nothing locks it. A read of a stream is one step, and so is an extraction, and no call of
-- `__aenter__` of the archive overlaps with others. The cancellation of a call is not described.
-- Where two jobs close one stream and both find it open, the claim is released twice
-- (Examples/Overlaps has such a schedule); `unraced` is false of that schedule, and true of those where
-- each closing finds the flag as its job tested it.
--
-- Not modelled: `__reduce__` (it only raises), the collection of garbage (which may run a finalizer
-- early); the compiled module src/lib.rs and its stubs, the package's exports and its tests.
pub mod Base
pub mod Errors
pub mod Enums
pub mod Paths
pub mod Events
pub mod Listing
pub mod Exec
pub mod Stream
pub mod Host
pub mod Engine
pub mod Archive
pub mod Async
pub mod Batch
pub mod Examples
