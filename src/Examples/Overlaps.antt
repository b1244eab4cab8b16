-- ===== src/Examples/Overlaps.antt =====
-- Calls of an asynchronous archive that overlap.
use newtua_py.Base.{ℕ, ◌≡◌, refl, Bool, true, false, some, List, [], ◌∷◌, ◌++◌, get_elem?}
use newtua_py.Base.Int.{pos}
use newtua_py.Host.{TempFile, Piped, exists, unlink, hold, add_temp}
use newtua_py.Host.Pipes.{hand_out}
use newtua_py.Host.Locked.{count_down, delete}
use newtua_py.Exec.{◌>>=◌}
use newtua_py.Archive.Opening.{backing_path}
use newtua_py.Listing.{entries_from_raw, entry_from_raw, safe_mtime}
use newtua_py.Stream
use newtua_py.Stream.{pipe_stream}
use newtua_py.Async.{aenter, aexit}
use newtua_py.Async.Overlap.{steady, advance, closed, opened, open_stream, close_opened, Job, over}
use newtua_py.Async.Overlap.Moves.{
  Overlap, begin, Move, awaits, leaves, goes_on, works, move, run, unraced,
}
use newtua_py.Examples.{machine}
use newtua_py.Examples.Asyncs.{by_path, entered}

abbrev Nobody : Type 0
Nobody = Unit {0}

-- Two streams are opened at once, and the archive is left while the second one is on its way.
abbrev opening : List (Move Nobody)
opening =
    awaits (open_stream 0 3) ∷ awaits (open_stream 0 3) ∷ works 0 ∷ works 1 ∷ works 0 ∷ works 0 ∷ []

abbrev leaving : List (Move Nobody)
leaving = leaves ∷ works 1 ∷ goes_on ∷ works 1 ∷ goes_on ∷ []

-- Both are closed then.
abbrev closing : List (Move Nobody)
closing =
    awaits (close_opened 0)
    ∷ awaits (close_opened 1)
    ∷ works 2
    ∷ works 3
    ∷ works 2
    ∷ works 3
    ∷ works 2
    ∷ works 3
    ∷ works 3
    ∷ works 2
    ∷ []

abbrev midway : Overlap Nobody
midway = run by_path machine (begin entered tt) (opening ++ leaving)

abbrev at_end : Overlap Nobody
at_end = run by_path machine (begin entered tt) (opening ++ leaving ++ closing)

abbrev shut_stream : ℕ → Piped
shut_stream fd = record {
  fd = fd;
  stream = record (pipe_stream (1 ∷ 2 ∷ 3 ∷ []) (some 3) (some 0)) { closed = true };
}

-- The temporary file with so many holders.
abbrev spilled : ℕ → Bool → TempFile
spilled n living = record { path = "t"; holders = pos n; finalizer = living }

abbrev answers : List (Job Nobody)
answers = over (opened 0) ∷ over (opened 1) ∷ over closed ∷ over closed ∷ []

-- Two jobs close one stream, and each tests its flag before the other closes it: the claim is
-- released twice, and the file is gone although the other stream is open. No theorem covers it.
abbrev racing : List (Move Nobody)
racing =
    awaits (close_opened 0)
    ∷ awaits (close_opened 0)
    ∷ works 2
    ∷ works 3
    ∷ works 2
    ∷ works 3
    ∷ works 2
    ∷ works 3
    ∷ works 3
    ∷ []

raced :
    let o = run by_path machine (begin entered tt) (opening ++ leaving ++ racing) in
    (o.state.host.streams
      ≡ shut_stream 0
        ∷ record { fd = 2; stream = pipe_stream (1 ∷ 2 ∷ 3 ∷ []) (some 3) (some 0) }
        ∷ [])
    × (exists "t" o.state.host.disk ≡ false)
    × (unraced by_path machine (begin entered tt) (opening ++ leaving ++ racing) ≡ false)
unfolding run unraced move advance steady aenter aexit ◌>>=◌ backing_path entries_from_raw
    entry_from_raw safe_mtime count_down hand_out hold add_temp Stream.close exists delete unlink
raced = (refl, refl, refl)

-- The archive is left behind the making of the pipe and before the claim: the file is gone, and the
-- stream that is opened then claims it.
abbrev late : Overlap Nobody
late =
    run by_path machine (begin entered tt)
      (awaits (open_stream 0 3) ∷ works 0 ∷ leaves ∷ goes_on ∷ goes_on ∷ works 0 ∷ works 0 ∷ [])

late_run :
    (late.jobs ≡ over (opened 0) ∷ [])
    × (exists "t" late.state.host.disk ≡ false)
    × (get_elem? late.state.host.temps 0 ≡ some (spilled 1 false))
unfolding run move advance aenter aexit ◌>>=◌ backing_path entries_from_raw entry_from_raw
    safe_mtime count_down hand_out hold add_temp Stream.close exists delete unlink
late_run = (refl, refl, refl)
