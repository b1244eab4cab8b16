-- ===== src/Async/Session/Steps.antt =====
-- The steps of `async with archive.open(entry) as stream`, one after the other.
use newtua_py.Base.{
  ℕ, String, ◌+◌, ◌<◌, ◌≡◌, refl, sym, ap, ◌∙◌, true, false, ◌||◌, ◌++◌, Option, none, some, [],
  ◌∷◌, get_elem?, length, set, if◌then◌else◌,
}
use newtua_py.Base.Int.{pos}
use newtua_py.Errors.{Exc, Result, ok, err, typed}
use newtua_py.Errors.Laws.{typed-err}
use newtua_py.Exec.{Exec, lift, ◌>>=◌, continue}
use newtua_py.Listing.{Bytes, Entry, Ref, resolve_index, tuple_item}
use newtua_py.Stream.{iterate, pipe_stream}
use newtua_py.Stream.Pipe.{live, settled, iterate_lem}
use newtua_py.Host.{Disk, Host, Piped, close_stream}
use newtua_py.Engine.{PathCalls, Platform, posix}
use newtua_py.Host.Pipes.{pipe_posix, shake_hands, open_ends, hand_out}
use newtua_py.Host.Owners.{hold_some-elsewhere}
use newtua_py.Host.Pipes.Claims.{Held}
use newtua_py.Host.Pipes.Descriptors.{Tidy}
use newtua_py.Host.Pipes.RoundTrip.{get_elem?-last, with_closed, opened_closed, undone}
use newtua_py.Async.{AsyncState, is_none, unready, ensure_ready, on_machine, asserted}
use newtua_py.Async.Access.{
  AsyncStreamCtx, open_entry, ctx_aenter, ctx_aexit, aclose, open_pipe_sync, open_pipe_on,
}
use newtua_py.Async.Session.{stream_at, on_stream, block, with_stream, stream_whole}

-- The stream behind the block.
abbrev pub used : AsyncState → ℕ → Bytes → Piped
used s size rest = record {
  fd = s.host.next_fd;
  stream = record (live [] (length rest) (some size) s.archive.sync.tempfile) { closed = true };
}

module _ (C : PathCalls) (P : Platform) (os : P.os_name ≡ posix) (s : AsyncState) (p : String)
    (ref : Ref) (i : ℕ) (e : Entry) (at_path : s.archive.path ≡ some p)
    (not_left : s.archive.closed ≡ false) (resolved : resolve_index s.archive.entries ref ≡ ok i)
    (item : tuple_item s.archive.entries (pos i) ≡ ok e) where
  ctx : AsyncStreamCtx
  ctx = record { index = i; size = e.size; stream = none }

  -- The engine's answer to the handshake.
  abbrev answer : Result Bytes
  answer = C.open_stream_path s.host.disk p i s.archive.password s.archive.encoding

  ready : ensure_ready s ≡ (ok tt, s)
  unfolding ensure_ready is_none
  ready =
      ap (λ t. (if t then err unready else ok tt, s))
        (ap (λ o. is_none o || s.archive.closed) at_path ∙ not_left)

  opened_entry : open_entry ref s ≡ (ok ctx, s)
  unfolding open_entry ◌>>=◌ ctx
  opened_entry = simp (ready, resolved, item)

  piped :
      open_pipe_sync C P i e.size s
      ≡ on_machine
          (pipe_posix
            (λ disk. C.open_stream_path disk p i s.archive.password s.archive.encoding)
            s.archive.sync.tempfile
            (some e.size))
          s
  unfolding open_pipe_sync open_pipe_on ◌>>=◌
  piped =
      ap (λ o. (lift (asserted o) >>= λ q. open_pipe_on C P P.os_name q i e.size) s) at_path
      ∙ ap (λ name. open_pipe_on C P name p i e.size s) os

  -- The block over an open stream.
  abbrev inside : ℕ → AsyncStreamCtx → Exec AsyncState (Option Bytes)
  inside fuel entered = block entered (λ stream. on_stream stream (iterate fuel))

  entering : Exec AsyncState AsyncStreamCtx
  entering = ctx_aenter C P ctx

  begun : (fuel : ℕ) → stream_whole C P fuel ref s ≡ (entering >>= inside fuel) s
  unfolding stream_whole with_stream entering ◌>>=◌
  begun fuel = ap (λ r. (continue r.0 (λ c. ctx_aenter C P c >>= inside fuel) r.1)) opened_entry

  refused :
      (exc : Exc) (fuel : ℕ) (s' : AsyncState)
      → open_pipe_sync C P i e.size s ≡ (err exc, s')
      → (entering >>= inside fuel) s ≡ (err exc, s')
  unfolding entering ctx_aenter ctx ◌>>=◌
  refused exc fuel s' h = simp h

  entered_ctx : ℕ → AsyncStreamCtx
  entered_ctx address = record { index = i; size = e.size; stream = some address }

  entered :
      (address fuel : ℕ) (s' : AsyncState)
      → open_pipe_sync C P i e.size s ≡ (ok address, s')
      → (entering >>= inside fuel) s ≡ inside fuel (entered_ctx address) s'
  unfolding entering ctx_aenter ctx entered_ctx ◌>>=◌
  entered address fuel s' h = simp h

  h : Host
  h = s.host

  tempfile : Option ℕ
  tempfile = s.archive.sync.tempfile

  -- The handshake looks at the same files.
  same_answer :
      C.open_stream_path (open_ends tempfile h).disk p i s.archive.password s.archive.encoding
      ≡ answer
  unfolding open_ends tempfile h
  same_answer =
      ap (λ d. C.open_stream_path d p i s.archive.password s.archive.encoding)
        ((hold_some-elsewhere tempfile _).3)

  module _ (held : Held s.archive.sync.tempfile s.host) (tidy : Tidy s.host) where
    handshake : Disk → Result Bytes
    handshake disk = C.open_stream_path disk p i s.archive.password s.archive.encoding

    pipe_fails :
        (exc : Exc)
        → answer ≡ err exc
        → pipe_posix handshake tempfile (some e.size) h
          ≡ (typed (err exc), record h { next_fd = h.next_fd + 2 })
    unfolding pipe_posix shake_hands handshake tempfile h
    pipe_fails exc failing =
        ap (λ r. shake_hands r h.next_fd (some e.size) tempfile (open_ends tempfile h))
          (same_answer ∙ failing)
        ∙ ap (λ g. (let r : Result ℕ = typed (err exc) in r, g))
            (undone s.host s.archive.sync.tempfile held tidy)

    pub failed :
        (exc : Exc) (fuel : ℕ)
        → answer ≡ err exc
        → stream_whole C P fuel ref s
          ≡ (typed (err exc), record s { host = record s.host { next_fd = s.host.next_fd + 2 } })
    unfolding handshake tempfile h
    failed exc fuel failing =
        let (exc', to_open, to_stream) = typed-err exc in
        let s' : AsyncState = record s { host = record s.host { next_fd = s.host.next_fd + 2 } } in
        begun fuel
        ∙ refused exc' fuel s' (
            piped
            ∙ ap (λ x. (let r : Result ℕ = x.0 in r, record s { host = x.1 }))
                (pipe_fails exc failing)
            ∙ ap (λ (r : Result ℕ). (r, s')) to_open)
        ∙ ap (λ (r : Result (Option Bytes)). (r, s')) (sym to_stream)

    opened_host : Bytes → Host
    opened_host rest = hand_out h.next_fd rest (some e.size) tempfile (open_ends tempfile h)

    pipe_opens :
        (rest : Bytes)
        → answer ≡ ok rest
        → pipe_posix handshake tempfile (some e.size) h ≡ (ok (length h.streams), opened_host rest)
    unfolding pipe_posix shake_hands handshake opened_host open_ends
    pipe_opens rest works =
        ap (λ r. shake_hands r h.next_fd (some e.size) tempfile (open_ends tempfile h))
          (same_answer ∙ works)
        ∙ ap (λ ps. (ok (length ps), opened_host rest)) (hold_some-elsewhere tempfile _).0

    new_stream : Bytes → Piped
    new_stream rest = record { fd = h.next_fd; stream = pipe_stream rest (some e.size) tempfile }

    found_stream :
        (rest : Bytes)
        → get_elem? (opened_host rest).streams (length h.streams) ≡ some (new_stream rest)
    unfolding opened_host hand_out open_ends new_stream
    found_stream rest =
        ap (λ ps. get_elem? (ps ++ new_stream rest ∷ []) (length h.streams))
          (hold_some-elsewhere tempfile _).0
        ∙ get_elem?-last h.streams (new_stream rest)

    -- The block, with its stream closed behind it.
    blocked :
        (rest : Bytes) (fuel : ℕ)
        → let s' : AsyncState = record s { host = opened_host rest } in
          let it = iterate fuel (pipe_stream rest (some e.size) tempfile) in
          inside fuel (entered_ctx (length h.streams)) s' ≡ (
            it.0,
            aclose (length h.streams) (record s' {
              host = record s'.host {
                streams =
                    set s'.host.streams
                      (length h.streams)
                      (record (new_stream rest) { stream = it.1 });
              };
            }),
          )
    unfolding block on_stream stream_at ctx_aexit entered_ctx new_stream
    blocked rest fuel =
        let s' : AsyncState = record s { host = opened_host rest } in
        ap
          (λ found.
            (let x = stream_at (length h.streams) (iterate fuel) found s' in
              (x.0, aclose (length h.streams) x.1)))
          (found_stream rest)

    pub worked :
        (rest : Bytes) (fuel : ℕ)
        → answer ≡ ok rest
        → length rest < fuel
        → stream_whole C P fuel ref s ≡ (
          settled (some e.size) (length rest) (some rest),
          record s { host = with_closed s.host (used s e.size rest ∷ []) },
        )
    unfolding aclose handshake opened_host new_stream tempfile h
    worked rest fuel works enough =
        let opened : Host = opened_host rest in
        begun fuel
        ∙ entered (length h.streams) fuel (record s { host = opened })
            (piped
              ∙ ap (λ x. (let r : Result ℕ = x.0 in r, record s { host = x.1 }))
                  (pipe_opens rest works))
        ∙ blocked rest fuel
        ∙ ap
            (λ it. (
              let r : Result (Option Bytes) = it.0 in r,
              record s {
                host = close_stream (length h.streams) (record opened {
                  streams =
                      set opened.streams (length h.streams)
                        (record (new_stream rest) { stream = it.1 });
                });
              },
            ))
            (iterate_lem fuel rest (some e.size) tempfile enough)
        ∙ ap (λ g. (settled (some e.size) (length rest) (some rest), record s { host = g }))
            (opened_closed s.host s.archive.sync.tempfile held tidy rest (some e.size)
              (live [] (length rest) (some e.size) s.archive.sync.tempfile) refl refl)
