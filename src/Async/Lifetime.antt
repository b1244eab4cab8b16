-- ===== src/Async/Lifetime.antt =====
-- After any history of an `AsyncArchive`: who claims each temporary file, and which descriptors are
-- open.
use newtua_py.Base.{
  ℕ, ◌+◌, ◌≤◌, ◌≡◌, refl, arith, String, true, Option, some, get_elem?, ltb, Bool-cases, inl, inr,
  if◌then◌else◌,
}
use newtua_py.Base.Int.{pos}
use newtua_py.Host.{Disk, Host, exists, TempFile}
use newtua_py.Host.Owners.{Sound-grow, held_by, stream_claims, close_stream-Sound}
use newtua_py.Host.Pipes.Claims.{Held, Held-start, pipe_posix-Held, pipe_windows-Held}
use newtua_py.Host.Used.{use_stream-Sound, use_stream-Tidy}
use newtua_py.Stream.Kept.{calls_read}
use newtua_py.Host.Pipes.Descriptors.{
  count, readers, Tidy, Tidy-start, Tidy-same, pipe_posix-Tidy, pipe_windows-Tidy,
  close_stream-Tidy,
}
use newtua_py.Engine.{PathCalls, Platform, NewNames, RemovesNothing}
use newtua_py.Archive.{Archive, State, Source}
use newtua_py.Archive.Opening.{backing_path}
use newtua_py.Archive.Opening.Lifetime.{backing_path-Owned, close-Owned}
use newtua_py.Archive.Opening.Kept.{Kept-refl, backing_path-Kept}
use newtua_py.Archive.Descriptors.{close-Tidy}
use newtua_py.Async.{AsyncState}
use newtua_py.Async.Access.{aclose}
use newtua_py.Async.Access.Kept.{open_pipe_sync-Keeps}
use newtua_py.Async.Kept.{aenter-Keeps, aexit-Keeps}
use newtua_py.Async.History.{read_stream, Law, Reach, Reach-Keeps, start}

module _ (C : PathCalls) (P : Platform) where
  pub claims_kept : NewNames P → Law C P (λ s. Held s.archive.sync.tempfile s.host)
  unfolding aclose read_stream
  claims_kept fresh =
      let J : Archive (Unit {0}) → Host → Type 0 = λ a h. Held a.tempfile h in
      record {
        entered =
            aenter-Keeps J close-Owned C P (record { at = (backing_path-Owned P Unit fresh).at });
        exited = aexit-Keeps J close-Owned;
        piped =
            open_pipe_sync-Keeps J C P (λ a open_stream. pipe_posix-Held open_stream a.tempfile)
              (λ a open_stream. pipe_windows-Held open_stream a.tempfile);
        stream_closed =
            λ address s. close_stream-Sound (held_by s.archive.sync.tempfile) address s.host;
        stream_read = λ size address s.
            use_stream-Sound (held_by s.archive.sync.tempfile) (calls_read (some size)) address
              s.host;
        grown = λ s d.
            Sound-grow (λ t. held_by s.archive.sync.tempfile t + stream_claims s.host.streams t)
              s.host d;
      }

  backing_path-Tidy : (t : State (Unit {0})) → Tidy t.host → Tidy (backing_path P Unit t).1.host
  backing_path-Tidy t h =
      let k = (backing_path-Kept P).at t (Kept-refl t) in
      Tidy-same t.host (backing_path P Unit t).1.host k.streams k.open_fds k.next_fd h

  pub descriptors_kept : Law C P (λ s. Tidy s.host)
  unfolding aclose read_stream
  descriptors_kept =
      let J : Archive (Unit {0}) → Host → Type 0 = λ a h. Tidy h in
      record {
        entered = aenter-Keeps J close-Tidy C P (record { at = backing_path-Tidy });
        exited = aexit-Keeps J close-Tidy;
        piped =
            open_pipe_sync-Keeps J C P (λ a open_stream. pipe_posix-Tidy open_stream a.tempfile)
              (λ a open_stream. pipe_windows-Tidy open_stream);
        stream_closed = λ address s. close_stream-Tidy address s.host;
        stream_read = λ size address s. use_stream-Tidy (calls_read (some size)) address s.host;
        grown = λ s d more. Tidy-same s.host (record s.host { disk = d }) refl refl refl;
      }

  -- In every state that a history of calls reaches from a new `AsyncArchive`, each temporary file
  -- that was ever made counts exactly the claims on it: one if the inner archive holds it, and one
  -- for each stream over it that is still open; its finalizer is still to run exactly while there
  -- is a claim, and then its file is on the disk. And each open descriptor is the one that exactly
  -- one open stream reads from.
  pub async_lifetime :
      NewNames P
      → RemovesNothing C
      → {self_id : ℕ} {source : Source} {password encoding : Option String} {disk : Disk}
        {s : AsyncState}
      → Reach C P (start self_id source password encoding disk) s
      → ((t : ℕ) (f : TempFile)
          → get_elem? s.host.temps t ≡ some f
          → (f.holders ≡ pos (held_by s.archive.sync.tempfile t + stream_claims s.host.streams t))
            × (f.finalizer
                ≡ ltb 0 (held_by s.archive.sync.tempfile t + stream_claims s.host.streams t))
            × ((if f.finalizer then exists f.path s.host.disk else true) ≡ true))
        × ((fd : ℕ)
            → (count fd s.host.open_fds ≡ readers s.host.streams fd)
              × (readers s.host.streams fd ≤ 1))
  async_lifetime fresh adds {disk = disk} {s = s} r =
      let o : Held s.archive.sync.tempfile s.host =
        Reach-Keeps adds (claims_kept fresh) (Held-start disk) r in
      let d : Tidy s.host = Reach-Keeps adds descriptors_kept (Tidy-start disk) r in
      (
        λ t f stored. (
          o.counted t f stored,
          o.alive t f stored,
          elim (Bool-cases f.finalizer) [
            | inl alive ↦ rw alive (o.on_disk t f stored alive)
            | inr gone ↦ rw gone
          ],
        ),
        λ fd. (d.counted fd, omega (arith, d.counted fd, d.once fd)),
      )
