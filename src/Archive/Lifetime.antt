-- ===== src/Archive/Lifetime.antt =====
-- After any history, who claims each temporary file.
use newtua_py.Base.{
  ℕ, ◌+◌, ◌≡◌, refl, ap, String, true, Option, none, some, get_elem?, ltb, Bool-cases, inl, inr,
  if◌then◌else◌,
}
use newtua_py.Base.Int.{pos}
use newtua_py.Host.{Disk, exists, TempFile, release_some}
use newtua_py.Host.Claims.{Sound-cong}
use newtua_py.Host.Release.{exists-release}
use newtua_py.Host.Owners.{Sound-grow, held_by, stream_claims, close_stream-Sound}
use newtua_py.Host.Used.{use_stream-Sound}
use newtua_py.Host.Pipes.Claims.{Held, Held-start, pipe_posix-Held, pipe_windows-Held}
use newtua_py.Engine.{Engine, Platform, NewNames, DeletesNothing}
use newtua_py.Archive.{State, Source}
use newtua_py.Archive.Claims.{Owned, claims_of}
use newtua_py.Archive.Opening.{close}
use newtua_py.Archive.Opening.Lifetime.{
  open_reader-Owned, listing-Owned, close-Owned, set_password-Owned,
}
use newtua_py.Archive.History.{Law, Reach, Reach-Keeps, start}

module _ (E : Engine) (P : Platform) (fresh : NewNames P) (adds : DeletesNothing E) where
  law : Law E P (λ a h. Held a.tempfile h)
  law = record {
    opened = record { at = (open_reader-Owned E P fresh).at };
    listed = record { at = (listing-Owned E P fresh).at };
    on_posix = λ a open_stream. pipe_posix-Held open_stream a.tempfile;
    on_windows = λ a open_stream. pipe_windows-Held open_stream a.tempfile;
    grown = λ s d. Sound-grow (claims_of s) s.host d;
    rekeyed = set_password-Owned;
    closed = close-Owned;
    stream_closed = λ a s. close_stream-Sound (held_by s.archive.tempfile) a s.host;
    stream_used = λ call a s. use_stream-Sound (held_by s.archive.tempfile) call a s.host;
  }

  pub Reach-Owned :
      {self_id : ℕ} {source : Source} {password encoding : Option String} {disk : Disk}
      {s : State E.Reader}
      → Reach E P (start E.Reader self_id source password encoding disk) s
      → Owned s
  Reach-Owned {disk = disk} r = Reach-Keeps adds law (Held-start disk) r

  -- In every state that a history of calls reaches from a new archive, each temporary file that
  -- was ever made counts exactly the claims on it: one if the archive holds it, and one for each
  -- stream over it that is still open. Its finalizer is still to run exactly while there is a claim, and
  -- then its file is on the disk.
  pub Reach-claims :
      {self_id : ℕ} {source : Source} {password encoding : Option String} {disk : Disk}
      {s : State E.Reader}
      → Reach E P (start E.Reader self_id source password encoding disk) s
      → (t : ℕ) (f : TempFile) → get_elem? s.host.temps t ≡ some f
      → (f.holders ≡ pos (held_by s.archive.tempfile t + stream_claims s.host.streams t))
        × (f.finalizer ≡ ltb 0 (held_by s.archive.tempfile t + stream_claims s.host.streams t))
        × ((if f.finalizer then exists f.path s.host.disk else true) ≡ true)
  Reach-claims {s = s} r t f stored =
      let o = Reach-Owned r in
      (
        o.counted t f stored,
        o.alive t f stored,
        elim (Bool-cases f.finalizer) [
          | inl alive ↦ rw alive (o.on_disk t f stored alive)
          | inr gone ↦ rw gone
        ],
      )

  -- In such a state, let the archive hold a temporary file. After `close()` the file is on the disk
  -- exactly if a stream over it is still open, and the archive holds nothing and is closed.
  pub close_keeps_streamed :
      {self_id : ℕ} {source : Source} {password encoding : Option String} {disk : Disk}
      {s : State E.Reader}
      → Reach E P (start E.Reader self_id source password encoding disk) s
      → (t : ℕ) (f : TempFile) → s.archive.tempfile ≡ some t
      → get_elem? s.host.temps t ≡ some f
      → (exists f.path (close s).host.disk ≡ ltb 0 (stream_claims s.host.streams t))
        × ((close s).archive.tempfile ≡ none)
        × ((close s).archive.closed ≡ true)
  unfolding close release_some
  close_keeps_streamed {s = s} r t f holds stored =
      let o = Reach-Owned r in
      (
        rw (holds, release_some)
            (exists-release (stream_claims s.host.streams) t s.host f
              (Sound-cong _ _ s.host o
                (λ u. ap (λ (x : Option ℕ). held_by x u + stream_claims s.host.streams u) holds))
              stored),
        refl,
        refl,
      )
