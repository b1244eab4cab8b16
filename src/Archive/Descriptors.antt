-- ===== src/Archive/Descriptors.antt =====
-- After any history, which descriptors are open.
use newtua_py.Base.{ℕ, ◌≤◌, ◌≡◌, refl, arith, String, Option}
use newtua_py.Host.{Disk, release_some}
use newtua_py.Host.Owners.{release_some-elsewhere}
use newtua_py.Host.Used.{use_stream-Tidy}
use newtua_py.Host.Pipes.Descriptors.{
  count, readers, Tidy, Tidy-start, Tidy-same, pipe_posix-Tidy, pipe_windows-Tidy,
  close_stream-Tidy,
}
use newtua_py.Engine.{Engine, Platform, DeletesNothing}
use newtua_py.Archive.{State, Source}
use newtua_py.Archive.Opening.{open_reader, listing, close, set_password, drop_tempfile}
use newtua_py.Archive.Opening.Kept.{Kept-refl, open_reader-Kept}
use newtua_py.Archive.Cache.{listing-elsewhere}
use newtua_py.Archive.History.{Law, Reach, Reach-Keeps, start}

pub close-Tidy : {R : Type 0} (s : State R) → Tidy s.host → Tidy (close s).host
unfolding close drop_tempfile
close-Tidy s t =
    let (a, b, c) = release_some-elsewhere s.archive.tempfile s.host in
    Tidy-same s.host (release_some s.archive.tempfile s.host) a b c t

module _ (E : Engine) (P : Platform) where
  open_reader-Tidy : (s : State E.Reader) → Tidy s.host → Tidy (open_reader E P s).1.host
  open_reader-Tidy s t =
      let k = (open_reader-Kept E P).at s (Kept-refl s) in
      Tidy-same s.host (open_reader E P s).1.host k.streams k.open_fds k.next_fd t

  listing-Tidy : (s : State E.Reader) → Tidy s.host → Tidy (listing E P s).1.host
  listing-Tidy s t =
      let (a, b, c) = listing-elsewhere E P s in Tidy-same s.host (listing E P s).1.host a b c t

  law : Law E P (λ _ h. Tidy h)
  unfolding set_password
  law = record {
    opened = record { at = open_reader-Tidy };
    listed = record { at = listing-Tidy };
    on_posix = λ a open_stream. pipe_posix-Tidy open_stream a.tempfile;
    on_windows = λ a open_stream. pipe_windows-Tidy open_stream;
    grown = λ s d more. Tidy-same s.host (record s.host { disk = d }) refl refl refl;
    rekeyed = λ value s t. t;
    closed = close-Tidy;
    stream_closed = λ a s. close_stream-Tidy a s.host;
    stream_used = λ call a s. use_stream-Tidy call a s.host;
  }

  -- After any history of calls on a new archive, failed ones included, each descriptor that is open
  -- is the one that exactly one open stream reads from, and no descriptor is open twice: the write
  -- ends, the descriptors of a failed handshake and those of closed streams are all closed.
  pub Reach-descriptors :
      DeletesNothing E
      → {self_id : ℕ} {source : Source} {password encoding : Option String} {disk : Disk}
        {s : State E.Reader}
      → Reach E P (start E.Reader self_id source password encoding disk) s
      → (fd : ℕ)
      → (count fd s.host.open_fds ≡ readers s.host.streams fd) × (readers s.host.streams fd ≤ 1)
  Reach-descriptors adds {disk = disk} {s = s} r fd =
      let t : Tidy s.host = Reach-Keeps adds law (Tidy-start disk) r in
      (t.counted fd, omega (arith, t.counted fd, t.once fd))
