-- ===== src/Host/Owners.antt =====
-- Who claims a temporary file: the archive through its field, and every open stream.
use newtua_py.Base.{
  ℕ, zero, suc, ◌+◌, ◌≡◌, refl, ap, String, true, Option, none, some, List, [], ◌∷◌, ◌++◌, arith,
  get_elem?, set, Option-cases, inl, inr, if◌then◌else◌,
}
use mathlib.Core.Option.{some-injective}
use newtua_py.Stream
use newtua_py.Stream.{Stream, Tally, claim_of}
use newtua_py.Host.{
  Piped, Host, Disk, hold, release, hold_some, release_some, exists, close_piped, close_stream,
  close_fd,
}
use newtua_py.Host.Claims.{Sound, one, hold-Sound, Sound-cong}
use newtua_py.Host.Release.{release-Sound}

abbrev pub held_by : Option ℕ → ℕ → ℕ
held_by none t = 0
held_by (some u) t = one u t

-- A closed stream claims nothing.
abbrev pub claim : Piped → Option ℕ
claim p = if p.stream.closed then none else claim_of p.stream.tally

abbrev pub stream_claims : List Piped → ℕ → ℕ
stream_claims [] t = 0
stream_claims (p ∷ ps) t = held_by (claim p) t + stream_claims ps t

pub stream_claims-append_one :
    (ps : List Piped) (p : Piped) (t : ℕ)
    → stream_claims (ps ++ p ∷ []) t ≡ held_by (claim p) t + stream_claims ps t
stream_claims-append_one [] p t = refl
stream_claims-append_one (q ∷ ps) p t = omega (arith, stream_claims-append_one ps p t)

pub stream_claims-set :
    (ps : List Piped) (a : ℕ) (p q : Piped) (t : ℕ)
    → get_elem? ps a ≡ some p
    → stream_claims (set ps a q) t + held_by (claim p) t ≡ stream_claims ps t + held_by (claim q) t
stream_claims-set [] a p q t h = cc
stream_claims-set (r ∷ ps) zero p q t h =
    let same : r ≡ p = some-injective r p h in
    omega (arith, ap (λ (x : Piped). held_by (claim x) t) same)
stream_claims-set (r ∷ ps) (suc a) p q t h = omega (arith, stream_claims-set ps a p q t h)

-- Only the files and the counters matter to `Sound`.
pub Sound-elsewhere :
    (claims : ℕ → ℕ) (h : Host) (fds : List ℕ) (next : ℕ) (ps : List Piped)
    → Sound claims h
    → Sound claims (record h { open_fds = fds; next_fd = next; streams = ps })
Sound-elsewhere claims h fds next ps s = record {
  counted = s.counted;
  alive = s.alive;
  on_disk = s.on_disk;
  distinct = s.distinct;
  valid = s.valid;
}

-- Files may be added, or be overwritten.
pub Sound-grow :
    (claims : ℕ → ℕ) (h : Host) (d : Disk)
    → ((p : String) → exists p h.disk ≡ true → exists p d ≡ true)
    → Sound claims h
    → Sound claims (record h { disk = d })
Sound-grow claims h d more s = record {
  counted = s.counted;
  alive = s.alive;
  on_disk = λ t f e a. more f.path (s.on_disk t f e a);
  distinct = s.distinct;
  valid = s.valid;
}

pub release_some-Sound :
    (o : Option ℕ) (claims : ℕ → ℕ) (h : Host)
    → Sound (λ t. held_by o t + claims t) h
    → Sound claims (release_some o h)
unfolding release_some
release_some-Sound none claims h s = Sound-cong _ claims h s (λ t. omega arith)
release_some-Sound (some u) claims h s = release-Sound claims u h s

pub hold_some-Sound :
    (o : Option ℕ) (claims : ℕ → ℕ) (h : Host)
    → Sound (λ t. held_by o t + claims t) h
    → Sound (λ t. held_by o t + (held_by o t + claims t)) (hold_some o h)
unfolding hold_some
hold_some-Sound none claims h s = Sound-cong _ _ h s (λ t. omega arith)
hold_some-Sound (some u) claims h s = hold-Sound (λ t. one u t + claims t) u h s (ground arith)

-- Holding and releasing touch neither the streams nor the descriptors.
pub release_some-elsewhere :
    (o : Option ℕ) (h : Host)
    → ((release_some o h).streams ≡ h.streams)
      × ((release_some o h).open_fds ≡ h.open_fds)
      × ((release_some o h).next_fd ≡ h.next_fd)
unfolding release_some release
release_some-elsewhere none h = (refl, refl, refl)
release_some-elsewhere (some t) h = (ground arith, ground arith, ground arith)

pub hold_some-elsewhere :
    (o : Option ℕ) (h : Host)
    → ((hold_some o h).streams ≡ h.streams)
      × ((hold_some o h).open_fds ≡ h.open_fds)
      × ((hold_some o h).next_fd ≡ h.next_fd)
      × ((hold_some o h).disk ≡ h.disk)
unfolding hold_some hold
hold_some-elsewhere none h = (refl, refl, refl, refl)
hold_some-elsewhere (some t) h = (ground arith, ground arith, ground arith, ground arith)

close_piped-Sound :
    (base : ℕ → ℕ) (a : ℕ) (p : Piped) (h : Host)
    → get_elem? h.streams a ≡ some p
    → Sound (λ t. base t + stream_claims h.streams t) h
    → Sound
        (λ t. base t + stream_claims (close_piped a (some p) h).streams t)
        (close_piped a (some p) h)
unfolding close_piped Stream.close
close_piped-Sound base a p h here s =
    let p' : Piped = record p { stream = (Stream.close p.stream).1 } in
    let ps = set h.streams a p' in
    let fds = if p.stream.closed then h.open_fds else close_fd p.fd h.open_fds in
    let h' : Host = record h { streams = ps; open_fds = fds } in
    Sound-cong (λ t. base t + stream_claims ps t) _ (release_some (claim p) h')
      (release_some-Sound (claim p) (λ t. base t + stream_claims ps t) h'
        (Sound-cong _ _ h' (Sound-elsewhere _ h fds h.next_fd ps s)
          (λ t. omega (arith, stream_claims-set h.streams a p p' t here))))
      (λ t. rw ((release_some-elsewhere (claim p) h').0) refl)

-- Closing a stream, the first time or again, leaves the counters right: an open one gives up its
-- own claim, and every other claim stays.
pub close_stream-Sound :
    (base : ℕ → ℕ) (a : ℕ) (h : Host)
    → Sound (λ t. base t + stream_claims h.streams t) h
    → Sound (λ t. base t + stream_claims (close_stream a h).streams t) (close_stream a h)
unfolding close_stream
close_stream-Sound base a h s = elim (Option-cases (get_elem? h.streams a)) [
  | inl nowhere ↦ rw (nowhere, close_piped) s
  | inr (p, here) ↦ rw here (close_piped-Sound base a p h here s)
]
