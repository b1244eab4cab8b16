-- ===== src/Host/Pipes/Claims.antt =====
-- The making of a pipe stream, and its claim on the temporary file.
use newtua_py.Base.{ℕ, ◌+◌, ◌≡◌, refl, Option, none, [], ◌∷◌, ◌++◌, arith}
use newtua_py.Errors.{Result, ok, err}
use newtua_py.Exec.Keeps.{Keeps, Keeps-bind, Keeps-gets, Keeps-lift}
use newtua_py.Listing.{Bytes}
use newtua_py.Stream.{pipe_stream}
use newtua_py.Host.{Disk, Host, new_host, Piped, close_fd}
use newtua_py.Host.Claims.{Sound, Sound-cong}
use newtua_py.Host.Owners.{
  held_by, stream_claims, stream_claims-append_one, Sound-elsewhere, release_some-Sound,
  hold_some-Sound, release_some-elsewhere, hold_some-elsewhere,
}
use newtua_py.Host.Pipes.{
  open_ends, undo_ends, hand_out, shake_hands, pipe_posix, adopt_handle, pipe_windows,
}

-- The claims are those of one holder, which is not a stream, and of the open streams.
abbrev pub Held : Option ℕ → Host → Type 0
Held o h = Sound (λ t. held_by o t + stream_claims h.streams t) h

-- On a machine where nothing was made yet.
pub Held-start : (disk : Disk) → Held none (new_host disk)
Held-start disk = record {
  counted = λ t f e. cc;
  alive = λ t f e. cc;
  on_disk = λ t f e a. cc;
  distinct = λ t u f g e. cc;
  valid = λ t c. absurd (omega arith);
}

-- A new claim by `o`, while `o` has one already.
open_ends-Sound :
    (o : Option ℕ) (claims : ℕ → ℕ) (h : Host)
    → Sound (λ t. held_by o t + claims t) h
    → Sound (λ t. held_by o t + (held_by o t + claims t)) (open_ends o h)
unfolding open_ends
open_ends-Sound o claims h s =
    hold_some-Sound o claims
      (record h { open_fds = h.next_fd ∷ (h.next_fd + 1) ∷ h.open_fds; next_fd = h.next_fd + 2 })
      (Sound-elsewhere _ h (h.next_fd ∷ (h.next_fd + 1) ∷ h.open_fds) (h.next_fd + 2) h.streams s)

undo_ends-Sound :
    (fd : ℕ) (o : Option ℕ) (claims : ℕ → ℕ) (h : Host)
    → Sound (λ t. held_by o t + claims t) h
    → Sound claims (undo_ends fd o h)
unfolding undo_ends
undo_ends-Sound fd o claims h s =
    release_some-Sound o claims (record h { open_fds = close_fd (fd + 1) (close_fd fd h.open_fds) })
      (Sound-elsewhere _ h (close_fd (fd + 1) (close_fd fd h.open_fds)) h.next_fd h.streams s)

pub open_ends-streams : (o : Option ℕ) (h : Host) → (open_ends o h).streams ≡ h.streams
unfolding open_ends
open_ends-streams o h = (hold_some-elsewhere o _).0

undo_ends-streams : (fd : ℕ) (o : Option ℕ) (h : Host) → (undo_ends fd o h).streams ≡ h.streams
unfolding undo_ends
undo_ends-streams fd o h = (release_some-elsewhere o _).0

shake_hands-Held :
    (r : Result Bytes) (fd : ℕ) (expected o : Option ℕ) (h : Host)
    → Sound (λ t. held_by o t + (held_by o t + stream_claims h.streams t)) h
    → Held o (shake_hands r fd expected o h).1
unfolding shake_hands hand_out
shake_hands-Held (ok rest) fd expected o h s =
    let p : Piped = record { fd = fd; stream = pipe_stream rest expected o } in
    Sound-cong _ _ _
      (Sound-elsewhere _ h (close_fd (fd + 1) h.open_fds) h.next_fd (h.streams ++ p ∷ []) s)
      (λ t. omega (arith, stream_claims-append_one h.streams p t))
shake_hands-Held (err exc) fd expected o h s =
    Sound-cong (λ t. held_by o t + stream_claims h.streams t) _ _
      (undo_ends-Sound fd o (λ t. held_by o t + stream_claims h.streams t) h s)
      (λ t. rw undo_ends-streams refl)

pub pipe_posix-Held :
    (open_stream : Disk → Result Bytes) (o expected : Option ℕ)
    → Keeps (Held o) (pipe_posix open_stream o expected)
unfolding pipe_posix
pipe_posix-Held open_stream o expected = record {
  at = λ h s.
      let h' = open_ends o h in
      shake_hands-Held (open_stream h'.disk) h.next_fd expected o h' (
        Sound-cong _ _ _ (open_ends-Sound o (stream_claims h.streams) h s)
          (λ t. rw open_ends-streams refl));
}

adopt_handle-Held :
    (rest : Bytes) (o expected : Option ℕ) → Keeps (Held o) (adopt_handle rest expected)
unfolding adopt_handle
adopt_handle-Held rest o expected = record {
  at = λ h s.
      let p : Piped = record { fd = h.next_fd; stream = pipe_stream rest expected none } in
      Sound-cong _ _ _
        (Sound-elsewhere _ h (h.next_fd ∷ h.open_fds) (h.next_fd + 1) (h.streams ++ p ∷ []) s)
        (λ t. omega (arith, stream_claims-append_one h.streams p t));
}

pub pipe_windows-Held :
    (open_stream : Disk → Result Bytes) (o expected : Option ℕ)
    → Keeps (Held o) (pipe_windows open_stream expected)
unfolding pipe_windows
pipe_windows-Held open_stream o expected =
    Keeps-bind _ _ (Keeps-gets _)
      λ disk. Keeps-bind _ _ (Keeps-lift _) λ rest. adopt_handle-Held rest o expected
