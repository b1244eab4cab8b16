-- ===== src/Host/Pipes/RoundTrip.antt =====
-- A pipe stream that is opened and closed again, and one whose handshake fails.
use newtua_py.Base.{
  ℕ, zero, suc, ◌+◌, ◌-◌, ◌<◌, ◌≡◌, refl, sym, ap, ◌∙◌, arith, Bool, true, false, Option, none,
  some, List, [], ◌∷◌, ◌++◌, length, get_elem?, get_elem?-some, get_elem?-lt, get_elem?-set_self,
  set, if◌then◌else◌,
}
use newtua_py.Base.Int.{ℤ, pos, ◌+ℤ◌}
use newtua_py.Listing.{Bytes}
use newtua_py.Stream
use newtua_py.Stream.{Stream, pipe_stream, claim_of}
use newtua_py.Host.{
  Host, TempFile, Piped, hold, hold_some, release, release_some, close_fd, close_piped,
  close_stream,
}
use newtua_py.Host.Claims.{Sound}
use newtua_py.Host.Release.{release_not_last}
use newtua_py.Host.Locked.{set-set}
use newtua_py.Host.Owners.{hold_some-elsewhere}
use newtua_py.Host.Pipes.{open_ends, undo_ends, hand_out}
use newtua_py.Host.Pipes.Descriptors.{count, Tidy}
use newtua_py.Host.Pipes.Claims.{Held}

close_fd-absent : (fd : ℕ) (fds : List ℕ) → count fd fds ≡ 0 → close_fd fd fds ≡ fds
unfolding close_fd
close_fd-absent fd [] h = refl
close_fd-absent fd (g ∷ fds) h = ground (arith, close_fd-absent fd fds (ground arith))

-- The two new ends are closed, in either order.
pub closed_ends :
    (fd : ℕ) (fds : List ℕ)
    → count fd fds ≡ 0
    → count (fd + 1) fds ≡ 0
    → (close_fd fd (close_fd (fd + 1) (fd ∷ (fd + 1) ∷ fds)) ≡ fds)
      × (close_fd (fd + 1) (close_fd fd (fd ∷ (fd + 1) ∷ fds)) ≡ fds)
unfolding close_fd
closed_ends fd fds a b = (
  ground (arith, close_fd-absent fd fds a, close_fd-absent (fd + 1) fds b),
  ground (arith, close_fd-absent fd fds a, close_fd-absent (fd + 1) fds b),
)

set-same : (ts : List TempFile) (t : ℕ) (f : TempFile) → get_elem? ts t ≡ some f → set ts t f ≡ ts
set-same [] t f h = refl
set-same (x ∷ ts) zero f h = ground arith
set-same (x ∷ ts) (suc t) f h = ap (λ l. x ∷ l) (set-same ts t f h)

one_up : (z : ℤ) (n : ℕ) → z ≡ pos (suc n) → z +ℤ pos 1 ≡ pos (suc (suc n))
unfolding ◌+ℤ◌
one_up z n h = rw h (ground arith)

-- A claim that is taken while there is another, and given up again, leaves no trace, whatever
-- happens to the streams and the descriptors in between.
module _ (h : Host) (fds : List ℕ) (next : ℕ) (ps : List Piped) where
  abbrev pub elsewhere : Host → Host
  elsewhere g = record g { open_fds = fds; next_fd = next; streams = ps }

  hold-release :
      (claims : ℕ → ℕ) (t : ℕ) (fds' : List ℕ) (next' : ℕ)
      → Sound claims h
      → 0 < claims t
      → release t (elsewhere (hold t (record h { open_fds = fds'; next_fd = next' }))) ≡ elsewhere h
  unfolding hold
  hold-release claims t fds' next' s claimed =
      let (f, here) = get_elem?-some h.temps t (s.valid t claimed) in
      let f' = record f { holders = f.holders +ℤ pos 1 } in
      let held = s.counted t f here in
      rw here (
        let n = claims t - 1 in
        let counted : f.holders ≡ pos (suc n) = held ∙ ap pos (omega arith) in
        let g : Host = elsewhere (record h { temps = set h.temps t f' }) in
        release_not_last g t n f' (get_elem?-set_self h.temps t f' (get_elem?-lt h.temps t f here))
          (one_up f.holders n counted)
        ∙ ap
            (λ z.
              elsewhere (record h { temps = set (set h.temps t f') t (record f { holders = z }) }))
            (sym counted)
        ∙ ap (λ ts. elsewhere (record h { temps = ts }))
            (set-set h.temps t f' f ∙ set-same h.temps t f here))

  pub hold_some-release_some :
      (o : Option ℕ) (fds' : List ℕ) (next' : ℕ)
      → Held o h
      → release_some o (elsewhere (hold_some o (record h { open_fds = fds'; next_fd = next' })))
        ≡ elsewhere h
  unfolding hold_some release_some
  hold_some-release_some none fds' next' s = refl
  hold_some-release_some (some t) fds' next' s = hold-release _ t fds' next' s (ground arith)

pub get_elem?-last : (ps : List Piped) (p : Piped) → get_elem? (ps ++ p ∷ []) (length ps) ≡ some p
get_elem?-last [] p = refl
get_elem?-last (q ∷ ps) p = get_elem?-last ps p

set-last : (ps : List Piped) (p q : Piped) → set (ps ++ p ∷ []) (length ps) q ≡ ps ++ q ∷ []
set-last [] p q = refl
set-last (r ∷ ps) p q = ap (λ l. r ∷ l) (set-last ps p q)

-- As the machine was, but for the next descriptor's number and one closed stream.
abbrev pub with_closed : Host → List Piped → Host
with_closed h ps = record h { next_fd = h.next_fd + 2; streams = h.streams ++ ps }

still_claims :
    (is_closed : Bool) {c o : Option ℕ}
    → is_closed ≡ false
    → c ≡ o
    → (if is_closed then none else c) ≡ o
still_claims is_closed fresh same = rw fresh same

shut_fd :
    (is_closed : Bool) (fds : List ℕ) {fds' target : List ℕ}
    → is_closed ≡ false
    → fds' ≡ target
    → (if is_closed then fds else fds') ≡ target
shut_fd is_closed fds fresh same = rw fresh same

module _ (h : Host) (o : Option ℕ) (held : Held o h) (tidy : Tidy h) where
  ends : Host
  ends = record h { open_fds = h.next_fd ∷ (h.next_fd + 1) ∷ h.open_fds; next_fd = h.next_fd + 2 }

  fresh_ends : (count h.next_fd h.open_fds ≡ 0) × (count (h.next_fd + 1) h.open_fds ≡ 0)
  fresh_ends = (tidy.free h.next_fd (omega arith), tidy.free (h.next_fd + 1) (omega arith))

  let_go :
      (fds : List ℕ) (next : ℕ) (ps qs : List Piped)
      → fds ≡ h.open_fds
      → next ≡ h.next_fd + 2
      → ps ≡ qs
      → release_some o (elsewhere h fds next ps (hold_some o ends))
        ≡ record h { next_fd = h.next_fd + 2; streams = qs }
  unfolding ends
  let_go fds next ps qs a b c =
      rw (a, b, c) (hold_some-release_some h h.open_fds (h.next_fd + 2) qs o _ _ held)

  -- A stream that was opened, used in any way but not closed, and is closed then.
  pub opened_closed :
      (rest : Bytes) (expected : Option ℕ) (used : Stream)
      → used.closed ≡ false
      → claim_of used.tally ≡ o
      → let h' = hand_out h.next_fd rest expected o (open_ends o h) in
        let p : Piped = record { fd = h.next_fd; stream = used } in
        close_stream
          (length h.streams)
          (record h' { streams = set h'.streams (length h.streams) p })
        ≡ with_closed h ((record p { stream = record used { closed = true } }) ∷ [])
  unfolding close_stream close_piped Stream.close hand_out open_ends ends
  opened_closed rest expected used fresh claims =
      let a = length h.streams in
      let p : Piped = record { fd = h.next_fd; stream = used } in
      let p' : Piped = record p { stream = record used { closed = true } } in
      let (same_streams, same_fds, same_next, _) = hold_some-elsewhere o ends in
      let (none_left, _) = closed_ends h.next_fd h.open_fds fresh_ends.0 fresh_ends.1 in
      let g : List Piped → Host = λ ps.
        elsewhere h (close_fd (h.next_fd + 1) (hold_some o ends).open_fds)
          (hold_some o ends).next_fd ps (hold_some o ends) in
      let ps = h.streams ++ p ∷ [] in
      ap
        (λ qs. close_stream a (
          g (set (qs ++ record { fd = h.next_fd; stream = pipe_stream rest expected o } ∷ []) a p)))
        same_streams
      ∙ ap (λ qs. close_stream a (g qs)) (set-last h.streams _ p)
      ∙ ap (λ found. close_piped a found (g ps)) (get_elem?-last h.streams p)
      ∙ ap
          (λ c. release_some c (
            elsewhere h
              (if used.closed then (g ps).open_fds else close_fd h.next_fd (g ps).open_fds)
              (hold_some o ends).next_fd (set ps a p') (hold_some o ends)))
          (still_claims used.closed fresh claims)
      ∙ let_go _ _ _ (h.streams ++ p' ∷ [])
          (shut_fd used.closed _ fresh
            (ap (λ fds. close_fd h.next_fd (close_fd (h.next_fd + 1) fds)) same_fds ∙ none_left))
          same_next (set-last h.streams p p')

  -- A handshake that failed.
  pub undone : undo_ends h.next_fd o (open_ends o h) ≡ record h { next_fd = h.next_fd + 2 }
  unfolding undo_ends open_ends ends
  undone =
      let (same_streams, same_fds, same_next, _) = hold_some-elsewhere o ends in
      let (_, none_left) = closed_ends h.next_fd h.open_fds fresh_ends.0 fresh_ends.1 in
      let_go _ _ _ h.streams
        (ap (λ fds. close_fd (h.next_fd + 1) (close_fd h.next_fd fds)) same_fds ∙ none_left)
        same_next same_streams
