-- ===== src/Host/Pipes/Descriptors.antt =====
-- The making of a pipe stream, and the descriptors that are open.
use newtua_py.Base.{
  ℕ, zero, suc, ◌+◌, ◌≤◌, ◌≡◌, refl, ap, ◌∙◌, Bool, true, false, ◌==◌, Option, none, some, List, [],
  ◌∷◌, ◌++◌, arith, get_elem?, set, Option-cases, inl, inr, if◌then◌else◌,
}
use mathlib.Core.Option.{some-injective}
use native.Mathlib.Decide.{ℕ_discrete}
use newtua_py.Errors.{Result, ok, err}
use newtua_py.Exec.Keeps.{Keeps, Keeps-bind, Keeps-gets, Keeps-lift}
use newtua_py.Listing.{Bytes}
use newtua_py.Stream
use newtua_py.Stream.{Stream, pipe_stream}
use newtua_py.Host.{Disk, Host, new_host, Piped, close_fd, close_piped, close_stream}
use newtua_py.Host.Owners.{release_some-elsewhere, hold_some-elsewhere}
use newtua_py.Host.Pipes.{
  open_ends, undo_ends, hand_out, shake_hands, pipe_posix, adopt_handle, pipe_windows,
}

-- How often a number stands in a list.
abbrev pub count : ℕ → List ℕ → ℕ
count x [] = 0
count x (y ∷ ys) = (if y == x then 1 else 0) + count x ys

-- How many open streams read from a descriptor.
abbrev pub reads_from : Piped → ℕ → ℕ
reads_from p x = if p.stream.closed then 0 else (if p.fd == x then 1 else 0)

abbrev pub readers : List Piped → ℕ → ℕ
readers [] x = 0
readers (p ∷ ps) x = reads_from p x + readers ps x

-- Each open descriptor is read by one open stream, and by no other; a new number is free.
pub record TidyAt (fds : List ℕ) (next : ℕ) (ps : List Piped) : Type 0 where
  pub counted : (x : ℕ) → count x fds ≡ readers ps x
  pub once : (x : ℕ) → count x fds ≤ 1
  pub free : (x : ℕ) → next ≤ x → count x fds ≡ 0

abbrev pub Tidy : Host → Type 0
Tidy h = TidyAt h.open_fds h.next_fd h.streams

-- On a machine where nothing was made yet.
pub Tidy-start : (disk : Disk) → Tidy (new_host disk)
Tidy-start disk = record { counted = λ x. refl; once = λ x. omega arith; free = λ x past. refl }

-- Only the descriptors and the streams matter.
pub Tidy-same :
    (h h' : Host)
    → h'.streams ≡ h.streams
    → h'.open_fds ≡ h.open_fds
    → h'.next_fd ≡ h.next_fd
    → Tidy h
    → Tidy h'
Tidy-same h h' a b c t = rw (a, b, c) t

count-close_fd :
    (g x : ℕ) (fds : List ℕ) → count x (close_fd g fds) ≡ (if g == x then 0 else count x fds)
unfolding close_fd
count-close_fd g x [] = ground arith
count-close_fd g x (y ∷ fds) = elim (ℕ_discrete y g) [
  | yes same ↦ ground (arith, count-close_fd g x fds)
  | no differ ↦ ground (arith, count-close_fd g x fds)
]

readers-append_one :
    (ps : List Piped) (p : Piped) (x : ℕ) → readers (ps ++ p ∷ []) x ≡ readers ps x + reads_from p x
readers-append_one [] p x = omega arith
readers-append_one (q ∷ ps) p x = omega (arith, readers-append_one ps p x)

pub readers-set :
    (ps : List Piped) (a : ℕ) (p q : Piped) (x : ℕ)
    → get_elem? ps a ≡ some p
    → readers (set ps a q) x + reads_from p x ≡ readers ps x + reads_from q x
readers-set [] a p q x h = cc
readers-set (r ∷ ps) zero p q x h =
    let same : r ≡ p = some-injective r p h in
    omega (arith, ap (λ (y : Piped). reads_from y x) same)
readers-set (r ∷ ps) (suc a) p q x h = omega (arith, readers-set ps a p q x h)

-- A new stream over a new descriptor.
module _ (h : Host) (t : Tidy h) (rest : Bytes) (expected o : Option ℕ) where
  abbrev newcomer : Piped
  newcomer = record { fd = h.next_fd; stream = pipe_stream rest expected o }

  add_stream :
      (fds : List ℕ) (next : ℕ)
      → ((x : ℕ) → count x fds ≡ (if h.next_fd == x then 1 else 0) + count x h.open_fds)
      → h.next_fd + 1 ≤ next
      → TidyAt fds next (h.streams ++ newcomer ∷ [])
  add_stream fds next added grown = record {
    counted = λ x. omega (arith, added x, t.counted x, readers-append_one h.streams newcomer x);
    once = λ x. ground (arith, added x, t.once x, t.free x);
    free = λ x past. ground (arith, added x, t.free x);
  }

open_ends-same :
    (o : Option ℕ) (h : Host)
    → ((open_ends o h).streams ≡ h.streams)
      × ((open_ends o h).open_fds ≡ h.next_fd ∷ (h.next_fd + 1) ∷ h.open_fds)
      × ((open_ends o h).next_fd ≡ h.next_fd + 2)
unfolding open_ends
open_ends-same o h =
    let (a, b, c, _) =
      hold_some-elsewhere o (record h {
        open_fds = h.next_fd ∷ (h.next_fd + 1) ∷ h.open_fds;
        next_fd = h.next_fd + 2;
      }) in
    (a, b, c)

-- Both ends of a pipe were made, and the write end is closed.
kept_end :
    (n x : ℕ) (fds : List ℕ)
    → count (n + 1) fds ≡ 0
    → count x (close_fd (n + 1) (n ∷ (n + 1) ∷ fds)) ≡ (if n == x then 1 else 0) + count x fds
kept_end n x fds unused = elim (ℕ_discrete (n + 1) x) [
  | yes same ↦ ground (arith, count-close_fd (n + 1) x (n ∷ (n + 1) ∷ fds))
  | no differ ↦ ground (arith, count-close_fd (n + 1) x (n ∷ (n + 1) ∷ fds))
]

-- Both ends are closed again.
no_end :
    (n x : ℕ) (fds : List ℕ)
    → count n fds ≡ 0
    → count (n + 1) fds ≡ 0
    → count x (close_fd (n + 1) (close_fd n (n ∷ (n + 1) ∷ fds))) ≡ count x fds
no_end n x fds unused unused' = ground (
  arith,
  count-close_fd (n + 1) x (close_fd n (n ∷ (n + 1) ∷ fds)),
  count-close_fd n x (n ∷ (n + 1) ∷ fds),
)

shake_hands-Tidy :
    (r : Result Bytes) (expected o : Option ℕ) (h : Host)
    → Tidy h
    → Tidy (shake_hands r h.next_fd expected o (open_ends o h)).1
unfolding shake_hands hand_out undo_ends
shake_hands-Tidy (ok rest) expected o h t =
    let (a, b, c) = open_ends-same o h in
    rw (a, b, c)
      (add_stream h t rest expected o
        (close_fd (h.next_fd + 1) (h.next_fd ∷ (h.next_fd + 1) ∷ h.open_fds)) (h.next_fd + 2)
        (λ x. kept_end h.next_fd x h.open_fds (t.free (h.next_fd + 1) (omega arith))) (omega arith))
shake_hands-Tidy (err exc) expected o h t =
    let (a, b, c) = open_ends-same o h in
    let h' = open_ends o h in
    let closed : Host = record h' {
      open_fds = close_fd (h.next_fd + 1) (close_fd h.next_fd h'.open_fds);
    } in
    let (d, e, f) = release_some-elsewhere o closed in
    rw (d, e, f, a, b, c)
      (record {
        counted = λ x.
            no_end h.next_fd x h.open_fds (t.free h.next_fd (omega arith))
              (t.free (h.next_fd + 1) (omega arith))
            ∙ t.counted x;
        once = λ x. omega (
          arith,
          no_end h.next_fd x h.open_fds (t.free h.next_fd (omega arith))
              (t.free (h.next_fd + 1) (omega arith)),
          t.once x,
        );
        free = λ x past.
            no_end h.next_fd x h.open_fds (t.free h.next_fd (omega arith))
              (t.free (h.next_fd + 1) (omega arith))
            ∙ t.free x (omega arith);
      })

pub pipe_posix-Tidy :
    (open_stream : Disk → Result Bytes) (o expected : Option ℕ)
    → Keeps Tidy (pipe_posix open_stream o expected)
unfolding pipe_posix
pipe_posix-Tidy open_stream o expected = record {
  at = λ h t. shake_hands-Tidy (open_stream (open_ends o h).disk) expected o h t;
}

adopt_handle-Tidy : (rest : Bytes) (expected : Option ℕ) → Keeps Tidy (adopt_handle rest expected)
unfolding adopt_handle
adopt_handle-Tidy rest expected = record {
  at = λ h t.
      add_stream h t rest expected none (h.next_fd ∷ h.open_fds) (h.next_fd + 1) (λ x. refl)
        (omega arith);
}

pub pipe_windows-Tidy :
    (open_stream : Disk → Result Bytes) (expected : Option ℕ)
    → Keeps Tidy (pipe_windows open_stream expected)
unfolding pipe_windows
pipe_windows-Tidy open_stream expected =
    Keeps-bind _ _ (Keeps-gets _)
      λ disk. Keeps-bind _ _ (Keeps-lift _) λ rest. adopt_handle-Tidy rest expected

-- What a close takes away, where the stream was the one reader.
closed_count :
    (b : Bool) (g x : ℕ) (fds : List ℕ)
    → (if b then 0 else (if g == x then 1 else 0)) ≤ count x fds
    → count x fds ≤ 1
    → count x (if b then fds else close_fd g fds) + (if b then 0 else (if g == x then 1 else 0))
      ≡ count x fds
closed_count true g x fds one few = omega arith
closed_count false g x fds one few = ground (arith, count-close_fd g x fds)

reads_from-le :
    (ps : List Piped) (a : ℕ) (p : Piped) (x : ℕ)
    → get_elem? ps a ≡ some p
    → reads_from p x ≤ readers ps x
reads_from-le [] a p x h = cc
reads_from-le (r ∷ ps) zero p x h =
    omega (arith, ap (λ (y : Piped). reads_from y x) (some-injective r p h))
reads_from-le (r ∷ ps) (suc a) p x h = omega (arith, reads_from-le ps a p x h)

-- A stream that is closed already keeps what is there; an open one gives up its descriptor.
close_piped-Tidy :
    (a : ℕ) (p : Piped) (h : Host)
    → get_elem? h.streams a ≡ some p
    → Tidy h
    → Tidy (close_piped a (some p) h)
unfolding close_piped Stream.close
close_piped-Tidy a p h here t =
    let q : Piped = record p { stream = (Stream.close p.stream).1 } in
    let fds = if p.stream.closed then h.open_fds else close_fd p.fd h.open_fds in
    let left : (x : ℕ) → count x fds + reads_from p x ≡ count x h.open_fds = λ x.
      closed_count p.stream.closed p.fd x h.open_fds
        (omega (arith, t.counted x, reads_from-le h.streams a p x here)) (t.once x) in
    let (d, e, f) =
      release_some-elsewhere (Stream.close p.stream).0
        (record h { streams = set h.streams a q; open_fds = fds }) in
    rw (d, e, f)
      (record {
        counted = λ x. omega (arith, left x, t.counted x, readers-set h.streams a p q x here);
        once = λ x. omega (arith, left x, t.once x);
        free = λ x past. omega (arith, left x, t.free x past);
      })

pub close_stream-Tidy : (a : ℕ) (h : Host) → Tidy h → Tidy (close_stream a h)
unfolding close_stream
close_stream-Tidy a h t = elim (Option-cases (get_elem? h.streams a)) [
  | inl nowhere ↦ rw (nowhere, close_piped) t
  | inr (p, here) ↦ rw here (close_piped-Tidy a p h here t)
]
