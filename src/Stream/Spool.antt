-- ===== src/Stream/Spool.antt =====
-- An entry that is decoded into a spool, read and rewound.
use mathlib.Core.List.{append-nil, append_assoc, flatten}
use newtua_py.Base.{
  ℕ, zero, suc, ◌+◌, ◌-◌, ◌≤◌, ◌≡◌, refl, ap, ◌∙◌, false, none, List, [], ◌∷◌, ◌++◌, arith, length,
  length-append, take, drop,
}
use newtua_py.Base.Int.{pos}
use newtua_py.Errors.{Exc, Result, ok, err}
use newtua_py.Exec.{Exec}
use newtua_py.Listing.{Bytes}
use newtua_py.Stream.Store
use newtua_py.Stream.Store.{Spooled, spooled, write, empty_spool, Whence, from_start}
use newtua_py.Stream.{Stream, read, read_chunk, seek, rewound, from_writer}

-- A writer that hands over the chunks in order, and then returns or raises.
abbrev pub write_chunks : List Bytes → Result (Unit {0}) → Exec Spooled (Unit {0})
write_chunks [] end f = (end, f)
write_chunks (c ∷ cs) end f = write_chunks cs end (write c f)

take_all : {A : Type 0} (xs : List A) → take (length xs) xs ≡ xs
take_all [] = refl
take_all (x ∷ xs) = ap (λ r. x ∷ r) (take_all xs)

drop_past : {A : Type 0} (xs : List A) (n : ℕ) → length xs ≤ n → drop n xs ≡ []
drop_past [] zero h = refl
drop_past [] (suc n) h = refl
drop_past (x ∷ xs) zero h = absurd (omega arith)
drop_past (x ∷ xs) (suc n) h = drop_past xs n (omega arith)

-- The writer is always at the end of what it has written.
record AtEnd (content : Bytes) (f : Spooled) : Type 0 where
  same : f.content ≡ content
  position : f.position ≡ length content

write-AtEnd :
    (content chunk : Bytes) (f : Spooled)
    → AtEnd content f
    → AtEnd (content ++ chunk) (write chunk f)
unfolding write
write-AtEnd content chunk f here = record {
  same = rw (
    here.same,
    here.position,
    take_all content,
    no_gap (length content),
    drop_past content (length content + length chunk) (omega arith),
    append-nil chunk,
  );
  position = omega (arith, length-append content chunk, here.position);
}
  where
    no_gap : (n : ℕ) → n - n ≡ 0
    no_gap n = omega arith

write_chunks-AtEnd :
    (cs : List Bytes) (content : Bytes) (f : Spooled) (end : Result (Unit {0}))
    → AtEnd content f
    → AtEnd (content ++ flatten cs) (write_chunks cs end f).1
unfolding flatten
write_chunks-AtEnd [] content f end here = rw append-nil here
write_chunks-AtEnd (c ∷ cs) content f end here =
    rw (← append_assoc)
      (write_chunks-AtEnd cs (content ++ c) (write c f) end (write-AtEnd content c f here))

write_chunks-end :
    (cs : List Bytes) (end : Result (Unit {0})) (f : Spooled) → (write_chunks cs end f).0 ≡ end
write_chunks-end [] end f = refl
write_chunks-end (c ∷ cs) end f = write_chunks-end cs end (write c f)

-- A fresh stream over a spool that holds `content`, at its start.
abbrev rewound_at : Spooled → Stream
rewound_at f = record {
  backing = spooled (record f { position = 0 });
  closed = false;
  tally = none;
}

read_rewound :
    (f : Spooled)
    → ((read none (rewound_at f)).0 ≡ ok f.content)
      × ((read none (seek (pos 0) from_start (read none (rewound_at f)).1).1).0 ≡ ok f.content)
unfolding read read_chunk Store.read seek Store.seek
read_rewound f = (ground arith, ground arith)

rewound_ok : (p : Result (Unit {0}) × Spooled) → p.0 ≡ ok tt → rewound p ≡ ok (rewound_at p.1)
unfolding from_writer
rewound_ok (ok _, f) h = refl
rewound_ok (err _, f) h = cc

rewound_err : (p : Result (Unit {0}) × Spooled) (exc : Exc) → p.0 ≡ err exc → rewound p ≡ err exc
unfolding from_writer
rewound_err (ok _, f) exc h = cc
rewound_err (err e, f) exc h = ap err (ground arith)

-- When the engine hands over any chunks and returns, `from_writer` gives a stream that reads as
-- exactly these chunks in order, and reads so again after `seek(0)`, whether the spool stayed in
-- memory or rolled over to a file at `max_in_memory`. When the engine raises after any chunks, so
-- does `from_writer`, with the same exception.
pub from_writer_lem :
    (cs : List Bytes) (max : ℕ) (exc : Exc)
    → ((s : Stream) × (from_writer (write_chunks cs (ok tt)) max ≡ ok s)
        × ((read none s).0 ≡ ok (flatten cs))
        × ((read none (seek (pos 0) from_start (read none s).1).1).0 ≡ ok (flatten cs)))
      × (from_writer (write_chunks cs (err exc)) max ≡ err exc)
unfolding from_writer
from_writer_lem cs max exc =
    let f = (write_chunks cs (ok tt) (empty_spool max)).1 in
    let here =
      write_chunks-AtEnd cs [] (empty_spool max) (ok tt)
        (record { same = refl; position = refl }) in
    (
      (
        rewound_at f,
        rewound_ok _ (write_chunks-end cs (ok tt) (empty_spool max)),
        (read_rewound f).0 ∙ ap ok here.same,
        (read_rewound f).1 ∙ ap ok here.same,
      ),
      rewound_err _ exc (write_chunks-end cs (err exc) (empty_spool max)),
    )
