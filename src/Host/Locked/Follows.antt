-- ===== src/Host/Locked/Follows.antt =====
-- What a step of some thread does to the streams, and to the life of a temporary file.
use newtua_py.Base.{
  ℕ, ◌+◌, ◌<◌, ◌≤◌, ◌≡◌, ◌≢◌, ◌⊎◌, refl, subst, sym, ap, ◌∙◌, arith, String, Bool, true, not, ltb,
  some, List, ◌++◌, get_elem?, get_elem?-append_left, get_elem?-set_self, get_elem?-set_ne,
  get_elem?-lt, set, inl, inr,
}
use mathlib.Core.Option.{some-injective}
use native.Mathlib.Decide.{ℕ_discrete}
use newtua_py.Host.{Host, Piped}
use newtua_py.Host.Claims.{one}
use newtua_py.Host.Counts.{Counts}
use newtua_py.Host.Owners.{claim, stream_claims}
use newtua_py.Host.Locked.{count_down, delete}
use newtua_py.Host.Locked.Kept.{
  Lives, one_if, count_down-Lives, delete-Lives, count_down-elsewhere, delete-elsewhere,
  count_down-last,
}

-- Closed or open as it was, with its claim.
abbrev pub Alike : Piped → Piped → Type 0
Alike q q' = (q'.stream.closed ≡ q.stream.closed) × (claim q' ≡ claim q)

-- A stream stays where it is, open as it was or closed.
abbrev pub Goes : List Piped → List Piped → Type 0
Goes ps ps' =
    (a : ℕ) (q : Piped)
    → get_elem? ps a ≡ some q
    → (q' : Piped) × (get_elem? ps' a ≡ some q') × ((q'.stream.closed ≡ true) ⊎ Alike q q')

pub Goes-same : (ps ps' : List Piped) → ps' ≡ ps → Goes ps ps'
Goes-same ps ps' same a q there = (q, ap (λ x. get_elem? x a) same ∙ there, inr (refl, refl))

pub Goes-trans : (ps qs rs : List Piped) → Goes ps qs → Goes qs rs → Goes ps rs
Goes-trans ps qs rs first second a p there =
    let (q, at_q, p_to_q) = first a p there in
    let (r, at_r, q_to_r) = second a q at_q in
    (
      r,
      at_r,
      elim q_to_r [
        | inl shut ↦ inl shut
        | inr (flag, own) ↦ elim p_to_q [
          | inl shut ↦ inl (flag ∙ shut)
          | inr (flag', own') ↦ inr (flag ∙ flag', own ∙ own')
        ]
      ],
    )

pub Goes-append : (ps qs : List Piped) → Goes ps (ps ++ qs)
Goes-append ps qs a q there = (q, get_elem?-append_left ps qs a q there, inr (refl, refl))

pub Goes-set :
    (ps : List Piped) (b : ℕ) (p p' : Piped)
    → get_elem? ps b ≡ some p
    → (p'.stream.closed ≡ true) ⊎ Alike p p'
    → Goes ps (set ps b p')
Goes-set ps b p p' here next a q there = elim (ℕ_discrete b a) [
  | yes same ↦ (
    p',
    ap (λ x. get_elem? (set ps b p') x) (sym same)
        ∙ get_elem?-set_self ps b p' (get_elem?-lt ps b p here),
    let it : p ≡ q = some-injective p q (sym here ∙ ap (λ x. get_elem? ps x) same ∙ there) in
        subst (λ x. (p'.stream.closed ≡ true) ⊎ Alike x p') it next,
  )
  | no differ ↦ (q, get_elem?-set_ne ps b a p' differ ∙ there, inr (refl, refl))
]

own_due : (u t d d' : ℕ) → d ≡ one u t + d' → d ≡ 0 → t ≢ u
own_due u t d d' was none_due same = ground (arith, was)

one_if-ne : (last : Bool) (u t : ℕ) → u ≢ t → one_if last u t ≡ 0
one_if-ne last u t differ = ground arith

not_last :
    (last : Bool) (claims u t d : ℕ)
    → last ≡ not (ltb 0 claims)
    → 0 < claims
    → d ≡ 0
    → one_if last u t + d ≡ 0
not_last last claims u t d counted more none_due = ground arith

-- From one machine to the next: the streams go on, and a temporary file that a stream, or one of
-- some other holders, still claims stays alive, if no deletion of it was due.
module _ (t : ℕ) (path : String) (other : ℕ) where
  pub record Follows (d : ℕ) (h : Host) (d' : ℕ) (h' : Host) : Type 0 where
    pub goes : Goes h.streams h'.streams
    pub lives :
        0 < other + stream_claims h'.streams t → d ≡ 0 → Lives t path h → Lives t path h' × (d' ≡ 0)

  -- The deletions may be counted in another way.
  pub Follows-cong :
      (d d' e e' : ℕ) (h h' : Host) → d ≡ e → d' ≡ e' → Follows d h d' h' → Follows e h e' h'
  Follows-cong d d' e e' h h' same same' f = record {
    goes = f.goes;
    lives = λ claimed none_due l.
        let (l', none_left) = f.lives claimed (omega (arith, same, none_due)) l in
        (l', omega (arith, same', none_left));
  }

  -- No counter is touched.
  pub Follows-still :
      (d d' : ℕ) (h h' : Host)
      → Goes h.streams h'.streams
      → h'.temps ≡ h.temps
      → (d ≡ 0 → d' ≡ 0)
      → Follows d h d' h'
  Follows-still d d' h h' goes same no_more = record {
    goes = goes;
    lives = λ claimed none_due (f, there, at_path, alive).
        ((f, ap (λ ts. get_elem? ts t) same ∙ there, at_path, alive), no_more none_due);
  }

  pub delete-Follows : (u d d' : ℕ) (h : Host) → d ≡ one u t + d' → Follows d h d' (delete u h)
  delete-Follows u d d' h was = record {
    goes = Goes-same h.streams (delete u h).streams (delete-elsewhere u h).0;
    lives = λ claimed none_due l. (
      delete-Lives t u path h l (λ same. own_due u t d d' was none_due same),
      omega (arith, was),
    );
  }

  pub count_down-Follows :
      (base due : ℕ → ℕ) (u d : ℕ) (h : Host)
      → other ≤ base t
      → Counts (λ v. one u v + (base v + stream_claims h.streams v)) due h
      → Follows d h (one_if (count_down u h).0 u t + d) (count_down u h).1
  count_down-Follows base due u d h fewer c = record {
    goes = Goes-same h.streams (count_down u h).1.streams (count_down-elsewhere u h).0;
    lives = λ claimed none_due l. (
      count_down-Lives t u path h l,
      let held = ap (λ ps. stream_claims ps t) (count_down-elsewhere u h).0 in
          elim (ℕ_discrete u t) [
            | yes it ↦
                let last =
                  count_down-last (λ v. base v + stream_claims h.streams v) due u h c l.0
                    (ap (λ x. get_elem? h.temps x) it ∙ l.1) in
                let more : 0 < base u + stream_claims h.streams u = omega (
                  arith,
                  held,
                  claimed,
                  fewer,
                  ap base it,
                  ap (λ x. stream_claims h.streams x) it,
                ) in
                not_last (count_down u h).0 (base u + stream_claims h.streams u) u t d last more
                  none_due
            | no differ ↦ omega (arith, one_if-ne (count_down u h).0 u t differ, none_due)
          ],
    );
  }
