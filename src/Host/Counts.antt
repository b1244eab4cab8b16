-- ===== src/Host/Counts.antt =====
-- Temporary files that count their holders, and a write to one of them.
use newtua_py.Base.{
  ℕ, ◌+◌, ◌<◌, ◌≡◌, ◌≢◌, ◌⊎◌, refl, sym, ap, ◌∙◌, String, true, some, List, get_elem?,
  get_elem?-set_self, get_elem?-set_ne, get_elem?-lt, set, length, inl, inr,
}
use mathlib.Core.Path.{fun_ext}
use mathlib.Core.Option.{some-injective}
use native.Mathlib.Decide.{ℕ_discrete}
use newtua_py.Base.Int.{pos}
use newtua_py.Host.{Disk, exists, TempFile, Piped, Host}

-- What a write at one place leaves at each place.
pub get_set :
    (ts : List TempFile) (t u : ℕ) (f g : TempFile)
    → t < length ts
    → get_elem? (set ts t f) u ≡ some g
    → ((t ≡ u) × (f ≡ g)) ⊎ ((t ≢ u) × (get_elem? ts u ≡ some g))
get_set ts t u f g inside h = elim (ℕ_discrete t u) [
  | yes same ↦ inl (
    same,
    some-injective f g (
        sym (get_elem?-set_self ts t f inside) ∙ ap (λ (x : ℕ). get_elem? (set ts t f) x) same ∙ h),
  )
  | no differ ↦ inr (differ, sym (get_elem?-set_ne ts t u f differ) ∙ h)
]

-- The counters agree with a number of claims for each address. A file whose finalizer is still to
-- run has a claim, or a deletion that is due, and is on the disk, at a path of its own.
pub record Counts (claims due : ℕ → ℕ) (h : Host) : Type 0 where
  pub counted : (t : ℕ) (f : TempFile) → get_elem? h.temps t ≡ some f → f.holders ≡ pos (claims t)
  pub wanted :
      (t : ℕ) (f : TempFile)
      → get_elem? h.temps t ≡ some f
      → f.finalizer ≡ true
      → 0 < claims t + due t
  pub on_disk :
      (t : ℕ) (f : TempFile)
      → get_elem? h.temps t ≡ some f
      → f.finalizer ≡ true
      → exists f.path h.disk ≡ true
  pub distinct :
      (t u : ℕ) (f g : TempFile)
      → get_elem? h.temps t ≡ some f
      → get_elem? h.temps u ≡ some g
      → f.finalizer ≡ true
      → g.finalizer ≡ true
      → f.path ≡ g.path
      → t ≡ u

-- A write to one temporary file, with what it does to the disk and to the claims.
module _ (claims due claims' due' : ℕ → ℕ) (h : Host) (t : ℕ) (f f' : TempFile) (disk' : Disk)
    (s : Counts claims due h) (here : get_elem? h.temps t ≡ some f)
    (others : (u : ℕ) → t ≢ u → (claims' u ≡ claims u) × (due' u ≡ due u)) (path : f'.path ≡ f.path)
    (holders : f'.holders ≡ pos (claims' t)) (wanted : f'.finalizer ≡ true → 0 < claims' t + due' t)
    (not_revived : f'.finalizer ≡ true → f.finalizer ≡ true)
    (kept : f'.finalizer ≡ true → exists f.path disk' ≡ true)
    (others_kept : (u : ℕ) (g : TempFile)
      → t ≢ u
      → get_elem? h.temps u ≡ some g
      → g.finalizer ≡ true
      → exists g.path disk' ≡ true) where
  written :
      (u : ℕ) (g : TempFile)
      → get_elem? (set h.temps t f') u ≡ some g
      → ((t ≡ u) × (f' ≡ g)) ⊎ ((t ≢ u) × (get_elem? h.temps u ≡ some g))
  written u g = get_set h.temps t u f' g (get_elem?-lt h.temps t f here)

  -- A living file after the write was one before, at the same path.
  before :
      (u : ℕ) (g : TempFile)
      → get_elem? (set h.temps t f') u ≡ some g
      → g.finalizer ≡ true
      → (o : TempFile) × (get_elem? h.temps u ≡ some o) × (o.finalizer ≡ true) × (o.path ≡ g.path)
  before u g e a = elim (written u g e) [
    | inl (same, it) ↦ (
      f,
      ap (λ (x : ℕ). get_elem? h.temps x) (sym same) ∙ here,
      not_revived (ap (λ (x : TempFile). x.finalizer) it ∙ a),
      sym path ∙ ap (λ (x : TempFile). x.path) it,
    )
    | inr (differ, old) ↦ (g, old, a, refl)
  ]

  pub set-Counts : Counts claims' due' (record h { temps = set h.temps t f'; disk = disk' })
  set-Counts = record {
    counted = λ u g e. elim (written u g e) [
      | inl (same, it) ↦
          ap (λ (x : TempFile). x.holders) (sym it) ∙ holders ∙ ap (λ (x : ℕ). pos (claims' x)) same
      | inr (differ, old) ↦ s.counted u g old ∙ ap pos (sym (others u differ).0)
    ];
    wanted = λ u g e a. elim (written u g e) [
      | inl (same, it) ↦ rw (← same) (wanted (ap (λ (x : TempFile). x.finalizer) it ∙ a))
      | inr (differ, old) ↦ rw ((others u differ).0, (others u differ).1) (s.wanted u g old a)
    ];
    on_disk = λ u g e a. elim (written u g e) [
      | inl (same, it) ↦
          ap (λ (x : TempFile). exists x.path disk') (sym it)
          ∙ ap (λ (p : String). exists p disk') path
          ∙ kept (ap (λ (x : TempFile). x.finalizer) it ∙ a)
      | inr (differ, old) ↦ others_kept u g differ old a
    ];
    distinct = λ u v g k e₁ e₂ a₁ a₂ p.
        let (o, there, alive, same) = before u g e₁ a₁ in
        let (o', there', alive', same') = before v k e₂ a₂ in
        s.distinct u v o o' there there' alive alive' (same ∙ p ∙ sym same');
  }

-- Only the files and the counters matter.
pub Counts-elsewhere :
    (claims due : ℕ → ℕ) (h : Host) (fds : List ℕ) (next : ℕ) (ps : List Piped)
    → Counts claims due h
    → Counts claims due (record h { open_fds = fds; next_fd = next; streams = ps })
Counts-elsewhere claims due h fds next ps s = record {
  counted = s.counted;
  wanted = s.wanted;
  on_disk = s.on_disk;
  distinct = s.distinct;
}

-- Files may be added, or be overwritten.
pub Counts-grow :
    (claims due : ℕ → ℕ) (h : Host) (d : Disk)
    → ((p : String) → exists p h.disk ≡ true → exists p d ≡ true)
    → Counts claims due h
    → Counts claims due (record h { disk = d })
Counts-grow claims due h d more s = record {
  counted = s.counted;
  wanted = s.wanted;
  on_disk = λ t f e a. more f.path (s.on_disk t f e a);
  distinct = s.distinct;
}

-- The claims and the deletions may be counted in another way.
pub Counts-cong :
    (claims due claims' due' : ℕ → ℕ) (h : Host)
    → Counts claims due h
    → ((t : ℕ) → claims t ≡ claims' t)
    → ((t : ℕ) → due t ≡ due' t)
    → Counts claims' due' h
Counts-cong claims due claims' due' h s same same' = rw (← fun_ext same, ← fun_ext same') s
