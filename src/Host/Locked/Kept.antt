-- ===== src/Host/Locked/Kept.antt =====
-- What holding and the two steps of a release keep.
use newtua_py.Base.{
  ℕ, ◌+◌, ◌≡◌, ◌≢◌, refl, sym, ap, ◌∙◌, arith, ltb, String, Bool, true, false, not, none, some,
  get_elem?, get_elem?-lt, get_elem?-set_self, get_elem?-set_ne, set, text_eq_iff, if◌then◌else◌,
  Option-cases, Bool-cases, inl, inr,
}
use mathlib.Core.Option.{some-injective}
use native.Mathlib.Decide.{ℕ_discrete}
use newtua_py.Base.Int.{pos, ◌+ℤ◌, ◌-ℤ◌}
use newtua_py.Host.{Disk, TempFile, Host, exists, unlink, finalize, hold}
use newtua_py.Host.Counts.{Counts, set-Counts}
use newtua_py.Host.Claims.{one, exists-unlink}
use newtua_py.Host.Locked.{count_down, delete}

-- They touch neither the streams nor the descriptors.
abbrev pub SameElsewhere : Host → Host → Type 0
SameElsewhere h h' =
    (h'.streams ≡ h.streams) × (h'.open_fds ≡ h.open_fds) × (h'.next_fd ≡ h.next_fd)

pub hold-elsewhere : (t : ℕ) (h : Host) → SameElsewhere h (hold t h)
unfolding hold
hold-elsewhere t h = ground arith

pub count_down-elsewhere : (t : ℕ) (h : Host) → SameElsewhere h (count_down t h).1
unfolding count_down
count_down-elsewhere t h = ground arith

pub delete-elsewhere : (t : ℕ) (h : Host) → SameElsewhere h (delete t h)
unfolding delete finalize
delete-elsewhere t h = ground arith

-- Where nothing is stored, nothing happens and nothing is counted.
module _ (claims due claims' due' : ℕ → ℕ) (h : Host) (t : ℕ) (s : Counts claims due h)
    (nowhere : get_elem? h.temps t ≡ none)
    (others : (u : ℕ) → t ≢ u → (claims' u ≡ claims u) × (due' u ≡ due u)) where
  elsewhere : (u : ℕ) (f : TempFile) → get_elem? h.temps u ≡ some f → t ≢ u
  elsewhere u f there same = cc (ap (λ (x : ℕ). get_elem? h.temps x) same)

  absent-Counts : Counts claims' due' h
  absent-Counts = record {
    counted = λ u f e. s.counted u f e ∙ ap pos (sym (others u (elsewhere u f e)).0);
    wanted =
        λ u f e a. let (c, d) = others u (elsewhere u f e) in omega (arith, c, d, s.wanted u f e a);
    on_disk = s.on_disk;
    distinct = s.distinct;
  }

pub hold-Counts :
    (claims due : ℕ → ℕ) (t : ℕ) (h : Host)
    → Counts claims due h
    → Counts (λ u. one t u + claims u) due (hold t h)
unfolding hold
hold-Counts claims due t h s = elim (Option-cases (get_elem? h.temps t)) [
  | inl nowhere ↦ rw nowhere (
      absent-Counts claims due (λ u. one t u + claims u) due h t s nowhere
        (λ u differ. (ground arith, refl)))
  | inr (f, here) ↦ rw here (
      set-Counts claims due (λ u. one t u + claims u) due h t f
        (record f { holders = f.holders +ℤ pos 1 }) h.disk s here (λ u differ. (ground arith, refl))
        refl (ground (arith, s.counted t f here)) (λ a. ground arith) (λ a. a) (s.on_disk t f here)
        (λ u g differ. s.on_disk u g))
]

-- The last holder leaves a deletion that is due.
abbrev pub one_if : Bool → ℕ → ℕ → ℕ
one_if last t u = if last then one t u else 0

module _ (claims due : ℕ → ℕ) (t : ℕ) (h : Host) (s : Counts (λ u. one t u + claims u) due h) where
  pub count_down-Counts :
      Counts claims (λ u. one_if (count_down t h).0 t u + due u) (count_down t h).1
  unfolding count_down
  count_down-Counts = elim (Option-cases (get_elem? h.temps t)) [
    | inl nowhere ↦ rw nowhere (
        absent-Counts (λ u. one t u + claims u) due claims (λ u. 0 + due u) h t s nowhere
          (λ u differ. (ground arith, omega arith)))
    | inr (f, here) ↦
        let held = s.counted t f here in
        rw here (
          set-Counts (λ u. one t u + claims u) due claims _ h t f
            (record f { holders = f.holders -ℤ pos 1 }) h.disk s here
            (λ u differ. (ground arith, ground arith)) refl (ground arith) (λ a. ground arith)
            (λ a. a) (s.on_disk t f here) (λ u g differ. s.on_disk u g))
  ]

  -- A deletion is due exactly if no claim is left.
  pub count_down-last :
      (f : TempFile) → get_elem? h.temps t ≡ some f → (count_down t h).0 ≡ not (ltb 0 (claims t))
  unfolding count_down
  count_down-last f here = let held = s.counted t f here in rw here (ground arith)

module _ (claims due : ℕ → ℕ) (t : ℕ) (h : Host) (s : Counts claims (λ u. one t u + due u) h) where
  -- The file that goes is no other living file's.
  others_stay :
      (f g : TempFile) (u : ℕ)
      → get_elem? h.temps t ≡ some f
      → f.finalizer ≡ true
      → t ≢ u
      → get_elem? h.temps u ≡ some g
      → g.finalizer ≡ true
      → exists g.path (unlink f.path h.disk) ≡ true
  others_stay f g u here still differ there alive = ground (
    arith,
    exists-unlink g.path f.path h.disk,
    text_eq_iff f.path g.path,
    s.on_disk u g there alive,
    λ (p : f.path ≡ g.path). differ (s.distinct t u f g here there still alive p),
  )

  pub delete-Counts : Counts claims due (delete t h)
  unfolding delete finalize
  delete-Counts = elim (Option-cases (get_elem? h.temps t)) [
    | inl nowhere ↦ rw nowhere (
        absent-Counts claims (λ u. one t u + due u) claims due h t s nowhere
          (λ u differ. (refl, ground arith)))
    | inr (f, here) ↦ rw here (elim (Bool-cases f.finalizer) [
      | inl still ↦ rw still (
          set-Counts claims (λ u. one t u + due u) claims due h t f (record f { finalizer = false })
            (unlink f.path h.disk) s here (λ u differ. (refl, ground arith)) refl
            (s.counted t f here) (λ a. cc) (λ a. still) (λ a. cc)
            (λ u g. others_stay f g u here still))
      | inr gone ↦ simp gone (
          set-Counts claims (λ u. one t u + due u) claims due h t f f h.disk s here
            (λ u differ. (refl, ground arith)) refl (s.counted t f here) (λ a. cc) (λ a. a)
            (s.on_disk t f here) (λ u g differ. s.on_disk u g))
    ])
  ]

-- The finalizer of the temporary file at `t` is still to run.
abbrev pub Lives : ℕ → String → Host → Type 0
Lives t path h =
    (f : TempFile) × (get_elem? h.temps t ≡ some f) × (f.path ≡ path) × (f.finalizer ≡ true)

module _ (t u : ℕ) (path : String) (h : Host) (lives : Lives t path h) where
  set-Lives :
      (f f' : TempFile) (disk : Disk)
      → get_elem? h.temps u ≡ some f
      → f'.path ≡ f.path
      → (t ≡ u → f'.finalizer ≡ f.finalizer)
      → Lives t path (record h { temps = set h.temps u f'; disk = disk })
  set-Lives f f' disk here same_path same_finalizer =
      let (g, there, its_path, alive) = lives in
      elim (ℕ_discrete u t) [
        | yes same ↦
            let it : f ≡ g =
              some-injective f g (sym here ∙ ap (λ (x : ℕ). get_elem? h.temps x) same ∙ there) in
            (
              f',
              ap (λ (x : ℕ). get_elem? (set h.temps u f') x) (sym same)
                  ∙ get_elem?-set_self h.temps u f' (get_elem?-lt h.temps u f here),
              same_path ∙ ap (λ (x : TempFile). x.path) it ∙ its_path,
              same_finalizer (sym same) ∙ ap (λ (x : TempFile). x.finalizer) it ∙ alive,
            )
        | no differ ↦ (g, get_elem?-set_ne h.temps u t f' differ ∙ there, its_path, alive)
      ]

  pub hold-Lives : Lives t path (hold u h)
  unfolding hold
  hold-Lives = elim (Option-cases (get_elem? h.temps u)) [
    | inl nowhere ↦ rw nowhere lives
    | inr (f, here) ↦
        rw here
          (set-Lives f (record f { holders = f.holders +ℤ pos 1 }) h.disk here refl (λ same. refl))
  ]

  pub count_down-Lives : Lives t path (count_down u h).1
  unfolding count_down
  count_down-Lives = elim (Option-cases (get_elem? h.temps u)) [
    | inl nowhere ↦ rw nowhere lives
    | inr (f, here) ↦
        rw here
          (set-Lives f (record f { holders = f.holders -ℤ pos 1 }) h.disk here refl (λ same. refl))
  ]

  -- Only a deletion of the file itself ends its life.
  pub delete-Lives : t ≢ u → Lives t path (delete u h)
  unfolding delete finalize
  delete-Lives differ = elim (Option-cases (get_elem? h.temps u)) [
    | inl nowhere ↦ rw nowhere lives
    | inr (f, here) ↦ rw here (elim (Bool-cases f.finalizer) [
      | inl still ↦ rw still (
          set-Lives f (record f { finalizer = false }) (unlink f.path h.disk) here refl
            (λ same. absurd (differ same)))
      | inr gone ↦ simp gone (set-Lives f f h.disk here refl (λ same. refl))
    ])
  ]
