-- ===== src/Host/Claims.antt =====
-- The invariant on the claims on temporary files and on the files of the disk.
use newtua_py.Base.{
  ℕ, ◌+◌, ◌<◌, ◌≡◌, ◌≢◌, ◌⊎◌, refl, sym, ap, subst, ◌∙◌, ◌==◌, String, text_eq, text_eq_iff, true,
  false, some, [], ◌∷◌, ◌++◌, arith, ltb, length, get_elem?, get_elem?-some, get_elem?-append_one,
  set, get_elem?-lt, length-set, length-append, if◌then◌else◌, inl, inr,
}
use mathlib.Core.Path.{fun_ext}
use native.Mathlib.Decide.{ℕ_discrete, dec_lt}
use newtua_py.Base.Int.{pos, ◌+ℤ◌}
use newtua_py.Listing.{Bytes}
use newtua_py.Host.Counts.{Counts, get_set, set-Counts}
use newtua_py.Host.{Disk, exists, unlink, TempFile, new_temp, Host, hold, add_temp}

pub exists-unlink :
    (p q : String) (d : Disk) → exists p (unlink q d) ≡ (if text_eq q p then false else exists p d)
unfolding exists unlink
exists-unlink p q [] = ground arith
exists-unlink p q ((r, b) ∷ d) =
    ground (arith, exists-unlink p q d, text_eq_iff r q, text_eq_iff r p, text_eq_iff q p)

-- One claim on `u`, as a number for each address.
abbrev pub one : ℕ → ℕ → ℕ
one u t = if u == t then 1 else 0

-- The files and their counters agree with a number of claims for each address.
pub record Sound (claims : ℕ → ℕ) (h : Host) : Type 0 where
  pub counted : (t : ℕ) (f : TempFile) → get_elem? h.temps t ≡ some f → f.holders ≡ pos (claims t)
  pub alive : (t : ℕ) (f : TempFile) → get_elem? h.temps t ≡ some f → f.finalizer ≡ ltb 0 (claims t)
  pub on_disk :
      (t : ℕ) (f : TempFile)
      → get_elem? h.temps t ≡ some f
      → f.finalizer ≡ true
      → exists f.path h.disk ≡ true
  pub distinct :
      (t u : ℕ) (f g : TempFile)
      → get_elem? h.temps t ≡ some f
      → get_elem? h.temps u ≡ some g
      → f.finalizer ≡ true
      → g.finalizer ≡ true
      → f.path ≡ g.path
      → t ≡ u
  pub valid : (t : ℕ) → 0 < claims t → t < length h.temps

-- A write to one temporary file, with what it does to the disk and to the claims.
module _ (claims claims' : ℕ → ℕ) (h : Host) (t : ℕ) (f f' : TempFile) (disk' : Disk)
    (s : Sound claims h) (here : get_elem? h.temps t ≡ some f)
    (others : (u : ℕ) → t ≢ u → claims' u ≡ claims u) (path : f'.path ≡ f.path)
    (holders : f'.holders ≡ pos (claims' t)) (finalizer : f'.finalizer ≡ ltb 0 (claims' t))
    (not_revived : f'.finalizer ≡ true → f.finalizer ≡ true)
    (kept : f'.finalizer ≡ true → exists f.path disk' ≡ true)
    (others_kept : (u : ℕ) (g : TempFile)
      → t ≢ u
      → get_elem? h.temps u ≡ some g
      → g.finalizer ≡ true
      → exists g.path disk' ≡ true) where
  counts : Counts claims (λ _. 0) h
  counts = record {
    counted = s.counted;
    wanted = λ u g e a. ground (arith, s.alive u g e);
    on_disk = s.on_disk;
    distinct = s.distinct;
  }

  after : Counts claims' (λ _. 0) (record h { temps = set h.temps t f'; disk = disk' })
  after =
      set-Counts claims (λ _. 0) claims' (λ _. 0) h t f f' disk' counts here
        (λ u differ. (others u differ, refl)) path holders (λ a. ground arith) not_revived kept
        others_kept

  inside : t < length h.temps
  inside = get_elem?-lt h.temps t f here

  pub set-Sound : Sound claims' (record h { temps = set h.temps t f'; disk = disk' })
  set-Sound = record {
    counted = after.counted;
    alive = λ u g e. elim (get_set h.temps t u f' g inside e) [
      | inl (same, it) ↦
          ap (λ (x : TempFile). x.finalizer) (sym it)
          ∙ finalizer
          ∙ ap (λ (x : ℕ). ltb 0 (claims' x)) same
      | inr (differ, old) ↦ s.alive u g old ∙ ap (ltb 0) (sym (others u differ))
    ];
    on_disk = after.on_disk;
    distinct = after.distinct;
    valid = λ u c. elim (ℕ_discrete t u) [
      | yes same ↦ omega (arith, inside, length-set h.temps t f')
      | no differ ↦
          omega (arith, s.valid u (omega (arith, others u differ)), length-set h.temps t f')
    ];
  }

pub hold-Sound :
    (claims : ℕ → ℕ) (t : ℕ) (h : Host)
    → Sound claims h
    → 0 < claims t
    → Sound (λ u. one t u + claims u) (hold t h)
unfolding hold
hold-Sound claims t h s claimed =
    let (f, here) = get_elem?-some h.temps t (s.valid t claimed) in
    rw here (
      set-Sound claims (λ u. one t u + claims u) h t f (record f { holders = f.holders +ℤ pos 1 })
        h.disk s here (λ u differ. ground arith) refl (ground (arith, s.counted t f here))
        (ground (arith, s.alive t f here)) (λ a. a) (s.on_disk t f here)
        (λ u g differ. s.on_disk u g))

-- The claims may be counted in another way.
pub Sound-cong :
    (claims claims' : ℕ → ℕ) (h : Host)
    → Sound claims h
    → ((t : ℕ) → claims t ≡ claims' t)
    → Sound claims' h
Sound-cong claims claims' h s same = subst (λ c. Sound c h) (fun_ext same) s

module _ (claims : ℕ → ℕ) (path : String) (content : Bytes) (h : Host) (s : Sound claims h)
    (free : exists path h.disk ≡ false) where
  unclaimed : claims (length h.temps) ≡ 0
  unclaimed = elim (dec_lt 0 (claims (length h.temps))) [
    | yes c ↦ absurd (omega (arith, s.valid (length h.temps) c))
    | no c ↦ omega arith
  ]

  added :
      (u : ℕ) (g : TempFile)
      → get_elem? (h.temps ++ new_temp path ∷ []) u ≡ some g
      → ((u ≡ length h.temps) × (new_temp path ≡ g)) ⊎ (get_elem? h.temps u ≡ some g)
  added u g = get_elem?-append_one h.temps (new_temp path) u g

  -- An old living file is not at the new path.
  old_path :
      (u : ℕ) (g : TempFile) → get_elem? h.temps u ≡ some g → g.finalizer ≡ true → g.path ≢ path
  old_path u g there alive same =
      let found = s.on_disk u g there alive in
      let found' = ap (λ (p : String). exists p h.disk) same in cc

  distinct_after :
      (t u : ℕ) (f g : TempFile)
      → get_elem? (h.temps ++ new_temp path ∷ []) t ≡ some f
      → get_elem? (h.temps ++ new_temp path ∷ []) u ≡ some g
      → f.finalizer ≡ true
      → g.finalizer ≡ true
      → f.path ≡ g.path
      → t ≡ u
  distinct_after t u f g e₁ e₂ a₁ a₂ p = elim (added t f e₁) [
    | inl (t_new, f_new) ↦ elim (added u g e₂) [
      | inl (u_new, g_new) ↦ t_new ∙ sym u_new
      | inr u_old ↦
          absurd (old_path u g u_old a₂ (sym p ∙ sym (ap (λ (x : TempFile). x.path) f_new)))
    ]
    | inr t_old ↦ elim (added u g e₂) [
      | inl (u_new, g_new) ↦
          absurd (old_path t f t_old a₁ (p ∙ sym (ap (λ (x : TempFile). x.path) g_new)))
      | inr u_old ↦ s.distinct t u f g t_old u_old a₁ a₂ p
    ]
  ]

  -- A new temporary file under a free path has one claim.
  pub add_temp-Sound : Sound (λ u. one (length h.temps) u + claims u) (add_temp path content h)
  unfolding add_temp exists
  add_temp-Sound = record {
    counted = λ u g e. elim (added u g e) [
      | inl (u_new, g_new) ↦ rw (← g_new, u_new) (ground (arith, unclaimed))
      | inr old ↦ ground (arith, s.counted u g old, get_elem?-lt h.temps u g old)
    ];
    alive = λ u g e. elim (added u g e) [
      | inl (u_new, g_new) ↦ rw (← g_new, u_new) (ground (arith, unclaimed))
      | inr old ↦ ground (arith, s.alive u g old, get_elem?-lt h.temps u g old)
    ];
    on_disk = λ u g e a. elim (added u g e) [
      | inl (u_new, g_new) ↦ rw (← g_new) (ground (arith, text_eq_iff path path))
      | inr old ↦ ground (arith, s.on_disk u g old a)
    ];
    distinct = distinct_after;
    valid = λ u c. elim (ℕ_discrete (length h.temps) u) [
      | yes same ↦ omega (arith, length-append h.temps (new_temp path ∷ []))
      | no differ ↦
          omega (arith, s.valid u (ground arith), length-append h.temps (new_temp path ∷ []))
    ];
  }

-- A temporary file that anyone claims is alive and on the disk.
pub claimed_file :
    (claims : ℕ → ℕ) (h : Host) (t : ℕ)
    → Sound claims h
    → 0 < claims t
    → (f : TempFile) × (get_elem? h.temps t ≡ some f)
      × (f.finalizer ≡ true)
      × (exists f.path h.disk ≡ true)
claimed_file claims h t s claimed =
    let (f, here) = get_elem?-some h.temps t (s.valid t claimed) in
    let alive = s.alive t f here ∙ ground arith in (f, here, alive, s.on_disk t f here alive)
