-- ===== src/Host/Release.antt =====
-- What a release does to the claims and to the file.
use newtua_py.Base.{
  ℕ, suc, ◌+◌, ◌-◌, ◌<◌, ◌≡◌, ◌≢◌, refl, sym, ap, ◌∙◌, true, false, some, arith, ltb, get_elem?,
  get_elem?-some, set, String, [], ◌∷◌, text_eq_iff,
}
use native.Mathlib.Decide.{dec_lt}
use newtua_py.Base.Int.{pos}
use newtua_py.Listing.{Bytes}
use newtua_py.Host.{Disk, exists, unlink, TempFile, Host, release}
use newtua_py.Host.Claims.{exists-unlink, one, Sound, set-Sound}

-- A release when another claim is left only counts down; the last one deletes the file.
pub release_not_last :
    (h : Host) (t n : ℕ) (f : TempFile)
    → get_elem? h.temps t ≡ some f
    → f.holders ≡ pos (suc (suc n))
    → release t h ≡ record h { temps = set h.temps t (record f { holders = pos (suc n) }) }
unfolding release
release_not_last h t n f here count = rw here (ground arith)

release_last :
    (h : Host) (t : ℕ) (f : TempFile)
    → get_elem? h.temps t ≡ some f
    → f.holders ≡ pos 1
    → f.finalizer ≡ true
    → release t h ≡ record h {
      temps = set h.temps t (record f { holders = pos 0; finalizer = false });
      disk = unlink f.path h.disk;
    }
unfolding release
release_last h t f here count alive = rw here (ground arith)

module _ (claims : ℕ → ℕ) (t : ℕ) (h : Host) (s : Sound (λ u. one t u + claims u) h) (f : TempFile)
    (here : get_elem? h.temps t ≡ some f) where
  one_more : f.holders ≡ pos (suc (claims t))
  one_more = s.counted t f here ∙ ap pos (ground arith)

  still_alive : f.finalizer ≡ true
  still_alive = s.alive t f here ∙ ground arith

  release_leaves : 0 < claims t → Sound claims (release t h)
  release_leaves more =
      rw (release_not_last h t (claims t - 1) f here (one_more ∙ ap pos (omega arith))) (
        set-Sound (λ u. one t u + claims u) claims h t f
          (record f { holders = pos (suc (claims t - 1)) }) h.disk s here (λ u differ. ground arith)
          refl (ap pos (omega arith)) (still_alive ∙ ground arith) (λ a. a) (s.on_disk t f here)
          (λ u g differ. s.on_disk u g))

  -- The file that goes is no other living file's.
  others_stay :
      (u : ℕ) (g : TempFile)
      → t ≢ u
      → get_elem? h.temps u ≡ some g
      → g.finalizer ≡ true
      → exists g.path (unlink f.path h.disk) ≡ true
  others_stay u g differ there alive = ground (
    arith,
    exists-unlink g.path f.path h.disk,
    text_eq_iff f.path g.path,
    s.on_disk u g there alive,
    λ (p : f.path ≡ g.path). differ (s.distinct t u f g here there still_alive alive p),
  )

  release_deletes : claims t ≡ 0 → Sound claims (release t h)
  release_deletes last =
      rw (release_last h t f here (one_more ∙ ap (λ (n : ℕ). pos (suc n)) last) still_alive) (
        set-Sound (λ u. one t u + claims u) claims h t f
          (record f { holders = pos 0; finalizer = false }) (unlink f.path h.disk) s here
          (λ u differ. ground arith) refl (ap pos (sym last)) (ground arith) (λ a. still_alive)
          (λ a. cc) others_stay)

-- Giving up one claim keeps the rest in order.
pub release-Sound :
    (claims : ℕ → ℕ) (t : ℕ) (h : Host)
    → Sound (λ u. one t u + claims u) h
    → Sound claims (release t h)
release-Sound claims t h s =
    let (f, here) = get_elem?-some h.temps t (s.valid t (ground arith)) in
    elim (dec_lt 0 (claims t)) [
      | yes more ↦ release_leaves claims t h s f here more
      | no last ↦ release_deletes claims t h s f here (omega arith)
    ]

-- After a release the file is on the disk exactly if a claim is left.
pub exists-release :
    (claims : ℕ → ℕ) (t : ℕ) (h : Host) (f : TempFile)
    → Sound (λ u. one t u + claims u) h
    → get_elem? h.temps t ≡ some f
    → exists f.path (release t h).disk ≡ ltb 0 (claims t)
exists-release claims t h f s here = elim (dec_lt 0 (claims t)) [
  | yes more ↦
      rw
        (release_not_last h t (claims t - 1) f here
          (one_more claims t h s f here ∙ ap pos (omega arith)))
        (s.on_disk t f here (still_alive claims t h s f here) ∙ ground arith)
  | no last ↦
      let none_left : claims t ≡ 0 = omega arith in
      rw
        (release_last h t f here
          (one_more claims t h s f here ∙ ap (λ (n : ℕ). pos (suc n)) none_left)
          (still_alive claims t h s f here))
        (ground (arith, exists-unlink f.path f.path h.disk, text_eq_iff f.path f.path))
]

-- Deleting what is not there, and what was just made.
unlink_new : (p : String) (d : Disk) → exists p d ≡ false → unlink p d ≡ d
unfolding unlink exists
unlink_new p [] h = refl
unlink_new p ((q, b) ∷ d) h = let rest = unlink_new p d (ground arith) in ground arith

pub unlink_added :
    (p : String) (content : Bytes) (d : Disk) → exists p d ≡ false → unlink p ((p, content) ∷ d) ≡ d
unfolding unlink
unlink_added p content d h = ground (arith, unlink_new p d h, text_eq_iff p p)
