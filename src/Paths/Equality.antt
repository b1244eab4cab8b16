-- ===== src/Paths/Equality.antt =====
-- `==` of paths.
use newtua_py.Base.{◌≡◌, refl, ◌↔◌, true, List, [], ◌∷◌, arith, text_eq_iff}
use newtua_py.Base.{String}
use newtua_py.Paths.{PurePosixPath, parts_eq, path_eq}

parts_eq_iff : (vs ws : List String) → (parts_eq vs ws ≡ true) ↔ (vs ≡ ws)
unfolding parts_eq
parts_eq_iff [] [] = (λ _. refl, λ _. refl)
parts_eq_iff [] (w ∷ ws) = (λ h. cc, λ h. cc)
parts_eq_iff (v ∷ vs) [] = (λ h. cc, λ h. cc)
parts_eq_iff (v ∷ vs) (w ∷ ws) = (
  λ h. ground (arith, text_eq_iff v w, parts_eq_iff vs ws),
  λ h. ground (arith, text_eq_iff v w, parts_eq_iff vs ws),
)

pub path_eq_iff : (p q : PurePosixPath) → (path_eq p q ≡ true) ↔ (p ≡ q)
unfolding path_eq
path_eq_iff p q = (
  λ h. ground (arith, text_eq_iff p.root q.root, parts_eq_iff p.parts q.parts),
  λ h. ground (arith, text_eq_iff p.root q.root, parts_eq_iff p.parts q.parts),
)
