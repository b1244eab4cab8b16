-- ===== src/Paths.antt =====
-- `pathlib.PurePosixPath`, as far as the package uses it: making one from a text, `==` and `str`.
pub mod Equality
use Prim.Native.Char.{Char, code}
use Prim.Native.String
use newtua_py.Base.{
  ℕ, String, Bool, true, false, List, [], ◌∷◌, ◌==◌, text_eq, ◌&&◌, ◌||◌, ◌<>◌, ◌≡◌, refl,
  if◌then◌else◌,
}

-- The root ("", "/" or "//") and the names behind it.
pub record PurePosixPath : Type 0 where
  pub root : String
  pub parts : List String

-- The first name continues with a character.
extend_first : Char → List String → List String
extend_first c [] = String.◌∷◌ c String.[] ∷ []
extend_first c (w ∷ ws) = String.◌∷◌ c w ∷ ws

-- `path.split("/")`
split : String → List String
split String.[] = String.[] ∷ []
split (String.◌∷◌ c s) =
    let rest = split s in if code c == b'/' then String.[] ∷ rest else extend_first c rest

-- Empty names and "." are dropped.
significant : List String → List String
significant [] = []
significant (w ∷ ws) =
    let rest = significant ws in if text_eq w "" || text_eq w "." then rest else w ∷ rest

-- "//" and nothing more is a root of its own; one slash, or three and more, are the root "/".
root_of_rest : String → String
root_of_rest String.[] = "//"
root_of_rest (String.◌∷◌ c s) = if code c == b'/' then "/" else "//"

root_after_slash : String → String
root_after_slash String.[] = "/"
root_after_slash (String.◌∷◌ c s) = if code c == b'/' then root_of_rest s else "/"

root_of : String → String
root_of String.[] = ""
root_of (String.◌∷◌ c s) = if code c == b'/' then root_after_slash s else ""

-- `PurePosixPath(text)`
unfoldable pub posix_path : String → PurePosixPath
unfolding split extend_first significant root_of root_after_slash root_of_rest
posix_path s = record { root = root_of s; parts = significant (split s) }

-- `"/".join(names)`
join : List String → String
join [] = ""
join (w ∷ []) = w
join (w ∷ v ∷ ws) = w <> "/" <> join (v ∷ ws)

or_dot : String → String
or_dot s = if text_eq s "" then "." else s

-- `str(path)`: "." where there is neither a root nor a name.
unfoldable pub str_path : PurePosixPath → String
unfolding join or_dot
str_path p = or_dot (p.root <> join p.parts)

parts_eq : List String → List String → Bool
parts_eq [] [] = true
parts_eq [] (_ ∷ _) = false
parts_eq (_ ∷ _) [] = false
parts_eq (v ∷ vs) (w ∷ ws) = text_eq v w && parts_eq vs ws

-- `p == q`
unfoldable pub path_eq : PurePosixPath → PurePosixPath → Bool
unfolding parts_eq
path_eq p q = text_eq p.root q.root && parts_eq p.parts q.parts
