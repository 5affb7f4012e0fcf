-- ===== src/Compose/Path.antt =====
-- `os.path.normpath` on POSIX, which scripts/check_compose.py calls on an absolute path.
pub mod Components
pub mod Normal
pub mod Inside
use mathlib.Core.List.{reverse}
use nixos_homeserver.Base.{
  ℕ, Bool, true, false, ◌&&◌, ◌||◌, not, List, [], ◌∷◌, ◌++◌, if◌then◌else◌, ◌==◌, nat_eq, list_eq,
  Text, codes, starts_with, split, join,
}

-- The slashes that a path keeps in front: exactly two are kept, three or more are one.
unfoldable pub initial_slashes : Text → Text
initial_slashes path =
    if starts_with path (codes "/")
    then (if starts_with path (codes "//") && not (starts_with path (codes "///"))
        then codes "//"
        else codes "/")
    else []

-- `..` in a component: the last component goes, if there is one that is not itself `..`.
climb : Bool → List Text → List Text
climb true [] = []
climb false [] = codes ".." ∷ []
climb rooted (last ∷ kept) = if last == codes ".." then codes ".." ∷ last ∷ kept else kept

-- One round of the loop over the components. The components kept so far stand last first.
push_component : Bool → List Text → Text → List Text
unfolding climb
push_component rooted kept comp =
    if comp == [] || comp == codes "."
    then kept
    else if comp == codes ".."
    then climb rooted kept
    else comp ∷ kept

pub push_all : Bool → List Text → List Text → List Text
unfolding push_component
push_all rooted kept [] = kept
push_all rooted kept (comp ∷ comps) = push_all rooted (push_component rooted kept comp) comps

-- The components that are left of a path.
unfoldable pub components : Text → List Text
unfolding push_all
components path = reverse (push_all (not (initial_slashes path == [])) [] (split path b'/'))

unfoldable pub normpath : Text → Text
normpath path =
    let normal = initial_slashes path ++ join (codes "/") (components path) in
    if normal == [] then codes "." else normal
