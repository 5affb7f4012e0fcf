-- ===== src/Compose/Path/Normal.antt =====
-- The shape of what `normpath` makes of a rooted path.
use nixos_homeserver.Base.{
  true, false, List, [], ◌∷◌, ◌++◌, ◌≡◌, ◌≢◌, ◌⊎◌, inl, inr, refl, arith, ==_of_ne, nat_eq, list_eq,
  Text, codes, starts_with, join,
}
use nixos_homeserver.Base.Lists.{All, append-eq-nil}
use nixos_homeserver.Base.Splitting.{Lacks}
use nixos_homeserver.Compose.Path.{initial_slashes, components, normpath}
use nixos_homeserver.Compose.Path.Components.{Proper}

-- What `normpath` puts in front of a rooted path.
abbrev pub Root : Text → Type 0
Root r = (r ≡ codes "/") ⊎ (r ≡ codes "//")

pub Root-initial_slashes :
    (path : Text) → starts_with path (codes "/") ≡ true → Root (initial_slashes path)
unfolding initial_slashes
Root-initial_slashes path h = ground arith

pub Root-ne-nil : (r : Text) → Root r → r ≢ []
unfolding codes
Root-ne-nil r (inl e) = ground arith
Root-ne-nil r (inr e) = ground arith

pub starts_with-join :
    (cs : List Text) → All Proper cs → starts_with (join (codes "/") cs) (codes "/") ≡ false
unfolding starts_with join codes
starts_with-join [] h = refl
starts_with-join ([] ∷ cs) (p, h) = absurd (p.0 refl)
starts_with-join ((c ∷ s) ∷ []) (p, h) = ground (arith, p.3)
starts_with-join ((c ∷ s) ∷ d ∷ cs) (p, h) = ground (arith, p.3)

pub Proper-Lacks : (cs : List Text) → All Proper cs → All (Lacks b'/') cs
Proper-Lacks [] h = tt
Proper-Lacks (c ∷ cs) (p, h) = (p.3, Proper-Lacks cs h)

-- `normpath` of a rooted path: its slashes, and what is left of its components.
pub normpath_of_Root :
    (path : Text)
    → Root (initial_slashes path)
    → normpath path ≡ initial_slashes path ++ join (codes "/") (components path)
unfolding normpath
normpath_of_Root path root =
    rw (==_of_ne (λ e. Root-ne-nil _ root (append-eq-nil (initial_slashes path) _ e).0))
