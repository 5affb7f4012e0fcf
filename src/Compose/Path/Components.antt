-- ===== src/Compose/Path/Components.antt =====
-- What `normpath` leaves of a rooted path: proper components.
use mathlib.Core.List.{reverse, reverse-cons}
use nixos_homeserver.Base.{
  true, List, [], ◌∷◌, ◌≢◌, arith, if_neg, nat_eq, list_eq, Text, codes, split,
}
use nixos_homeserver.Base.Lists.{All, All-append}
use nixos_homeserver.Base.Splitting.{Lacks, split-Lacks}
use nixos_homeserver.Compose.Path.{initial_slashes, climb, push_component, push_all, components}

-- A component that names an entry of a directory.
abbrev pub Proper : Text → Type 0
Proper comp = (comp ≢ []) × (comp ≢ codes ".") × (comp ≢ codes "..") × Lacks b'/' comp

climb-Proper : (kept : List Text) → All Proper kept → All Proper (climb true kept)
unfolding climb
climb-Proper [] h = tt
climb-Proper (last ∷ kept) (p, h) = rw (if_neg _ p.2) h

push_component-Proper :
    (kept : List Text) (comp : Text)
    → Lacks b'/' comp
    → All Proper kept
    → All Proper (push_component true kept comp)
unfolding push_component
push_component-Proper kept comp l h = ground (arith, climb-Proper kept h)

push_all-Proper :
    (kept comps : List Text)
    → All (Lacks b'/') comps
    → All Proper kept
    → All Proper (push_all true kept comps)
unfolding push_all
push_all-Proper kept [] l h = h
push_all-Proper kept (c ∷ cs) (l, ls) h =
    push_all-Proper (push_component true kept c) cs ls (push_component-Proper kept c l h)

All-reverse : (xs : List Text) → All Proper xs → All Proper (reverse xs)
All-reverse [] h = tt
All-reverse (x ∷ xs) (p, h) =
    rw reverse-cons (All-append Proper (reverse xs) (x ∷ []) (All-reverse xs h) (p, tt))

-- A rooted path has proper components only: no empty one, no `.` and no `..`.
pub components-Proper : (path : Text) → initial_slashes path ≢ [] → All Proper (components path)
unfolding components
components-Proper path h =
    rw (if_neg _ h)
      (All-reverse _ (push_all-Proper [] (split path b'/') (split-Lacks path b'/') tt))
