-- ===== src/Base/Texts/Lines.antt =====
-- `s.strip()` and `s.splitlines()`.
use Prim.Native.Nat.{ℕ}
use mathlib.Core.Bool.{Bool, false, ◌&&◌, ◌||◌}
use mathlib.Core.List.{List, [], ◌∷◌}
use nixos_homeserver.Base.Branching.{leb, if◌then◌else◌}
use nixos_homeserver.Base.Equality.{◌==◌, nat_eq, list_eq, contains}
use nixos_homeserver.Base.Texts.{Text, cons_head}

-- White space, and the characters at which a line ends
white : ℕ → Bool
white c =
    (leb 9 c && leb c 13)
    || (leb 28 c && leb c 32)
    || (leb 8192 c && leb c 8202)
    || contains (133 ∷ 160 ∷ 5760 ∷ 8232 ∷ 8233 ∷ 8239 ∷ 8287 ∷ 12288 ∷ []) c

breaks : ℕ → Bool
breaks c = (leb 10 c && leb c 13) || (leb 28 c && leb c 30) || contains (133 ∷ 8232 ∷ 8233 ∷ []) c

lstrip : Text → Text
unfolding white
lstrip [] = []
lstrip (c ∷ s) = let rest = lstrip s in if white c then rest else c ∷ s

rstrip_white : Text → Text
unfolding white
rstrip_white [] = []
rstrip_white (c ∷ s) = let rest = rstrip_white s in if white c && rest == [] then [] else c ∷ rest

unfoldable pub strip : Text → Text
unfolding lstrip rstrip_white
strip s = lstrip (rstrip_white s)

starts_with_newline : Text → Bool
starts_with_newline [] = false
starts_with_newline (c ∷ s) = c == 10

-- A carriage return before a newline ends no line of its own.
unfoldable pub splitlines : Text → List Text
unfolding breaks starts_with_newline
splitlines [] = []
splitlines (c ∷ s) =
    let rest = splitlines s in
    if c == 13 && starts_with_newline s
    then rest
    else if breaks c
    then [] ∷ rest
    else cons_head c rest
