-- ===== src/Base/Texts.antt =====
-- Python's `str` as the list of its code points, and the methods that the programs call.
pub mod Lines
use Prim.Native.Nat.{ℕ, zero, suc, ◌+◌, ◌/◌, ◌%◌}
use Prim.Native.Char.{code}
use Prim.Native.String.{String}
use mathlib.Core.Bool.{Bool, true, false, ◌&&◌}
use mathlib.Core.List.{List, [], ◌∷◌, ◌++◌}
use nixos_homeserver.Base.Branching.{ltb, if◌then◌else◌}
use nixos_homeserver.Base.Equality.{◌==◌, nat_eq, list_eq}

abbrev pub Text : Type 0
Text = List ℕ

-- The text that a literal of the source denotes.
unfoldable pub codes : String → Text
codes String.[] = []
codes (String.◌∷◌ c s) = code c ∷ codes s

-- `s.startswith(prefix)`
unfoldable pub starts_with : Text → Text → Bool
starts_with s [] = true
starts_with [] (p ∷ prefix) = false
starts_with (c ∷ s) (p ∷ prefix) = c == p && starts_with s prefix

-- `s[len(prefix):]`
unfoldable pub drop_prefix : Text → Text → Text
drop_prefix s [] = s
drop_prefix [] (p ∷ prefix) = []
drop_prefix (c ∷ s) (p ∷ prefix) = drop_prefix s prefix

-- `s.partition(sep)` without its middle part: what stands before the first `sep`, and what stands
-- behind it (nothing if there is no `sep`).
unfoldable pub partition : Text → Text → Text × Text
unfolding starts_with drop_prefix
partition [] sep = ([], [])
partition (c ∷ s) sep =
    let rest = partition s sep in
    if starts_with (c ∷ s) sep then ([], drop_prefix (c ∷ s) sep) else (c ∷ rest.0, rest.1)

abbrev pub cons_head : ℕ → List Text → List Text
cons_head c [] = (c ∷ []) ∷ []
cons_head c (p ∷ ps) = (c ∷ p) ∷ ps

-- `s.split(sep)` for a separator of one character
unfoldable pub split : Text → ℕ → List Text
split [] sep = [] ∷ []
split (c ∷ s) sep = let rest = split s sep in if c == sep then [] ∷ rest else cons_head c rest

-- `sep.join(parts)`
unfoldable pub join : Text → List Text → Text
join sep [] = []
join sep (p ∷ []) = p
join sep (p ∷ q ∷ ps) = p ++ (sep ++ join sep (q ∷ ps))

-- `s.rstrip(c)` for one character
unfoldable pub rstrip : Text → ℕ → Text
rstrip [] c = []
rstrip (d ∷ s) c = let rest = rstrip s c in if d == c && rest == [] then [] else d ∷ rest

unfoldable pub digits_fuel : ℕ → ℕ → Text
digits_fuel zero n = []
digits_fuel (suc fuel) n =
    let rest = digits_fuel fuel (n / 10) in
    if ltb n 10 then (b'0' + n) ∷ [] else rest ++ (b'0' + n % 10) ∷ []

-- `str(n)` of a number that is not negative. Fewer than `n + 1` digits are written.
unfoldable pub show : ℕ → Text
unfolding digits_fuel
show n = digits_fuel (suc n) n
