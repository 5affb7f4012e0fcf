-- ===== src/Base/Integers.antt =====
-- Python's `int` over the native numbers: order, `str`, `int(text)`, `range`.
-- `int(text)` reads ASCII digits, one underscore between two digits, a sign, and ASCII white space
-- at either end. Digits and white space of other scripts, which Python takes too, are left out.
pub mod Decimal
pub mod Range
use Prim.Native.Nat.{ℕ, zero, suc, ◌+◌, ◌-◌, ◌*◌, ◌≤◌}
use mathlib.Core.Path.{◌≡◌, refl, ap}
use mathlib.Core.Logic.{dite}
use mathlib.Core.Bool.{Bool, true, false, ◌&&◌, ◌||◌}
use mathlib.Core.Option.{Option, none, some}
use mathlib.Core.List.{List, [], ◌∷◌, ◌++◌, map}
use native.Mathlib.Decide.{ℕ_discrete}
use native.Mathlib.Omega.{arith}
use nixos_homeserver.Base.Branching.{ltb, leb, if◌then◌else◌}
use nixos_homeserver.Base.Equality.{Eq, ◌==◌, nat_eq, list_eq}
use nixos_homeserver.Base.Exceptions.{Result, ok, err, value_error, ◌>>=◌}
use nixos_homeserver.Base.Texts.{Text, show}

-- `negsuc n` is -(n + 1).
pub data ℤ : Type 0 where
  pos : ℕ → ℤ
  negsuc : ℕ → ℤ

int_dec : Discrete ℤ
int_dec = hlevel ℕ_discrete

instance unfoldable pub int_eq : Eq ℤ
unfolding int_dec ℕ_discrete
int_eq = record { dec = int_dec }

abbrev pub pos_part : ℤ → ℕ
pos_part (pos n) = n
pos_part (negsuc n) = 0

abbrev pub neg_part : ℤ → ℕ
neg_part (pos n) = 0
neg_part (negsuc n) = suc n

infix 50 ◌≤ℤ◌
abbrev pub ◌≤ℤ◌ : ℤ → ℤ → Type 0
a ≤ℤ b = pos_part a + neg_part b ≤ pos_part b + neg_part a

-- `a <= b`
abbrev pub leb_ℤ : ℤ → ℤ → Bool
leb_ℤ a b = leb (pos_part a + neg_part b) (pos_part b + neg_part a)

-- `str(n)`
unfoldable pub show_int : ℤ → Text
show_int (pos n) = show n
show_int (negsuc n) = b'-' ∷ show (suc n)

is_space : ℕ → Bool
is_space c = c == b' ' || (leb 9 c && leb c 13) || (leb 28 c && leb c 31)

lstrip_space : Text → Text
unfolding is_space
lstrip_space [] = []
lstrip_space (c ∷ s) = let rest = lstrip_space s in if is_space c then rest else c ∷ s

rstrip_space : Text → Text
unfolding is_space
rstrip_space [] = []
rstrip_space (c ∷ s) =
    let rest = rstrip_space s in if is_space c && rest == [] then [] else c ∷ rest

unfoldable pub is_digit : ℕ → Bool
is_digit c = leb b'0' c && leb c b'9'

-- The number read so far, and whether the last character was a digit.
scan_digits : ℕ → Bool → Text → Result ℕ
unfolding is_digit
scan_digits n true [] = ok n
scan_digits n false [] = err value_error
scan_digits n last (c ∷ s) =
    let next = scan_digits (if is_digit c then n * 10 + (c - b'0') else n) (is_digit c) s in
    if is_digit c || (c == b'_' && last) then next else err value_error

unfoldable pub negate : ℕ → ℤ
negate zero = pos zero
negate (suc n) = negsuc n

signed : Text → Result ℤ
unfolding scan_digits negate
signed [] = err value_error
signed (c ∷ s) =
    if c == b'-'
    then scan_digits 0 false s >>= (λ n. ok (negate n))
    else if c == b'+'
    then scan_digits 0 false s >>= (λ n. ok (pos n))
    else scan_digits 0 false (c ∷ s) >>= (λ n. ok (pos n))

-- `int(text)`
unfoldable pub int : Text → Result ℤ
unfolding lstrip_space rstrip_space signed
int s = signed (lstrip_space (rstrip_space s))

next_int : ℤ → ℤ
next_int (pos n) = pos (suc n)
next_int (negsuc zero) = pos zero
next_int (negsuc (suc n)) = negsuc n

count_up : ℤ → ℕ → List ℤ
unfolding next_int
count_up a zero = []
count_up a (suc n) = a ∷ count_up (next_int a) n

-- `list(range(a, b + 1))`
unfoldable pub range_to : ℤ → ℤ → List ℤ
unfolding count_up
range_to a b = count_up a ((pos_part b + neg_part a + 1) - (pos_part a + neg_part b))
