-- ===== src/Base/Integers/Range.antt =====
-- `range(a, b + 1)` holds the integers from `a` to `b`.
use Prim.Native.Nat.{ℕ, zero, suc, ◌+◌, ◌-◌, ◌<◌}
use mathlib.Core.Path.{◌≡◌}
use mathlib.Core.Logic.{◌↔◌, ◌≢◌}
use mathlib.Core.Bool.{true}
use native.Mathlib.Omega.{arith}
use nixos_homeserver.Base.Equality.{nat_eq, contains}
use nixos_homeserver.Base.Integers.{
  ℤ, pos, negsuc, int_eq, pos_part, neg_part, ◌≤ℤ◌, next_int, count_up, range_to,
}

eq_of_parts : (a b : ℤ) → pos_part a + neg_part b ≡ pos_part b + neg_part a → a ≡ b
eq_of_parts a b h = ground arith

next_parts : (a : ℤ) → pos_part (next_int a) + neg_part a ≡ neg_part (next_int a) + pos_part a + 1
unfolding next_int
next_parts (pos n) = omega arith
next_parts (negsuc zero) = omega arith
next_parts (negsuc (suc n)) = omega arith

-- The `n` integers from `a` on.
contains-count_up :
    (n : ℕ) (a p : ℤ)
    → (contains (count_up a n) p ≡ true)
      ↔ ((a ≤ℤ p) × (pos_part p + neg_part a < pos_part a + neg_part p + n))
unfolding count_up
contains-count_up zero a p = ((λ h. cc), λ (l, u). absurd (omega arith))
contains-count_up (suc n) a p = elim (int_eq.dec p a) [
  | yes e ↦ rw e ((λ h. (omega arith, omega arith)), λ h. ground arith)
  | no ne ↦
      let ih = contains-count_up n (next_int a) p in
      let step = next_parts a in
      let apart : pos_part p + neg_part a ≢ pos_part a + neg_part p =
        λ q. ne (eq_of_parts p a (omega arith)) in
      (
        λ h. let (l, u) = ih.0 (ground arith) in (omega arith, omega arith),
        λ (l, u).
            let later : contains (count_up (next_int a) n) p ≡ true =
              ih.1 (omega arith, omega arith) in
            ground arith,
      )
]

pub contains-range_to : (a b p : ℤ) → (contains (range_to a b) p ≡ true) ↔ ((a ≤ℤ p) × (p ≤ℤ b))
unfolding range_to
contains-range_to a b p =
    let n = (pos_part b + neg_part a + 1) - (pos_part a + neg_part b) in
    let counted = contains-count_up n a p in
    (λ h. let (l, u) = counted.0 h in (l, omega arith), λ (l, u). counted.1 (l, omega arith))
