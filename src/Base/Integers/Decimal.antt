-- ===== src/Base/Integers/Decimal.antt =====
-- `int(str(n))` is `n`, and what the digits of `str(n)` are not.
use Prim.Native.Nat.{ℕ, zero, suc, ◌+◌, ◌-◌, ◌*◌, ◌/◌, ◌%◌, ◌<◌}
use mathlib.Core.Path.{◌≡◌, refl, sym, ap, ◌∙◌}
use mathlib.Core.Logic.{◌≢◌, inl, inr}
use mathlib.Core.Bool.{Bool, true, false}
use mathlib.Core.List.{[], ◌∷◌, ◌++◌, append_assoc, append-nil}
use native.Mathlib.Omega.{arith}
use nixos_homeserver.Base.Branching.{ltb, Bool-cases}
use nixos_homeserver.Base.Equality.{nat_eq, list_eq}
use nixos_homeserver.Base.Exceptions.{ok, ◌>>=◌}
use nixos_homeserver.Base.Texts.{Text, show, digits_fuel}
use nixos_homeserver.Base.Lists.{All, All-append}
use nixos_homeserver.Base.Splitting.{Lacks}
use nixos_homeserver.Base.Integers.{
  pos, is_digit, lstrip_space, rstrip_space, scan_digits, signed, int,
}

abbrev pub Digit : ℕ → Type 0
Digit c = is_digit c ≡ true

digits_fuel-Digit : (fuel n : ℕ) → All Digit (digits_fuel fuel n)
unfolding digits_fuel is_digit
digits_fuel-Digit zero n = tt
digits_fuel-Digit (suc fuel) n = elim (Bool-cases (ltb n 10)) [
  | inl small ↦ rw small (ground arith, tt)
  | inr large ↦ rw large (
      All-append Digit (digits_fuel fuel (n / 10)) ((b'0' + n % 10) ∷ [])
        (digits_fuel-Digit fuel (n / 10)) (ground arith, tt))
]

pub show-Digit : (n : ℕ) → All Digit (show n)
unfolding show
show-Digit n = digits_fuel-Digit (suc n) n

digits_fuel-ne-nil : (fuel n : ℕ) → digits_fuel (suc fuel) n ≢ []
unfolding digits_fuel
digits_fuel-ne-nil fuel n = elim (Bool-cases (ltb n 10)) [
  | inl small ↦ rw small (λ e. cc)
  | inr large ↦ rw large (last_ne_nil (digits_fuel fuel (n / 10)))
]
  where
    last_ne_nil : (s : Text) → s ++ (b'0' + n % 10) ∷ [] ≢ []
    last_ne_nil [] = λ e. cc
    last_ne_nil (c ∷ s) = λ e. cc

pub show-ne-nil : (n : ℕ) → show n ≢ []
unfolding show
show-ne-nil n = digits_fuel-ne-nil n n

-- A character that is no digit does not occur.
pub Digit-Lacks : (c : ℕ) (s : Text) → is_digit c ≡ false → All Digit s → Lacks c s
Digit-Lacks c [] n h = tt
Digit-Lacks c (d ∷ s) n (p, h) = ((λ e. ground arith), Digit-Lacks c s n h)

scan_digits_one :
    (n c : ℕ) (last : Bool) (s : Text)
    → Digit c
    → scan_digits n last (c ∷ s) ≡ scan_digits (n * 10 + (c - b'0')) true s
unfolding scan_digits
scan_digits_one n c true s h = rw h
scan_digits_one n c false s h = rw h

scan_digits-digits_fuel :
    (fuel n : ℕ) (last : Bool) (s : Text)
    → n < fuel
    → scan_digits 0 last (digits_fuel fuel n ++ s) ≡ scan_digits n true s
unfolding digits_fuel
scan_digits-digits_fuel zero n last s h = elim h [ ]
scan_digits-digits_fuel (suc fuel) n last s h = elim (Bool-cases (ltb n 10)) [
  | inl small ↦ rw small (
      scan_digits_one 0 (b'0' + n) last s (unfold is_digit in ground arith)
      ∙ ap (λ k. scan_digits k true s) (omega arith))
  | inr large ↦
      rw (large, append_assoc, scan_digits-digits_fuel fuel (n / 10) last _ (ground arith))
        (scan_digits_one (n / 10) (b'0' + n % 10) true s (unfold is_digit in ground arith)
          ∙ ap (λ k. scan_digits k true s) (omega arith))
]

lstrip_space-Digit : (s : Text) → All Digit s → lstrip_space s ≡ s
unfolding lstrip_space is_digit
lstrip_space-Digit [] h = refl
lstrip_space-Digit (c ∷ s) (p, h) = ground arith

rstrip_space-Digit : (s : Text) → All Digit s → rstrip_space s ≡ s
unfolding rstrip_space is_digit
rstrip_space-Digit [] h = refl
rstrip_space-Digit (c ∷ s) (p, h) = ground (arith, rstrip_space-Digit s h)

signed-Digit :
    (s : Text) → s ≢ [] → All Digit s → signed s ≡ (scan_digits 0 false s >>= λ n. ok (pos n))
unfolding signed is_digit
signed-Digit [] n h = absurd (n refl)
signed-Digit (c ∷ s) n (p, h) = ground arith

scan_digits-show : (n : ℕ) → scan_digits 0 false (show n) ≡ ok n
unfolding show
scan_digits-show n =
    ap (scan_digits 0 false) (sym (append-nil (digits_fuel (suc n) n)))
    ∙ scan_digits-digits_fuel (suc n) n false [] (omega arith)
    ∙ (unfold scan_digits in refl)

-- Python's `int(str(n))` is `n` again.
pub int-show : (n : ℕ) → int (show n) ≡ ok (pos n)
unfolding int
int-show n =
    rw
      (
        rstrip_space-Digit (show n) (show-Digit n),
        lstrip_space-Digit (show n) (show-Digit n),
        signed-Digit (show n) (show-ne-nil n) (show-Digit n),
      )
      (ap (λ r. r >>= λ k. ok (pos k)) (scan_digits-show n))
