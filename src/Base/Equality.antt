-- ===== src/Base/Equality.antt =====
-- Python's `==` on values whose equality is decided by their parts, and `in` on a sequence.
use Prim.Native.Nat.{ℕ}
use mathlib.Core.Path.{◌≡◌, refl, ap}
use mathlib.Core.Logic.{◌↔◌, ◌≢◌, ite, dite}
use mathlib.Core.Bool.{Bool, true, false, ◌||◌}
use mathlib.Core.Option.{Option, none, some}
use mathlib.Core.List.{List, [], ◌∷◌}
use native.Mathlib.Decide.{ℕ_discrete}
use native.Mathlib.Omega.{arith}

pub record Eq {ℓ} (A : Type ℓ) : Type ℓ where
  pub dec : Discrete A

module _ {ℓ} {A : Type ℓ} ⦃e : Eq A⦄ where
  infix 50 ◌==◌
  abbrev pub ◌==◌ : A → A → Bool
  a == b = ite (e.dec a b) true false

  abbrev pub contains : List A → A → Bool
  contains [] a = false
  contains (x ∷ xs) a = a == x || contains xs a

instance unfoldable pub nat_eq : Eq ℕ
unfolding ℕ_discrete
nat_eq = record { dec = ℕ_discrete }

module _ {ℓ} {A : Type ℓ} where
  list_dec : Discrete A → Discrete (List A)
  list_dec d [] [] = yes refl
  list_dec d [] (y ∷ ys) = no (λ e. cc)
  list_dec d (x ∷ xs) [] = no (λ e. cc)
  list_dec d (x ∷ xs) (y ∷ ys) =
      dite (d x y)
        (λ p. dite (list_dec d xs ys) (λ q. yes (λ i. p i ∷ q i)) (λ n. no (λ e. n (tails e))))
        (λ n. no (λ e. n (heads e)))
    where
      heads : Path (List A) (x ∷ xs) (y ∷ ys) → x ≡ y
      heads e = cc

      tails : Path (List A) (x ∷ xs) (y ∷ ys) → xs ≡ ys
      tails e = cc

  option_dec : Discrete A → Discrete (Option A)
  option_dec d none none = yes refl
  option_dec d none (some b) = no (λ e. cc)
  option_dec d (some a) none = no (λ e. cc)
  option_dec d (some a) (some b) = dite (d a b) (λ p. yes (ap some p)) (λ n. no (λ e. n (inside e)))
    where
      inside : some a ≡ some b → a ≡ b
      inside e = cc

pair_dec {ℓ κ} : {A : Type ℓ} {B : Type κ} → Discrete A → Discrete B → Discrete (A × B)
pair_dec d e (a, b) (c, f) =
    dite (d a c)
      (λ p. dite (e b f) (λ q. yes (λ i. (p i, q i))) (λ n. no (λ h. n (ap (λ t. t.1) h))))
      (λ n. no (λ h. n (ap (λ t. t.0) h)))

instance unfoldable pub list_eq {ℓ} : {A : Type ℓ} ⦃e : Eq A⦄ → Eq (List A)
unfolding list_dec
list_eq ⦃e⦄ = record { dec = list_dec e.dec }

instance unfoldable pub option_eq {ℓ} : {A : Type ℓ} ⦃e : Eq A⦄ → Eq (Option A)
unfolding option_dec
option_eq ⦃e⦄ = record { dec = option_dec e.dec }

instance unfoldable pub pair_eq {ℓ κ} : {A : Type ℓ} {B : Type κ} ⦃e : Eq A⦄ ⦃f : Eq B⦄ → Eq (A × B)
unfolding pair_dec
pair_eq ⦃e⦄ ⦃f⦄ = record { dec = pair_dec e.dec f.dec }

-- `==` holds of equal values only.
pub ==_iff {ℓ} : {A : Type ℓ} ⦃e : Eq A⦄ (a b : A) → ((a == b) ≡ true) ↔ (a ≡ b)
==_iff a b = ground arith

pub ==_self {ℓ} : {A : Type ℓ} ⦃e : Eq A⦄ (a : A) → (a == a) ≡ true
==_self a = ground arith

pub ==_of_ne {ℓ} : {A : Type ℓ} ⦃e : Eq A⦄ {a b : A} → a ≢ b → (a == b) ≡ false
==_of_ne n = ground arith
