-- ===== src/Base/Sort.antt =====
-- `sorted`, and `set` as a list without repetitions.
use mathlib.Core.Path.{◌≡◌, refl}
use mathlib.Core.Logic.{◌≢◌, ◌↔◌, inl, inr}
use mathlib.Core.Bool.{Bool, true, false, ◌||◌, not}
use mathlib.Core.List.{List, [], ◌∷◌}
use native.Mathlib.Omega.{arith}
use Prim.Native.Nat.{suc}
use nixos_homeserver.Base.Branching.{ltb, if◌then◌else◌, Bool-cases}
use nixos_homeserver.Base.Equality.{Eq, ◌==◌, nat_eq, contains}
use nixos_homeserver.Base.Texts.{Text}
use nixos_homeserver.Base.Integers.{ℤ, leb_ℤ, int_eq}
use nixos_homeserver.Base.Lists.{length, select, contains-select, All}

-- `s <= t`, by code points
unfoldable pub leb_text : Text → Text → Bool
leb_text [] t = true
leb_text (c ∷ s) [] = false
leb_text (c ∷ s) (d ∷ t) = let rest = leb_text s t in if c == d then rest else ltb c d

-- `a <= b` on pairs of a number and a text
unfoldable pub leb_pair : ℤ × Text → ℤ × Text → Bool
unfolding leb_text
leb_pair (m, s) (n, t) = if m == n then leb_text s t else leb_ℤ m n

module _ {ℓ} {A : Type ℓ} (le : A → A → Bool) where
  insert_sorted : A → List A → List A
  insert_sorted a [] = a ∷ []
  insert_sorted a (x ∷ xs) =
      let rest = insert_sorted a xs in if le a x then a ∷ x ∷ xs else x ∷ rest

  unfoldable pub sorted : List A → List A
  unfolding insert_sorted
  sorted [] = []
  sorted (x ∷ xs) = insert_sorted x (sorted xs)

module _ {ℓ} {A : Type ℓ} ⦃e : Eq A⦄ where
  -- `set(xs)`
  unfoldable pub to_set : List A → List A
  unfolding select
  to_set [] = []
  to_set (x ∷ xs) = x ∷ select (λ y. not (y == x)) (to_set xs)

  pub contains-to_set : (xs : List A) (a : A) → contains (to_set xs) a ≡ contains xs a
  unfolding to_set
  contains-to_set [] a = refl
  contains-to_set (x ∷ xs) a =
      ground (arith, contains-select (λ y. not (y == x)) (to_set xs) a, contains-to_set xs a)

  contains-insert_sorted :
      (le : A → A → Bool) (x : A) (xs : List A) (a : A)
      → contains (insert_sorted le x xs) a ≡ (a == x || contains xs a)
  unfolding insert_sorted
  contains-insert_sorted le x [] a = refl
  contains-insert_sorted le x (y ∷ xs) a = ground (arith, contains-insert_sorted le x xs a)

  pub contains-sorted :
      (le : A → A → Bool) (xs : List A) (a : A) → contains (sorted le xs) a ≡ contains xs a
  unfolding sorted
  contains-sorted le [] a = refl
  contains-sorted le (x ∷ xs) a =
      ground (arith, contains-insert_sorted le x (sorted le xs) a, contains-sorted le xs a)

module _ {ℓ} {A : Type ℓ} (le : A → A → Bool) where
  insert_sorted-ne-nil : (x : A) (xs : List A) → insert_sorted le x xs ≢ []
  unfolding insert_sorted
  insert_sorted-ne-nil x [] = λ e. cc
  insert_sorted-ne-nil x (y ∷ xs) = ground arith

  pub sorted-eq-nil : (xs : List A) → (sorted le xs ≡ []) ↔ (xs ≡ [])
  unfolding sorted
  sorted-eq-nil [] = (λ e. refl, λ e. refl)
  sorted-eq-nil (x ∷ xs) = (λ e. absurd (insert_sorted-ne-nil x (sorted le xs) e), λ e. cc)

  length-insert_sorted : (x : A) (xs : List A) → length (insert_sorted le x xs) ≡ suc (length xs)
  unfolding insert_sorted
  length-insert_sorted x [] = refl
  length-insert_sorted x (y ∷ xs) = ground (arith, length-insert_sorted x xs)

  pub length-sorted : (xs : List A) → length (sorted le xs) ≡ length xs
  unfolding sorted
  length-sorted [] = refl
  length-sorted (x ∷ xs) = ground (arith, length-insert_sorted x (sorted le xs), length-sorted xs)

  module _ {κ} (P : A → Type κ) where
    All-insert_sorted : (x : A) (xs : List A) → All P (insert_sorted le x xs) ↔ (P x × All P xs)
    unfolding insert_sorted
    All-insert_sorted x [] = (λ h. h, λ h. h)
    All-insert_sorted x (y ∷ xs) = elim (Bool-cases (le x y)) [
      | inl first ↦ rw first (λ h. h, λ h. h)
      | inr later ↦ rw later (
        λ (p, h). let (q, h') = (All-insert_sorted x xs).0 h in (q, (p, h')),
        λ (q, (p, h')). (p, (All-insert_sorted x xs).1 (q, h')),
      )
    ]

    -- Sorting changes the order only.
    pub All-sorted : (xs : List A) → All P (sorted le xs) ↔ All P xs
    unfolding sorted
    All-sorted [] = (λ h. h, λ h. h)
    All-sorted (x ∷ xs) = (
      λ h. let (p, h') = (All-insert_sorted x (sorted le xs)).0 h in (p, (All-sorted xs).0 h'),
      λ (p, h). (All-insert_sorted x (sorted le xs)).1 (p, (All-sorted xs).1 h),
    )
