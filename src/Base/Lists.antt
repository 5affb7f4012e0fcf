-- ===== src/Base/Lists.antt =====
-- Sequences measured by native numbers, sets as lists, and predicates on sequences.
use Prim.Native.Nat.{ℕ, zero, suc, ◌≤◌}
use mathlib.Core.Path.{◌≡◌, refl}
use mathlib.Core.Logic.{◌⊎◌, inl, inr}
use mathlib.Core.Bool.{Bool, true, false, ◌&&◌, ◌||◌}
use mathlib.Core.List.{List, [], ◌∷◌, ◌++◌}
use native.Mathlib.Omega.{arith}
use nixos_homeserver.Base.Branching.{if◌then◌else◌, Bool-cases}
use nixos_homeserver.Base.Equality.{Eq, contains}

module _ {ℓ} {A : Type ℓ} where
  abbrev pub length : List A → ℕ
  length [] = 0
  length (x ∷ xs) = suc (length xs)

  abbrev pub take : ℕ → List A → List A
  take zero xs = []
  take (suc n) [] = []
  take (suc n) (x ∷ xs) = x ∷ take n xs

  abbrev pub drop : ℕ → List A → List A
  drop zero xs = xs
  drop (suc n) [] = []
  drop (suc n) (x ∷ xs) = drop n xs

  -- `any(test(x) for x in xs)`, `all(…)`
  abbrev pub any : (A → Bool) → List A → Bool
  any test [] = false
  any test (x ∷ xs) = test x || any test xs

  abbrev pub all : (A → Bool) → List A → Bool
  all test [] = true
  all test (x ∷ xs) = test x && all test xs

  -- `[x for x in xs if test(x)]`
  unfoldable pub select : (A → Bool) → List A → List A
  select test [] = []
  select test (x ∷ xs) = let rest = select test xs in if test x then x ∷ rest else rest

-- What holds of every member of a sequence.
abbrev pub All {ℓ κ} : {A : Type ℓ} → (A → Type κ) → List A → Type κ
All P [] = Unit
All P (x ∷ xs) = P x × All P xs

-- What holds of some member.
abbrev pub Any {ℓ} : {A : Type ℓ} → (A → Type 0) → List A → Type 0
Any P [] = ⊥
Any P (x ∷ xs) = P x ⊎ Any P xs

module _ {ℓ κ} {A : Type ℓ} (P : A → Type κ) where
  pub All-append : (xs ys : List A) → All P xs → All P ys → All P (xs ++ ys)
  All-append [] ys h k = k
  All-append (x ∷ xs) ys (p, h) k = (p, All-append xs ys h k)

  pub All-append_left : (xs ys : List A) → All P (xs ++ ys) → All P xs
  All-append_left [] ys h = tt
  All-append_left (x ∷ xs) ys (p, h) = (p, All-append_left xs ys h)

  pub All-append_right : (xs ys : List A) → All P (xs ++ ys) → All P ys
  All-append_right [] ys h = h
  All-append_right (x ∷ xs) ys (p, h) = All-append_right xs ys h

module _ {ℓ} {A : Type ℓ} where
  pub length-take : (n : ℕ) (xs : List A) → length (take n xs) ≤ n
  length-take zero xs = ground arith
  length-take (suc n) [] = ground arith
  length-take (suc n) (x ∷ xs) = ground (arith, length-take n xs)

  pub append-eq-nil : (xs ys : List A) → xs ++ ys ≡ [] → (xs ≡ []) × (ys ≡ [])
  append-eq-nil [] ys h = (refl, h)
  append-eq-nil (x ∷ xs) ys h = cc

  pub select-eq-nil :
      (test : A → Bool) (xs : List A) → select test xs ≡ [] → All (λ x. test x ≡ false) xs
  unfolding select
  select-eq-nil test [] h = tt
  select-eq-nil test (x ∷ xs) h = elim (Bool-cases (test x)) [
    | inl t ↦ absurd (cons_absurd (rw t at h))
    | inr f ↦ (f, select-eq-nil test xs (rw f at h))
  ]
    where
      cons_absurd : {y : A} {ys : List A} → y ∷ ys ≡ [] → ⊥
      cons_absurd e = cc

  pub select-nil_of_All :
      (test : A → Bool) (xs : List A) → All (λ x. test x ≡ false) xs → select test xs ≡ []
  unfolding select
  select-nil_of_All test [] h = refl
  select-nil_of_All test (x ∷ xs) (f, h) = rw (f, select-nil_of_All test xs h)

module _ {ℓ} {A : Type ℓ} ⦃e : Eq A⦄ where
  -- `set(xs) <= set(ys)`
  unfoldable pub subset : List A → List A → Bool
  subset xs ys = all (λ x. contains ys x) xs

  -- `set(xs) == set(ys)`
  unfoldable pub same_set : List A → List A → Bool
  unfolding subset
  same_set xs ys = subset xs ys && subset ys xs

  -- `set(xs) - set(ys)`, in the order of `xs`
  unfoldable pub difference : List A → List A → List A
  unfolding select
  difference xs ys = select (λ x. if contains ys x then false else true) xs

  -- `set(xs) | set(ys)`: the members of `xs`, then those that only `ys` has
  unfoldable pub union : List A → List A → List A
  unfolding difference
  union xs ys = xs ++ difference ys xs

  pub contains-append :
      (xs ys : List A) (a : A) → contains (xs ++ ys) a ≡ (contains xs a || contains ys a)
  contains-append [] ys a = refl
  contains-append (x ∷ xs) ys a = ground (arith, contains-append xs ys a)

  pub contains-select :
      (test : A → Bool) (xs : List A) (a : A)
      → contains (select test xs) a ≡ (contains xs a && test a)
  unfolding select
  contains-select test [] a = refl
  contains-select test (x ∷ xs) a = elim (e.dec a x) [
    | yes p ↦ rw p (ground (arith, contains-select test xs x))
    | no n ↦ ground (arith, contains-select test xs a)
  ]

  pub contains-difference :
      (xs ys : List A) (a : A)
      → contains (difference xs ys) a ≡ (contains xs a && (if contains ys a then false else true))
  unfolding difference
  contains-difference xs ys a = contains-select _ xs a

  pub contains-union :
      (xs ys : List A) (a : A) → contains (union xs ys) a ≡ (contains xs a || contains ys a)
  unfolding union
  contains-union xs ys a =
      ground (arith, contains-append xs (difference ys xs) a, contains-difference ys xs a)

  pub all_at :
      (test : A → Bool) (xs : List A) (a : A)
      → all test xs ≡ true
      → contains xs a ≡ true
      → test a ≡ true
  all_at test [] a h m = cc
  all_at test (x ∷ xs) a h m = elim (e.dec a x) [
    | yes p ↦ rw p (ground arith)
    | no n ↦ ground (arith, all_at test xs a)
  ]

  pub All_at {κ} : (P : A → Type κ) (xs : List A) (a : A) → All P xs → contains xs a ≡ true → P a
  All_at P [] a h m = absurd (impossible m)
    where
      impossible : false ≡ true → ⊥
      impossible c = cc
  All_at P (x ∷ xs) a (p, h) m = elim (e.dec a x) [
    | yes q ↦ rw q p
    | no n ↦ All_at P xs a h (ground arith)
  ]

  pub All-from {κ} :
      (P : A → Type κ) (xs : List A) → ((a : A) → contains xs a ≡ true → P a) → All P xs
  All-from P [] h = tt
  All-from P (x ∷ xs) h = (h x (ground arith), All-from P xs (λ a m. h a (ground arith)))

  pub same_set_at : (xs ys : List A) (a : A) → same_set xs ys ≡ true → contains xs a ≡ contains ys a
  unfolding same_set
  same_set_at xs ys a h =
      ground (arith, all_at (λ x. contains ys x) xs a, all_at (λ x. contains xs x) ys a)

  pub all_from :
      (test : A → Bool) (xs : List A)
      → ((a : A) → contains xs a ≡ true → test a ≡ true)
      → all test xs ≡ true
  all_from test [] h = refl
  all_from test (x ∷ xs) h = rw (h x (ground arith), all_from test xs (λ a m. h a (ground arith)))

  pub same_set_from :
      (xs ys : List A) → ((a : A) → contains xs a ≡ contains ys a) → same_set xs ys ≡ true
  unfolding same_set
  same_set_from xs ys h = rw (
    all_from (λ x. contains ys x) xs (λ a m. ground (arith, h a)),
    all_from (λ x. contains xs x) ys (λ a m. ground (arith, h a)),
  )
