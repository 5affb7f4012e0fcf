-- ===== src/Issues/Rewriting/Alike.antt =====
-- What a rewritten bracket cannot change: whether a reference begins earlier in the body.
use nixos_homeserver.Base.{
  ℕ, Bool, true, false, ◌&&◌, none, some, [], ◌∷◌, ltb, ◌==◌, list_eq, nat_eq, Text, ◌≡◌, refl, ap,
  inl, inr, ◌⊎◌, Bool-cases,
}
use nixos_homeserver.Base.Lists.{length}
use nixos_homeserver.Issues.Tickets.{span, id_at, closing, reference_at}

-- Two texts that are equal up to a first bracket, which the second one may have as a `#`
pub data Alike : Text → Text → Type 0 where
  both_end : Alike [] []
  opens : (s t : Text) → Alike (b'[' ∷ s) (b'[' ∷ t)
  replaces : (s t : Text) → Alike (b'[' ∷ s) (b'#' ∷ t)
  equal_char : (c : ℕ) (s t : Text) → Alike s t → Alike (c ∷ s) (c ∷ t)

and_false : (b : Bool) → (b && false) ≡ false
and_false true = refl
and_false false = refl

module _ (digit : ℕ → Bool) (no_bracket : digit b'[' ≡ false) (no_hash : digit b'#' ≡ false) where
  span-Alike :
      {s t : Text}
      → Alike s t
      → ((span digit t).0 ≡ (span digit s).0) × Alike (span digit s).1 (span digit t).1
  unfolding span
  span-Alike both_end = (refl, both_end)
  span-Alike (opens s t) = rw no_bracket (refl, opens s t)
  span-Alike (replaces s t) = rw (no_bracket, no_hash) (refl, replaces s t)
  span-Alike (equal_char c s t a) = elim (Bool-cases (digit c)) [
    | inl yes_digit ↦ rw yes_digit (let (e, b) = span-Alike a in (ap (λ l. c ∷ l) e, b))
    | inr no_digit ↦ rw no_digit (refl, equal_char c s t a)
  ]

  -- What both texts have at their start: no id, or one id
  SameId : Text → Text → Type 0
  SameId s t =
      ((id_at digit s ≡ none) × (id_at digit t ≡ none))
      ⊎ ((id : Text) × (r : Text) × (q : Text) × (id_at digit s ≡ some (id, r))
          × (id_at digit t ≡ some (id, q))
          × Alike r q)

  same_id : (c d : ℕ) {s t : Text} → Alike s t → SameId (c ∷ d ∷ s) (c ∷ d ∷ t)
  unfolding id_at SameId
  same_id c d {s} {t} a =
      let (e, b) = span-Alike a in
      elim (Bool-cases (digit c && d == b'.' && ltb 0 (length (span digit s).0))) [
        | inl yes_id ↦ inr (
          c ∷ d ∷ (span digit s).0,
          (span digit s).1,
          (span digit t).1,
          rw yes_id refl,
          rw (e, yes_id) refl,
          b,
        )
        | inr no_id ↦ inl (rw no_id refl, rw (e, no_id) refl)
      ]

  not_id : (c d : ℕ) (s : Text) → (digit c && d == b'.') ≡ false → id_at digit (c ∷ d ∷ s) ≡ none
  unfolding id_at
  not_id c d s h = rw h refl

  id_at-Alike : {s t : Text} → Alike s t → SameId s t
  unfolding SameId id_at nat_eq
  id_at-Alike both_end = inl (refl, refl)
  id_at-Alike (opens [] []) = inl (refl, refl)
  id_at-Alike (opens [] (d ∷ t)) = inl (refl, not_id _ d t (rw no_bracket refl))
  id_at-Alike (opens (d ∷ s) []) = inl (not_id _ d s (rw no_bracket refl), refl)
  id_at-Alike (opens (c ∷ s) (d ∷ t)) =
      inl (not_id _ c s (rw no_bracket refl), not_id _ d t (rw no_bracket refl))
  id_at-Alike (replaces [] []) = inl (refl, refl)
  id_at-Alike (replaces [] (d ∷ t)) = inl (refl, not_id _ d t (rw no_hash refl))
  id_at-Alike (replaces (d ∷ s) []) = inl (not_id _ d s (rw no_bracket refl), refl)
  id_at-Alike (replaces (c ∷ s) (d ∷ t)) =
      inl (not_id _ c s (rw no_bracket refl), not_id _ d t (rw no_hash refl))
  id_at-Alike (equal_char c [] [] both_end) = inl (refl, refl)
  id_at-Alike (equal_char c _ _ (opens s t)) =
      inl (not_id c b'[' s (and_false (digit c)), not_id c b'[' t (and_false (digit c)))
  id_at-Alike (equal_char c _ _ (replaces s t)) =
      inl (not_id c b'[' s (and_false (digit c)), not_id c b'#' t (and_false (digit c)))
  id_at-Alike (equal_char c _ _ (equal_char d s t a)) = same_id c d a

  closing-Alike : (id : Text) {s t : Text} → Alike s t → closing id t ≡ closing id s
  unfolding closing nat_eq
  closing-Alike id both_end = refl
  closing-Alike id (opens s t) = refl
  closing-Alike id (replaces s t) = refl
  closing-Alike id (equal_char c s t a) = refl

  pub reference_at-Alike :
      (c : ℕ) {s t : Text} → Alike s t → reference_at digit (c ∷ t) ≡ reference_at digit (c ∷ s)
  unfolding reference_at SameId
  reference_at-Alike c a = elim (id_at-Alike a) [
    | inl (e, f) ↦ rw (e, f, reference_at) refl
    | inr (id, r, q, e, f, b) ↦ rw (e, f, reference_at, closing-Alike id b) refl
  ]
