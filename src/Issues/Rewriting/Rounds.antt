-- ===== src/Issues/Rewriting/Rounds.antt =====
-- How references are found and rewritten, character by character, in `main` of scripts/file_issues.py.
use nixos_homeserver.Base.{
  ℕ, zero, suc, Bool, true, false, ◌&&◌, none, some, [], ◌∷◌, ◌++◌, ◌==◌, list_eq, nat_eq, contains,
  Text, ◌≡◌, refl, sym, ap, ◌∙◌, ◌≢◌, inl, inr, arith, Bool-cases, ==_iff,
}
use nixos_homeserver.Base.Lists.{length, drop, all}
use nixos_homeserver.Issues.Tickets.{reference_at, references}

-- The references of a text, by its first character
pub references-none :
    (digit : ℕ → Bool) (c : ℕ) (s : Text)
    → reference_at digit (c ∷ s) ≡ none
    → references digit (c ∷ s) ≡ references digit s
unfolding references
references-none digit c s h = rw (h, references) refl

pub references-some :
    (digit : ℕ → Bool) (c : ℕ) (s : Text) {id : Text}
    → reference_at digit (c ∷ s) ≡ some id
    → references digit (c ∷ s) ≡ id ∷ references digit s
unfolding references
references-some digit c s h = rw (h, references) refl

pub reference_at-other :
    (digit : ℕ → Bool) (c : ℕ) (s : Text) → (c == b'[') ≡ false → reference_at digit (c ∷ s) ≡ none
unfolding reference_at
reference_at-other digit c s h = rw (h, reference_at) refl

-- No reference begins in a text without a bracket.
pub references-skip :
    (digit : ℕ → Bool) (p s : Text)
    → contains p b'[' ≡ false
    → references digit (p ++ s) ≡ references digit s
references-skip digit [] s h = refl
references-skip digit (c ∷ p) s h =
    references-none digit c (p ++ s) (reference_at-other digit c (p ++ s) (ground arith))
    ∙ references-skip digit p s (ground arith)

pub drop-append : (p s : Text) (k : ℕ) → k ≡ length p → drop k (p ++ s) ≡ s
drop-append [] s k e = rw e refl
drop-append (c ∷ p) s zero e = absurd (ground arith)
drop-append (c ∷ p) s (suc k) e = drop-append p s k (ground arith)

pub length-closed : (id : Text) → suc (length id) ≡ length (id ++ b']' ∷ [])
length-closed [] = refl
length-closed (d ∷ id) = ap suc (length-closed id)

pub true_is_not_false : true ≢ false
true_is_not_false = λ e. cc

pub digits_only :
    (digit : ℕ → Bool) (s : Text) (c : ℕ)
    → digit c ≡ false
    → all digit s ≡ true
    → contains s c ≡ false
digits_only digit [] c h a = refl
digits_only digit (d ∷ s) c h a = elim (Bool-cases (c == d)) [
  | inl e ↦ absurd (
      true_is_not_false
        (sym (both_left (digit d) (all digit s) a) ∙ (ap digit (sym ((==_iff c d).0 e)) ∙ h)))
  | inr e ↦ rw (e, digits_only digit s c h (later (digit d) (all digit s) a)) refl
]
  where
    later : (p q : Bool) → (p && q) ≡ true → q ≡ true
    later p q e = ground arith

    both_left : (p q : Bool) → (p && q) ≡ true → p ≡ true
    both_left p q e = ground arith
