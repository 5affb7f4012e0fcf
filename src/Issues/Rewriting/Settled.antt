-- ===== src/Issues/Rewriting/Settled.antt =====
-- The references that are left in a body after `main` of scripts/file_issues.py has rewritten it.
use nixos_homeserver.Base.{
  ℕ, zero, suc, Bool, true, false, none, some, [], ◌∷◌, ◌++◌, ◌==◌, list_eq, nat_eq, contains, Text,
  ◌≡◌, refl, sym, ap, ap₂, subst, ◌∙◌, inl, inr, Option-cases, ==_of_ne, append_assoc,
}
use nixos_homeserver.Base.Lists.{length, drop, All}
use nixos_homeserver.Base.Dict.{Dict, lookup}
use nixos_homeserver.Base.Value.{Value, str_of}
use nixos_homeserver.Issues.Tickets.{reference_at, references}
use nixos_homeserver.Issues.Rewriting.{replacement, rewritten_from, rewritten}
use nixos_homeserver.Issues.Rewriting.Alike.{
  Alike, both_end, opens, replaces, equal_char, reference_at-Alike,
}
use nixos_homeserver.Issues.Rewriting.Match.{Match, reference_at-Match, Match-reference_at}
use nixos_homeserver.Issues.Rewriting.Rounds.{
  digits_only, drop-append, length-closed, reference_at-other, references-none, references-skip,
  references-some, true_is_not_false,
}

module _ (digit : ℕ → Bool) (nums : Dict Text Value) where
  rewritten_from-none :
      (c : ℕ) (s : Text)
      → reference_at digit (c ∷ s) ≡ none
      → rewritten_from digit nums 0 (c ∷ s) ≡ c ∷ rewritten_from digit nums 0 s
  unfolding rewritten_from
  rewritten_from-none c s h = rw (h, rewritten_from) refl

  rewritten_from-some :
      (c : ℕ) (s : Text) {id : Text}
      → reference_at digit (c ∷ s) ≡ some id
      → rewritten_from digit nums 0 (c ∷ s)
        ≡ replacement digit nums id ++ rewritten_from digit nums (suc (length id)) s
  unfolding rewritten_from
  rewritten_from-some c s h = rw (h, rewritten_from) refl

  replacement-some :
      (id : Text) {number : Value}
      → lookup id nums ≡ some number
      → replacement digit nums id ≡ b'#' ∷ str_of number
  unfolding replacement
  replacement-some id h = rw (h, replacement) refl

  replacement-none :
      (id : Text) → lookup id nums ≡ none → replacement digit nums id ≡ b'[' ∷ (id ++ b']' ∷ [])
  unfolding replacement
  replacement-none id h = rw (h, replacement) refl

  behind_bracket : {c : ℕ} {s t : Text} → c ∷ s ≡ b'[' ∷ t → (c ≡ b'[') × (s ≡ t)
  behind_bracket e = (cc, cc)

  rewritten-Alike : (s : Text) → Alike s (rewritten_from digit nums 0 s)
  unfolding rewritten_from
  rewritten-Alike [] = both_end
  rewritten-Alike (c ∷ s) = elim (Option-cases (reference_at digit (c ∷ s))) [
    | inl h ↦
        subst (Alike (c ∷ s)) (sym (rewritten_from-none c s h))
          (equal_char c _ _ (rewritten-Alike s))
    | inr (id, h) ↦
        let (bracket, tail) = behind_bracket (reference_at-Match digit (c ∷ s) h).text_is in
        subst (λ l. Alike l (rewritten_from digit nums 0 (c ∷ s))) (ap (λ d. d ∷ s) (sym bracket))
          (subst (Alike (b'[' ∷ s)) (sym (rewritten_from-some c s h)) (start id s _))
  ]
    where
      start : (id s t : Text) → Alike (b'[' ∷ s) (replacement digit nums id ++ t)
      start id s t = elim (Option-cases (lookup id nums)) [
        | inl h ↦ rw (replacement-none id h) (opens s _)
        | inr (number, h) ↦ rw (replacement-some id h) (replaces s _)
      ]

  abbrev pub Settled : Text → Type 0
  Settled s = All (λ id. lookup id nums ≡ none) (references digit s)

  Settled-tail : (c : ℕ) (s : Text) → Settled (c ∷ s) → Settled s
  Settled-tail c s settled = elim (Option-cases (reference_at digit (c ∷ s))) [
    | inl h ↦ subst (All _) (references-none digit c s h) settled
    | inr (id, h) ↦ (subst (All _) (references-some digit c s h) settled).1
  ]

  -- A body without a reference to a ticket stays as it is.
  pub Settled-rewritten_from :
      (k : ℕ) (s : Text) → Settled s → rewritten_from digit nums k s ≡ drop k s
  unfolding rewritten_from
  Settled-rewritten_from zero [] settled = refl
  Settled-rewritten_from (suc k) [] settled = refl
  Settled-rewritten_from (suc k) (c ∷ s) settled =
      Settled-rewritten_from k s (Settled-tail c s settled)
  Settled-rewritten_from zero (c ∷ s) settled = elim (Option-cases (reference_at digit (c ∷ s))) [
    | inl h ↦
        rewritten_from-none c s h
        ∙ ap (λ l. c ∷ l) (Settled-rewritten_from 0 s (Settled-tail c s settled))
    | inr (id, h) ↦
        let m = reference_at-Match digit (c ∷ s) h in
        let unknown = (subst (All _) (references-some digit c s h) settled).0 in
        rewritten_from-some c s h
        ∙ (ap₂ (λ a b. a ++ b) (replacement-none id unknown)
              (Settled-rewritten_from (suc (length id)) s (Settled-tail c s settled)
                ∙ behind id s m)
            ∙ (ap (λ l. b'[' ∷ l) (append_assoc id (b']' ∷ []) m.rest) ∙ sym m.text_is))
  ]
    where
      behind : (id s : Text) (m : Match digit id (c ∷ s)) → drop (suc (length id)) s ≡ m.rest
      behind id s m =
          ap (drop (suc (length id)))
            ((behind_bracket m.text_is).1 ∙ sym (append_assoc id (b']' ∷ []) m.rest))
          ∙ drop-append (id ++ b']' ∷ []) m.rest (suc (length id)) (length-closed id)

module _ (digit : ℕ → Bool) (no_bracket : digit b'[' ≡ false) (no_hash : digit b'#' ≡ false)
    (no_close : digit b']' ≡ false) (nums : Dict Text Value)
    (plain : (id : Text) (number : Value)
      → lookup id nums ≡ some number
      → contains (str_of number) b'[' ≡ false) where
  id_plain : (id s : Text) → Match digit id s → contains id b'[' ≡ false
  unfolding nat_eq
  id_plain id s m =
      rw
        (
          m.id_is,
          digits_only digit m.minor b'[' no_bracket m.minor_digits,
          other m.major m.major_digit,
        )
        refl
    where
      other : (c : ℕ) → digit c ≡ true → (b'[' == c) ≡ false
      other c h = ==_of_ne (λ e. true_is_not_false (sym (ap digit e ∙ h) ∙ no_bracket))

  -- What is put for a match leaves no reference to a ticket, if what follows leaves none.
  replacement-Settled :
      (id s t : Text)
      → Match digit id s
      → Settled digit nums t
      → Settled digit nums (replacement digit nums id ++ t)
  unfolding nat_eq
  replacement-Settled id s t m settled = elim (Option-cases (lookup id nums)) [
    | inr (number, h) ↦
        rw
          (
            replacement-some digit nums id h,
            references-none digit b'#' (str_of number ++ t) (reference_at-other digit b'#' _ refl),
            references-skip digit (str_of number) t (plain id number h),
          )
          settled
    | inl h ↦
        rw
          (
            replacement-none digit nums id h,
            append_assoc id (b']' ∷ []) t,
            references-some digit b'[' (id ++ b']' ∷ t)
                (Match-reference_at digit id s t no_close m),
            references-skip digit id (b']' ∷ t) (id_plain id s m),
            references-none digit b']' t (reference_at-other digit b']' t refl),
          )
          (h, settled)
  ]

  no_reference : Settled digit nums []
  unfolding references
  no_reference = tt

  rewritten_from-Settled : (k : ℕ) (s : Text) → Settled digit nums (rewritten_from digit nums k s)
  unfolding rewritten_from
  rewritten_from-Settled zero [] = no_reference
  rewritten_from-Settled (suc k) [] = no_reference
  rewritten_from-Settled (suc k) (c ∷ s) = rewritten_from-Settled k s
  rewritten_from-Settled zero (c ∷ s) = elim (Option-cases (reference_at digit (c ∷ s))) [
    | inl h ↦
        rw
          (
            rewritten_from-none digit nums c s h,
            references-none digit c _
                (reference_at-Alike digit no_bracket no_hash c (rewritten-Alike digit nums s) ∙ h),
          )
          (rewritten_from-Settled 0 s)
    | inr (id, h) ↦ rw (rewritten_from-some digit nums c s h) (
        replacement-Settled id (c ∷ s) _ (reference_at-Match digit (c ∷ s) h)
          (rewritten_from-Settled (suc (length id)) s))
  ]

  -- If neither a bracket nor # counts as a digit, and no issue's number is written with a bracket, then no
  -- reference to a ticket is left in a body that has been rewritten.
  pub rewritten-Settled :
      (s : Text) → All (λ id. lookup id nums ≡ none) (references digit (rewritten digit nums s))
  unfolding rewritten
  rewritten-Settled s = rewritten_from-Settled 0 s

  -- Under the same conditions, a body that has been rewritten is not changed by another rewriting.
  pub rewritten-rewritten :
      (s : Text) → rewritten digit nums (rewritten digit nums s) ≡ rewritten digit nums s
  unfolding rewritten
  rewritten-rewritten s = Settled-rewritten_from digit nums 0 _ (rewritten_from-Settled 0 s)
