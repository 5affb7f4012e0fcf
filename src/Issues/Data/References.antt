-- ===== src/Issues/Data/References.antt =====
-- The references in a body that `t` of scripts/tickets.py writes.
use nixos_homeserver.Base.{
  ℕ, Bool, true, false, ◌&&◌, none, List, [], ◌∷◌, ◌++◌, ltb, ◌==◌, list_eq, nat_eq, contains, map,
  Text, codes, join, ◌≡◌, refl, sym, ap, ap₂, ◌∙◌, inl, inr, Bool-cases, Option-cases, append_assoc,
  append-nil,
}
use nixos_homeserver.Base.Lists.{length}
use nixos_homeserver.Issues.Tickets.{span, id_at, closing, reference_at, references}
use nixos_homeserver.Issues.Rewriting.Rounds.{
  references-none, references-some, reference_at-other, references-skip,
}
use nixos_homeserver.Issues.Data.Body.{body_of}

and_false : (b : Bool) → (b && false) ≡ false
and_false true = refl
and_false false = refl

-- A character that no reference contains but at its start
module _ (digit : ℕ → Bool) (c : ℕ) (no_digit : digit c ≡ false) (no_point : (c == b'.') ≡ false)
    (no_close : (c == b']') ≡ false) where
  span-stops :
      (s t : Text) → span digit (s ++ c ∷ t) ≡ ((span digit s).0, (span digit s).1 ++ c ∷ t)
  unfolding span
  span-stops [] t = rw no_digit refl
  span-stops (d ∷ s) t = elim (Bool-cases (digit d)) [
    | inl h ↦ rw (h, span-stops s t) refl
    | inr h ↦ rw h refl
  ]

  closing-stops : (id s t : Text) → closing id (s ++ c ∷ t) ≡ closing id s
  unfolding closing
  closing-stops id [] t = rw no_close refl
  closing-stops id (d ∷ s) t = refl

  reference_at-stops :
      (d : ℕ) (s t : Text) → reference_at digit (d ∷ (s ++ c ∷ t)) ≡ reference_at digit (d ∷ s)
  unfolding reference_at id_at
  reference_at-stops d [] [] = refl
  reference_at-stops d [] (e ∷ t) = rw no_digit refl
  reference_at-stops d (e ∷ []) t = rw (no_point, and_false (digit e)) refl
  reference_at-stops d (e ∷ f ∷ s) t =
      elim (Bool-cases (digit e && f == b'.' && ltb 0 (length (span digit s).0))) [
        | inl h ↦
            rw (span-stops s t, h, closing-stops (e ∷ f ∷ (span digit s).0) (span digit s).1 t) refl
        | inr h ↦ rw (span-stops s t, h) refl
      ]

  references-append :
      (s t : Text) → references digit (s ++ c ∷ t) ≡ references digit s ++ references digit (c ∷ t)
  unfolding references
  references-append [] t = refl
  references-append (d ∷ s) t = elim (Option-cases (reference_at digit (d ∷ s))) [
    | inl h ↦
        references-none digit d (s ++ c ∷ t) (reference_at-stops d s t ∙ h)
        ∙ (references-append s t
            ∙ ap (λ l. l ++ references digit (c ∷ t)) (sym (references-none digit d s h)))
    | inr (id, h) ↦
        references-some digit d (s ++ c ∷ t) (reference_at-stops d s t ∙ h)
        ∙ (ap (λ l. id ∷ l) (references-append s t)
            ∙ ap (λ l. l ++ references digit (c ∷ t)) (sym (references-some digit d s h)))
  ]

-- The references of texts, one after the other
abbrev pub references_of : (ℕ → Bool) → List Text → List Text
references_of digit [] = []
references_of digit (x ∷ xs) = references digit x ++ references_of digit xs

-- A text of the layout has no reference, and cuts those before and behind it.
module _ (digit : ℕ → Bool) (newline : digit b'\n' ≡ false) (space : digit b' ' ≡ false) where
  references-cut :
      (s t : Text) → references digit (s ++ b'\n' ∷ t) ≡ references digit s ++ references digit t
  unfolding nat_eq
  references-cut s t =
      references-append digit b'\n' newline refl refl s t
      ∙ ap (λ l. references digit s ++ l)
          (references-none digit b'\n' t (reference_at-other digit b'\n' t refl))

  empty : (x : Text) → reference_at digit (b'[' ∷ b' ' ∷ b']' ∷ b' ' ∷ x) ≡ none
  unfolding reference_at id_at nat_eq
  empty x = rw space refl

  references-task : (x : Text) → references digit (codes "- [ ] " ++ x) ≡ references digit x
  unfolding codes nat_eq
  references-task x =
      references-skip digit (b'-' ∷ b' ' ∷ []) (b'[' ∷ b' ' ∷ b']' ∷ b' ' ∷ x) refl
      ∙ (references-none digit b'[' (b' ' ∷ b']' ∷ b' ' ∷ x) (empty x)
          ∙ references-skip digit (b' ' ∷ b']' ∷ b' ' ∷ []) x refl)

  references-join :
      (f : Text → Text) (xs : List Text)
      → ((x : Text) → references digit (f x) ≡ references digit x)
      → references digit (join (codes "\n") (map f xs)) ≡ references_of digit xs
  unfolding join codes references
  references-join f [] h = refl
  references-join f (x ∷ []) h = h x ∙ sym (append-nil _)
  references-join f (x ∷ y ∷ xs) h =
      references-cut (f x) _ ∙ ap₂ (λ a b. a ++ b) (h x) (references-join f (y ∷ xs) h)

  -- What stands behind a line of the layout
  references-part :
      (s heading x : Text)
      → contains heading b'[' ≡ false
      → references digit (s ++ b'\n' ∷ heading ++ x) ≡ references digit s ++ references digit x
  references-part s heading x h =
      ap (references digit) (append_assoc s (b'\n' ∷ heading) x)
      ∙ (references-cut s (heading ++ x)
          ∙ ap (λ l. references digit s ++ l) (references-skip digit heading x h))

  -- If neither a newline nor a space counts as a digit, then a body that `t` writes has the references of its goal, its tasks, its
  -- criteria and its dependencies, in this order, and no others.
  pub body_of-references :
      (goal : Text) (tasks ac : List Text) (deps : Text)
      → references digit (body_of goal tasks ac deps)
        ≡ references digit goal
          ++ references_of digit tasks
          ++ references_of digit ac
          ++ references digit deps
  unfolding body_of codes nat_eq references
  body_of-references goal tasks ac deps =
      let first = codes "## Goal\n" ++ goal in
      let tasks_text = join (codes "\n") (map (λ x. codes "- [ ] " ++ x) tasks) in
      let ac_text = join (codes "\n") (map (λ x. codes "- " ++ x) ac) in
      let second = first ++ codes "\n\n## Tasks\n" ++ tasks_text in
      let third = second ++ codes "\n\n## Acceptance criteria\n" ++ ac_text in
      references-cut (third ++ codes "\n\n## Depends on\n" ++ deps) []
      ∙ (append-nil _
          ∙ (references-part third (codes "\n## Depends on\n") deps refl
              ∙ ap (λ l. l ++ references digit deps)
                  (references-part second (codes "\n## Acceptance criteria\n") ac_text refl
                    ∙ ap₂ (λ a b. a ++ b)
                        (references-part first (codes "\n## Tasks\n") tasks_text refl
                          ∙ ap₂ (λ a b. a ++ b)
                              (references-skip digit (codes "## Goal\n") goal refl)
                              (references-join (λ x. codes "- [ ] " ++ x) tasks references-task))
                        (references-join (λ x. codes "- " ++ x) ac
                          (λ x. references-skip digit (codes "- ") x refl)))))
