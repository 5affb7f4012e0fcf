-- ===== src/Flake/Github/Cooled.antt =====
-- Which push `cooled_head` of scripts/flake_update.py picks, and when `cooled_commit` moves an input.
use nixos_homeserver.Base.{
  true, false, Option, none, some, List, [], ◌∷◌, ◌++◌, nat_eq, list_eq, Text, codes, ℤ, leb_ℤ,
  Result, ok, >>=-eq-ok, ok-injective, ◌≡◌, refl, sym, ap, ◌∙◌, ◌⊎◌, inl, inr, Bool-cases,
}
use nixos_homeserver.Base.Lists.{All}
use nixos_homeserver.Base.Value.{Value, null, str, py_eq, index, iterate}
use nixos_homeserver.Flake.Github.{eligible, newest, forced_days, activity, cooled_head, Head}

module _ (pushed_at : Value → Result ℤ) (cutoff : ℤ) where
  -- A push that was old enough at the cutoff, at the time `at`, and left a head
  pub Old : Value → ℤ → Type 0
  Old p at =
      (time kind : Value) × (index p (codes "timestamp") ≡ ok time)
      × (pushed_at time ≡ ok at)
      × (leb_ℤ at cutoff ≡ true)
      × (index p (codes "activity_type") ≡ ok kind)
      × (py_eq kind (str (codes "branch_deletion")) ≡ false)

  -- A push later than the cutoff, or one that deleted the branch
  pub Passed : Value → Type 0
  Passed p =
      (time : Value) × (at : ℤ) × (index p (codes "timestamp") ≡ ok time)
      × (pushed_at time ≡ ok at)
      × ((leb_ℤ at cutoff ≡ false)
          ⊎ ((kind : Value) × (index p (codes "activity_type") ≡ ok kind)
              × (py_eq kind (str (codes "branch_deletion")) ≡ true)))

  -- The newest of the pushes that were old enough, whose commit is `sha`, with all the later ones
  pub Newest : List Value → Value → ℤ → Type 0
  unfolding Old Passed
  Newest pushes sha at =
      (later earlier : List Value) × (p : Value) × (pushes ≡ later ++ p ∷ earlier)
      × All Passed later
      × Old p at
      × (index p (codes "after") ≡ ok sha)

  eligible-cases :
      (p : Value) {found : Option ℤ}
      → eligible pushed_at cutoff p ≡ ok found
      → ((found ≡ none) × Passed p) ⊎ ((at : ℤ) × (found ≡ some at) × Old p at)
  unfolding eligible Old Passed
  eligible-cases p {found} h =
      let (time, q, h₁) = >>=-eq-ok (index p (codes "timestamp")) _ h in
      let (at, r, h₂) = >>=-eq-ok (pushed_at time) _ h₁ in
      elim (Bool-cases (leb_ℤ at cutoff)) [
        | inl early ↦
            let (kind, s, h₃) = >>=-eq-ok (index p (codes "activity_type")) _ (rw early at h₂) in
            elim (Bool-cases (py_eq kind (str (codes "branch_deletion")))) [
              | inl gone ↦
                  inl (sym (ok-injective (rw gone at h₃)), (time, at, q, r, inr (kind, s, gone)))
              | inr stays ↦
                  inr (at, sym (ok-injective (rw stays at h₃)), (time, kind, q, r, early, s, stays))
            ]
        | inr late ↦ inl (sym (ok-injective (rw late at h₂)), (time, at, q, r, inl late))
      ]

  newest-cases :
      (forced : List Text) (pushes : List Value) {head : Head}
      → newest pushed_at cutoff forced pushes ≡ ok head
      → (All Passed pushes × (head.sha ≡ null)) ⊎ ((at : ℤ) × Newest pushes head.sha at)
  unfolding newest Newest
  newest-cases forced [] h = inl (tt, sym (ap (λ x. x.sha) (ok-injective h)))
  newest-cases forced (p ∷ pushes) {head} h =
      let (found, q, h₁) = >>=-eq-ok (eligible pushed_at cutoff p) _ h in
      elim (eligible-cases p q) [
        | inl (e, passed) ↦ elim (newest-cases forced pushes (rw e at h₁)) [
          | inl (rest, z) ↦ inl ((passed, rest), z)
          | inr (at, (later, earlier, r, e', before, old, s)) ↦
              inr (at, (p ∷ later, earlier, r, ap (λ l. p ∷ l) e', (passed, before), old, s))
        ]
        | inr (at, e, old) ↦
            let (sha, r, h₂) = >>=-eq-ok (index p (codes "after")) _ (rw e at h₁) in
            inr (at, ([], pushes, p, refl, tt, old, r ∙ ap (λ x. ok x.sha) (ok-injective h₂)))
      ]

  -- The head that `cooled_head` returns is the commit of a push of the activity log that was made by
  -- the cutoff and was no deletion of the branch, and every later push of the log came after the
  -- cutoff or deleted the branch. It returns no head only if that holds of all pushes of the log.
  pub cooled_head-Newest :
      (github : Text → Result Value) (owner repo branch : Value) {head : Head}
      → cooled_head github pushed_at cutoff owner repo branch ≡ ok head
      → (answer : Value) × (pushes : List Value) × (github (activity owner repo branch) ≡ ok answer)
        × (iterate answer ≡ ok pushes)
        × ((All Passed pushes × (head.sha ≡ null)) ⊎ ((at : ℤ) × Newest pushes head.sha at))
  unfolding cooled_head
  cooled_head-Newest github owner repo branch h =
      let (answer, p, h₁) = >>=-eq-ok (github (activity owner repo branch)) _ h in
      let (pushes, q, h₂) = >>=-eq-ok (iterate answer) _ h₁ in
      let (forced, r, h₃) = >>=-eq-ok (forced_days pushes) _ h₂ in
      (answer, pushes, p, q, newest-cases forced pushes h₃)
