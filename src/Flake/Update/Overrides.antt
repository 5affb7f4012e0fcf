-- ===== src/Flake/Update/Overrides.antt =====
-- The commands by which `cmd_update` of scripts/flake_update.py changes flake.lock, all together.
use nixos_homeserver.Base.{
  not, Option, some, List, [], ◌∷◌, list_eq, nat_eq, Text, codes, ℤ, Exception, Result, ok,
  >>=-eq-ok, ok-injective, for_each, ◌≡◌, refl, sym, ap, subst, inl, inr, Bool-cases, Option-cases,
}
use nixos_homeserver.Base.Lists.{All, Any, All-append}
use nixos_homeserver.Base.Dict.{Dict}
use nixos_homeserver.Base.Sort.{leb_text, All-sorted}
use nixos_homeserver.Base.Value.{Value, py_eq}
use nixos_homeserver.Flake.Lock.{direct_inputs}
use nixos_homeserver.Flake.Check.{nixpkgs}
use nixos_homeserver.Flake.Update.{
  Step, Job, Update, commands_of, other_inputs, input_lines, change_report, cmd_update,
}
use nixos_homeserver.Flake.Update.Commands.{Vouched, update_input-Vouched}

for_each-All {ℓ κ μ} :
    {A : Type ℓ} {B : Type κ} (P : A → Type 0) (R : B → Type μ) (f : A → Result (List B))
    (xs : List A) {ys : List B}
    → ((x : A) (zs : List B) → P x → f x ≡ ok zs → All R zs)
    → All P xs
    → for_each f xs ≡ ok ys
    → All R ys
unfolding for_each
for_each-All P R f [] h t e = subst (All R) (ok-injective e) tt
for_each-All P R f (x ∷ xs) h (p, t) e =
    let (here, q, e₁) = >>=-eq-ok (f x) _ e in
    let (rest, r, e₂) = >>=-eq-ok (for_each f xs) _ e₁ in
    subst (All R) (ok-injective e₂)
      (All-append R here rest (h x here p q) (for_each-All P R f xs h t r))

-- The entries of a dict are entries of it.
own_entries : (d : Dict Text Value) → All (λ i. Any (λ j. j ≡ i) d) d
own_entries [] = tt
own_entries (i ∷ d) = (inl refl, later d (own_entries d))
  where
    later :
        (ds : Dict Text Value)
        → All (λ k. Any (λ j. j ≡ k) d) ds
        → All (λ k. Any (λ j. j ≡ k) (i ∷ d)) ds
    later [] h = tt
    later (k ∷ ds) (p, h) = (inr p, later ds h)

module _ (github : Text → Result Value) (pushed_at : Value → Result ℤ) (cutoff : Text → ℤ)
    (describe : Exception → Text) (day : Option ℤ → Text) (old_lock : Value) where
  -- A step of the loop over the direct inputs of the lock, for one of them
  abbrev Taken : Step → Type 0
  Taken step =
      (inputs : Dict Text Value) × (name : Text) × (node : Value) × (direct_inputs old_lock
        ≡ ok inputs)
      × Any (λ i. i ≡ (name, node)) inputs
      × Vouched github pushed_at cutoff describe day name node step

  -- The command moves a direct input of the old lock, other than nixpkgs, to a commit that `cooled_commit` vouches for.
  abbrev pub Override : List Text → Type 0
  Override command = (step : Step) × (step.command ≡ some command) × Taken step

  other_inputs-Taken :
      {steps : List Step}
      → other_inputs github pushed_at cutoff describe day old_lock ≡ ok steps
      → All Taken steps
  unfolding other_inputs
  other_inputs-Taken h =
      let (inputs, p, e) = >>=-eq-ok (direct_inputs old_lock) _ h in
      for_each-All (λ i. Any (λ j. j ≡ i) inputs) Taken _ _
        (λ i steps member q.
          all_taken inputs i.0 i.1 p member steps
            (update_input-Vouched github pushed_at cutoff describe day i.0 i.1 q))
        ((All-sorted (λ a b. leb_text a.0 b.0) (λ i. Any (λ j. j ≡ i) inputs) inputs).1
          (own_entries inputs))
        e
    where
      all_taken :
          (inputs : Dict Text Value) (name : Text) (node : Value)
          → direct_inputs old_lock ≡ ok inputs
          → Any (λ i. i ≡ (name, node)) inputs
          → (steps : List Step) → All (Vouched github pushed_at cutoff describe day name node) steps
          → All Taken steps
      all_taken inputs name node p member [] t = tt
      all_taken inputs name node p member (step ∷ steps) (v, t) =
          ((inputs, name, node, p, member, v), all_taken inputs name node p member steps t)

  commands_of-Override : (steps : List Step) → All Taken steps → All Override (commands_of steps)
  unfolding commands_of
  commands_of-Override [] h = tt
  commands_of-Override (step ∷ steps) (t, h) = elim (Option-cases step.command) [
    | inl e ↦ rw (e, commands_of) (commands_of-Override steps h)
    | inr (command, e) ↦ rw (e, commands_of) ((step, e, t), commands_of-Override steps h)
  ]

  input_lines-Override :
      (job : Job) {lines : List Text} {commands : List (List Text)}
      → input_lines github pushed_at cutoff describe day job old_lock ≡ ok (lines, commands)
      → All Override commands
  unfolding input_lines
  input_lines-Override job h = elim (Bool-cases job.others) [
    | inl yes_others ↦
        let (steps, p, e) =
          >>=-eq-ok (other_inputs github pushed_at cutoff describe day old_lock) _
            (rw (yes_others, input_lines) at h) in
        subst (All Override) (ap (λ r. r.1) (ok-injective e))
          (commands_of-Override steps (other_inputs-Taken p))
    | inr none_of_them ↦
        subst (All Override) (ap (λ r. r.1) (ok-injective (rw (none_of_them, input_lines) at h))) tt
  ]

  -- The commands that change flake.lock are the update of nixpkgs and, after it, moves of direct inputs of the old lock, other
  -- than nixpkgs, each to a commit that is the cooled head, not the locked rev, ahead of it, and still on the branch.
  pub cmd_update-Override :
      (loads : Text → Result Value) (job : Job) (new_lock : Value) {done : Update}
      → cmd_update github pushed_at cutoff describe day loads job old_lock new_lock ≡ ok done
      → (moves : List (List Text)) × (done.commands
          ≡ (codes "nix" ∷ codes "flake" ∷ codes "update" ∷ nixpkgs ∷ []) ∷ moves)
        × All Override moves
  unfolding cmd_update
  cmd_update-Override loads job new_lock h =
      let (inputs, p, h₁) =
        >>=-eq-ok (input_lines github pushed_at cutoff describe day job old_lock) _ h in
      let (changes, q, e) =
        >>=-eq-ok (change_report loads job (not (py_eq new_lock old_lock))) _ h₁ in
      (inputs.1, ap (λ u. u.commands) (sym (ok-injective e)), input_lines-Override job p)
