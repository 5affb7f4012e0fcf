-- ===== src/Flake/Check/Vetted.antt =====
-- What a lock has passed when `cmd_check` of scripts/flake_update.py writes the pull request.
use nixos_homeserver.Base.{
  true, false, Option, none, some, [], nat_eq, list_eq, Text, codes, ℤ, Exception, Result, ok, err,
  >>=-eq-ok, ok-injective, value_error, type_error, key_error, attribute_error, os_error,
  http_exception, ◌≡◌, refl, ap, ◌∙◌, ◌≢◌, inl, inr, Bool-cases, Option-cases, ==_of_ne,
}
use nixos_homeserver.Base.Value.{Value, str, py_eq, index}
use nixos_homeserver.Flake.Github.{
  short, on_line, branch_of, on_branch, cooled_head, compare_status, is_none, Head,
}
use nixos_homeserver.Flake.Check.{nixpkgs, Moved, caught, not_cooled, why_not, check_moved}

-- `on_branch` gives no reason only if GitHub says that `new` is ahead of `old`, and that the branch is
-- at `new` or ahead of it.
pub OnBranch : (Text → Result Value) → Value → Value → Value → Value → Value → Type 0
OnBranch github owner repo branch old new =
    (forward on : Value) × (compare_status github owner repo old new ≡ ok forward)
    × (py_eq forward (str (codes "ahead")) ≡ true)
    × (compare_status github owner repo new branch ≡ ok on)
    × (on_line on ≡ true)

no_reason : {t : Text} → some t ≡ none → ⊥
no_reason e = cc

pub on_branch-OnBranch :
    (github : Text → Result Value) (owner repo branch old new : Value)
    → on_branch github owner repo branch old new ≡ ok none
    → OnBranch github owner repo branch old new
unfolding on_branch OnBranch
on_branch-OnBranch github owner repo branch old new h =
    let (forward, p, h₁) = >>=-eq-ok (compare_status github owner repo old new) _ h in
    elim (Bool-cases (py_eq forward (str (codes "ahead")))) [
      | inl ahead ↦
          let (on, q, h₂) =
            >>=-eq-ok (compare_status github owner repo new branch) _ (rw ahead at h₁) in
          elim (Bool-cases (on_line on)) [
            | inl line ↦ (forward, on, p, ahead, q, line)
            | inr off ↦
                let (n, _, e) = >>=-eq-ok (short new) _ (rw off at h₂) in
                absurd (no_reason (ok-injective e))
          ]
      | inr apart ↦
          let (n, _, h₂) = >>=-eq-ok (short new) _ (rw apart at h₁) in
          let (o, _, e) = >>=-eq-ok (short old) _ h₂ in absurd (no_reason (ok-injective e))
    ]

module _ (github : Text → Result Value) (pushed_at : Value → Result ℤ) (cutoff : Text → ℤ)
    (days : ℤ) (describe : Exception → Text) where
  -- The input `name` moved from a commit to a descendant of it that is on the branch that the input
  -- follows, and was there at the cutoff if the input is not nixpkgs.
  pub Vetted : Text → Value → Value → Value → Type 0
  unfolding nixpkgs OnBranch
  Vetted name original ol nl =
      (branch owner repo old new : Value) × (branch_of github original ≡ ok branch)
      × (index ol (codes "owner") ≡ ok owner)
      × (index ol (codes "repo") ≡ ok repo)
      × (index ol (codes "rev") ≡ ok old)
      × (index nl (codes "rev") ≡ ok new)
      × OnBranch github owner repo branch old new
      × (name ≢ nixpkgs
          → (head : Head) × (status : Value) × (cooled_head github pushed_at (cutoff name) owner
                repo branch
              ≡ ok head)
            × (is_none head.sha ≡ false)
            × (compare_status github owner repo new head.sha ≡ ok status)
            × (on_line status ≡ true))

  not_cooled-none :
      (name : Text) (owner repo branch new : Value)
      → not_cooled github pushed_at cutoff days describe name owner repo branch new ≡ ok none
      → (head : Head) × (status : Value) × (cooled_head github pushed_at
            (cutoff name)
            owner
            repo
            branch
          ≡ ok head)
        × (is_none head.sha ≡ false)
        × (compare_status github owner repo new head.sha ≡ ok status)
        × (on_line status ≡ true)
  unfolding not_cooled
  not_cooled-none name owner repo branch new h =
      let (head, p, h₁) =
        >>=-eq-ok (cooled_head github pushed_at (cutoff name) owner repo branch) _ h in
      elim (Bool-cases (is_none head.sha)) [
        | inl nothing ↦ absurd (no_reason (ok-injective (rw nothing at h₁)))
        | inr some_head ↦
            let (status, q, h₂) =
              >>=-eq-ok (compare_status github owner repo new head.sha) _ (rw some_head at h₁) in
            elim (Bool-cases (on_line status)) [
              | inl line ↦ (head, status, p, some_head, q, line)
              | inr off ↦
                  let (n, _, e) = >>=-eq-ok (short new) _ (rw off at h₂) in
                  absurd (no_reason (ok-injective e))
            ]
      ]

  why_not-Vetted :
      (name : Text) (original ol nl : Value)
      → why_not github pushed_at cutoff days describe name original ol nl ≡ ok none
      → Vetted name original ol nl
  unfolding why_not Vetted nixpkgs
  why_not-Vetted name original ol nl h =
      let (branch, b, h₁) = >>=-eq-ok (branch_of github original) _ h in
      let (owner, w, h₂) = >>=-eq-ok (index ol (codes "owner")) _ h₁ in
      let (repo, r, h₃) = >>=-eq-ok (index ol (codes "repo")) _ h₂ in
      let (old, o, h₄) = >>=-eq-ok (index ol (codes "rev")) _ h₃ in
      let (new, n, h₅) = >>=-eq-ok (index nl (codes "rev")) _ h₄ in
      let (why, q, h₆) = >>=-eq-ok (on_branch github owner repo branch old new) _ h₅ in
      elim (Option-cases why) [
        | inl e ↦ (
          branch,
          owner,
          repo,
          old,
          new,
          b,
          w,
          r,
          o,
          n,
          on_branch-OnBranch github owner repo branch old new (q ∙ ap ok e),
          λ other. not_cooled-none name owner repo branch new (rw (==_of_ne other) at (rw e at h₆)),
        )
        | inr (reason, e) ↦ absurd (no_reason (ok-injective (rw e at h₆)))
      ]

  caught-nil :
      (name : Text) (m : Result (Option Text)) → caught describe name m ≡ ok [] → m ≡ ok none
  unfolding caught
  caught-nil name (ok none) h = refl
  caught-nil name (ok (some why)) h = cc
  caught-nil name (err attribute_error) h = cc
  caught-nil name (err value_error) h = cc
  caught-nil name (err type_error) h = cc
  caught-nil name (err key_error) h = cc
  caught-nil name (err os_error) h = cc
  caught-nil name (err http_exception) h = cc

  pub check_moved-Vetted :
      (old : Value) (m : Moved)
      → check_moved github pushed_at cutoff days describe old m ≡ ok []
      → (nodes o original : Value) × (index old (codes "nodes") ≡ ok nodes)
        × (index nodes m.name ≡ ok o)
        × (index o (codes "original") ≡ ok original)
        × Vetted m.name original m.ol m.nl
  unfolding check_moved
  check_moved-Vetted old m h =
      let (nodes, p, h₁) = >>=-eq-ok (index old (codes "nodes")) _ h in
      let (o, q, h₂) = >>=-eq-ok (index nodes m.name) _ h₁ in
      let (original, r, h₃) = >>=-eq-ok (index o (codes "original")) _ h₂ in
      (
        nodes,
        o,
        original,
        p,
        q,
        r,
        why_not-Vetted m.name original m.ol m.nl (caught-nil m.name _ h₃),
      )
