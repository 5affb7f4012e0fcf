-- ===== src/Flake/Update/Commands.antt =====
-- What `cmd_update` of scripts/flake_update.py does to the lock, and the size of its report.
use nixos_homeserver.Base.{
  ◌≤◌, not, Option, none, some, List, [], ◌∷◌, ◌++◌, ltb, ◌==◌, nat_eq, list_eq, Text, codes, join,
  ℤ, Exception, Result, ok, err, >>=-eq-ok, ok-injective, value_error, type_error, key_error,
  attribute_error, os_error, http_exception, ◌≡◌, refl, sym, ap, subst, ◌∙◌, ◌≢◌, ◌⊎◌, inl, inr,
  Bool-cases, ==_of_ne, ==_self,
}
use nixos_homeserver.Base.Lists.{All, length, length-take}
use nixos_homeserver.Base.Value.{Value, str, py_eq, get, index, or_null, str_of}
use nixos_homeserver.Flake.Github.{short, Commit, is_none, cooled_commit}
use nixos_homeserver.Flake.Github.Moves.{MovesTo, cooled_commit-MovesTo}
use nixos_homeserver.Flake.Check.{nixpkgs}
use nixos_homeserver.Flake.Update.{
  limit, limited, Step, entry, moved_step, looked_up, update_input, Job, Update, input_lines,
  change_report, cmd_update,
}

length-limited : (report full : List Text) → length (limited report full) ≤ 50000
unfolding limited limit
length-limited report full =
    elim (Bool-cases (ltb 50000 (length (join (10 ∷ []) (report ++ full) ++ 10 ∷ [])))) [
      | inl long ↦ rw long (length-take 50000 _)
      | inr short ↦ rw short (length-take 50000 _)
    ]

module _ (github : Text → Result Value) (pushed_at : Value → Result ℤ) (cutoff : Text → ℤ)
    (describe : Exception → Text) (day : Option ℤ → Text) where
  -- The report fits into a pull request, whatever the job found.
  pub length-cmd_update :
      (loads : Text → Result Value) (job : Job) (old_lock new_lock : Value) {done : Update}
      → cmd_update github pushed_at cutoff describe day loads job old_lock new_lock ≡ ok done
      → length done.report ≤ 50000
  unfolding cmd_update
  length-cmd_update loads job old_lock new_lock h =
      let (inputs, p, h₁) =
        >>=-eq-ok (input_lines github pushed_at cutoff describe day job old_lock) _ h in
      let (changes, q, e) =
        >>=-eq-ok (change_report loads job (not (py_eq new_lock old_lock))) _ h₁ in
      subst (λ r. length r ≤ 50000) (ap (λ u. u.report) (ok-injective e))
        (length-limited (inputs.0 ++ changes.0) changes.1)

  -- The command of a step, if it has one, moves the input to a commit that `cooled_commit` vouches for.
  pub Vouched : Text → Value → Step → Type 0
  unfolding nixpkgs
  Vouched name node step =
      (step.command ≡ none)
      ⊎ ((original locked owner repo sha : Value) × (name ≢ nixpkgs)
          × (index node (codes "original") ≡ ok original)
          × (index node (codes "locked") ≡ ok locked)
          × (index original (codes "owner") ≡ ok owner)
          × (index original (codes "repo") ≡ ok repo)
          × MovesTo github pushed_at (cutoff name) original locked sha
          × (step.command
              ≡ some (
                  codes "nix"
                  ∷ codes "flake"
                  ∷ codes "lock"
                  ∷ codes "--override-input"
                  ∷ name
                  ∷ (codes "github:"
                      ++ str_of owner
                      ++ codes "/"
                      ++ str_of repo
                      ++ codes "/"
                      ++ str_of sha)
                  ∷ [])))

  moved_step-Vouched :
      (name : Text) (node original locked : Value) (commit : Commit) {step : Step}
      → name ≢ nixpkgs
      → index node (codes "original") ≡ ok original
      → index node (codes "locked") ≡ ok locked
      → cooled_commit github pushed_at (cutoff name) original locked ≡ ok commit
      → moved_step github pushed_at cutoff describe day name original commit ≡ ok step
      → Vouched name node step
  unfolding moved_step Vouched entry
  moved_step-Vouched name node original locked commit other o l c h =
      elim (Bool-cases (is_none commit.sha)) [
        | inl nothing ↦
            inl (ap (λ s. s.command) (sym (ok-injective (rw (nothing, moved_step) at h))))
        | inr moves ↦
            let (sha, p, h₁) = >>=-eq-ok (short commit.sha) _ (rw (moves, moved_step) at h) in
            let (owner, q, h₂) = >>=-eq-ok (index original (codes "owner")) _ h₁ in
            let (repo, r, e) = >>=-eq-ok (index original (codes "repo")) _ h₂ in
            inr (
              original,
              locked,
              owner,
              repo,
              commit.sha,
              other,
              o,
              l,
              q,
              r,
              cooled_commit-MovesTo github pushed_at (cutoff name) original locked c moves,
              ap (λ s. s.command) (sym (ok-injective e)),
            )
      ]

  no_command : (name : Text) (node : Value) (rest : Text) → Vouched name node (entry name rest)
  unfolding Vouched entry
  no_command name node rest = inl refl

  looked_up-Vouched :
      (name : Text) (node original locked : Value) (commit : Result Commit) {step : Step}
      → name ≢ nixpkgs
      → index node (codes "original") ≡ ok original
      → index node (codes "locked") ≡ ok locked
      → cooled_commit github pushed_at (cutoff name) original locked ≡ commit
      → looked_up github pushed_at cutoff describe day name original commit ≡ ok step
      → Vouched name node step
  unfolding looked_up Vouched entry
  looked_up-Vouched name node original locked (ok commit) other o l c h =
      moved_step-Vouched name node original locked commit other o l c h
  looked_up-Vouched name node original locked (err attribute_error) other o l c h = cc
  looked_up-Vouched name node original locked (err value_error) other o l c h =
      inl (ap (λ s. s.command) (sym (ok-injective h)))
  looked_up-Vouched name node original locked (err type_error) other o l c h =
      inl (ap (λ s. s.command) (sym (ok-injective h)))
  looked_up-Vouched name node original locked (err key_error) other o l c h =
      inl (ap (λ s. s.command) (sym (ok-injective h)))
  looked_up-Vouched name node original locked (err os_error) other o l c h =
      inl (ap (λ s. s.command) (sym (ok-injective h)))
  looked_up-Vouched name node original locked (err http_exception) other o l c h =
      inl (ap (λ s. s.command) (sym (ok-injective h)))

  -- The job moves an input other than nixpkgs only to a commit that `cooled_commit` found and checked.
  pub update_input-Vouched :
      (name : Text) (node : Value) {steps : List Step}
      → update_input github pushed_at cutoff describe day name node ≡ ok steps
      → All (Vouched name node) steps
  unfolding update_input
  update_input-Vouched name node h = elim (list_eq.dec name nixpkgs) [
    | yes e ↦
        let open_h = rw (ap (λ n. n == nixpkgs) e ∙ ==_self nixpkgs, update_input) at h in
        subst (All (Vouched name node)) (ok-injective open_h) tt
    | no other ↦
        let (original, o, h₁) =
          >>=-eq-ok (index node (codes "original")) _ (rw (==_of_ne other, update_input) at h) in
        let (locked, l, h₂) = >>=-eq-ok (index node (codes "locked")) _ h₁ in
        let (type, t, h₃) = >>=-eq-ok (get original (codes "type")) _ h₂ in
        elim (Bool-cases (py_eq (or_null type) (str (codes "github")))) [
          | inr elsewhere ↦
              subst (All (Vouched name node)) (ok-injective (rw elsewhere at h₃))
                (no_command name node _, tt)
          | inl hub ↦
              let (step, s, e) =
                >>=-eq-ok
                  (looked_up github pushed_at cutoff describe day name original
                    (cooled_commit github pushed_at (cutoff name) original locked))
                  _ (rw hub at h₃) in
              subst (All (Vouched name node)) (ok-injective e)
                (looked_up-Vouched name node original locked _ other o l refl s, tt)
        ]
  ]
