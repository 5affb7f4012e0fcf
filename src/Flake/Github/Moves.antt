-- ===== src/Flake/Github/Moves.antt =====
-- When `cooled_commit` of scripts/flake_update.py gives a commit to move an input to.
use nixos_homeserver.Base.{
  true, false, List, Text, codes, ℤ, Result, ok, >>=-eq-ok, ok-injective, ◌≡◌, sym, ap, inl, inr,
  Bool-cases,
}
use nixos_homeserver.Base.Value.{Value, str, py_eq, index}
use nixos_homeserver.Flake.Github.{
  short, cooled_head, Head, Commit, is_none, left_alone, judge_head, cooled_commit, compare_status,
  on_line, branch_of,
}

-- An input that is left alone gets no commit.
left_alone-none :
    (head : Head) (notes : List Text) {commit : Commit}
    → left_alone head notes ≡ ok commit
    → is_none commit.sha ≡ true
unfolding left_alone is_none
left_alone-none head notes h = ap (λ c. is_none c.sha) (sym (ok-injective h))

clash : (v : Value) → is_none v ≡ true → is_none v ≡ false → ⊥
clash v p q = cc

module _ (github : Text → Result Value) where
  judge_head-moves :
      (owner repo branch rev status : Value) (head : Head) {commit : Commit}
      → judge_head github owner repo branch head rev status ≡ ok commit
      → is_none commit.sha ≡ false
      → (on : Value) × (py_eq status (str (codes "ahead")) ≡ true)
        × (compare_status github owner repo head.sha branch ≡ ok on)
        × (on_line on ≡ true)
        × (head.sha ≡ commit.sha)
  unfolding judge_head
  judge_head-moves owner repo branch rev status head {commit} h moves =
      elim (Bool-cases (py_eq status (str (codes "behind")))) [
        | inl older ↦ absurd (clash commit.sha (left_alone-none head _ (rw older at h)) moves)
        | inr not_older ↦ elim (Bool-cases (py_eq status (str (codes "ahead")))) [
          | inr apart ↦
              let (s, _, h₁) = >>=-eq-ok (short head.sha) _ (rw (not_older, apart) at h) in
              let (r, _, h₂) = >>=-eq-ok (short rev) _ h₁ in
              absurd (clash commit.sha (left_alone-none head _ h₂) moves)
          | inl ahead ↦
              let (on, p, h₁) =
                >>=-eq-ok (compare_status github owner repo head.sha branch) _
                  (rw (not_older, ahead) at h) in
              elim (Bool-cases (on_line on)) [
                | inl line ↦ (on, ahead, p, line, ap (λ c. c.sha) (ok-injective (rw line at h₁)))
                | inr off ↦
                    let (s, _, h₂) = >>=-eq-ok (short head.sha) _ (rw off at h₁) in
                    absurd (clash commit.sha (left_alone-none head _ h₂) moves)
              ]
        ]
      ]

  -- `sha` is the head that `cooled_head` finds for the input, another commit than the locked rev, ahead
  -- of it by GitHub's comparison, and still on the branch.
  pub MovesTo : (Value → Result ℤ) → ℤ → Value → Value → Value → Type 0
  MovesTo pushed_at cutoff original locked sha =
      (owner repo branch rev status on : Value) × (head : Head) × (index original (codes "owner")
        ≡ ok owner)
      × (index original (codes "repo") ≡ ok repo)
      × (branch_of github original ≡ ok branch)
      × (cooled_head github pushed_at cutoff owner repo branch ≡ ok head)
      × (head.sha ≡ sha)
      × (index locked (codes "rev") ≡ ok rev)
      × (py_eq head.sha rev ≡ false)
      × (compare_status github owner repo rev head.sha ≡ ok status)
      × (py_eq status (str (codes "ahead")) ≡ true)
      × (compare_status github owner repo head.sha branch ≡ ok on)
      × (on_line on ≡ true)

  -- If `cooled_commit` gives a commit, then it is the cooled head of the input's branch, it is not the
  -- locked rev, GitHub compares it with the locked rev as ahead, and it is still on the branch.
  pub cooled_commit-MovesTo :
      (pushed_at : Value → Result ℤ) (cutoff : ℤ) (original locked : Value) {commit : Commit}
      → cooled_commit github pushed_at cutoff original locked ≡ ok commit
      → is_none commit.sha ≡ false
      → MovesTo pushed_at cutoff original locked commit.sha
  unfolding cooled_commit MovesTo
  cooled_commit-MovesTo pushed_at cutoff original locked {commit} h moves =
      let (owner, o, h₁) = >>=-eq-ok (index original (codes "owner")) _ h in
      let (repo, r, h₂) = >>=-eq-ok (index original (codes "repo")) _ h₁ in
      let (branch, b, h₃) = >>=-eq-ok (branch_of github original) _ h₂ in
      let (head, c, h₄) = >>=-eq-ok (cooled_head github pushed_at cutoff owner repo branch) _ h₃ in
      elim (Bool-cases (is_none head.sha)) [
        | inl nothing ↦ absurd (clash commit.sha (left_alone-none head _ (rw nothing at h₄)) moves)
        | inr some_head ↦
            let (rev, v, h₅) = >>=-eq-ok (index locked (codes "rev")) _ (rw some_head at h₄) in
            elim (Bool-cases (py_eq head.sha rev)) [
              | inl same ↦ absurd (clash commit.sha (left_alone-none head _ (rw same at h₅)) moves)
              | inr other ↦
                  let (status, s, h₆) =
                    >>=-eq-ok (compare_status github owner repo rev head.sha) _ (rw other at h₅) in
                  let (on, ahead, t, line, is) =
                    judge_head-moves owner repo branch rev status head h₆ moves in
                  (
                    owner, repo, branch, rev, status, on, head, o, r, b, c, is, v, other, s, ahead,
                    t, line,
                  )
            ]
      ]
