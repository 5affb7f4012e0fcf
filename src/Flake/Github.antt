-- ===== src/Flake/Github.antt =====
-- `branch_of`, `on_branch`, `cooled_head` and `cooled_commit` of scripts/flake_update.py.
-- Parameters: `github`, the JSON that api.github.com returns for a path, or the exception of the call;
-- `pushed_at`, which is `datetime.fromisoformat` as a number of microseconds. It raises TypeError for a
-- time without a zone, since the comparison that follows the call does.
pub mod Cooled
pub mod Moves
use nixos_homeserver.Base.{
  Bool, true, false, ◌&&◌, ◌||◌, not, Option, none, some, List, [], ◌∷◌, ◌++◌, if◌then◌else◌, ◌==◌,
  nat_eq, list_eq, Text, codes, join, ℤ, leb_ℤ, Result, ok, err, ◌>>=◌, type_error, for_each,
}
use nixos_homeserver.Base.Sort.{sorted, leb_text, to_set}
use nixos_homeserver.Base.Value.{
  Value, null, bool, num, str, arr, obj, py_eq, truthy, get, index, or_null, iterate, str_of,
}
use nixos_homeserver.Base.Value.Access.{first_ten}

-- `f"{v[:10]}"`
unfoldable pub short : Value → Result Text
short v = do w ← first_ten v; ok (str_of w)

-- `status in ("ahead", "identical")`
unfoldable pub on_line : Value → Bool
on_line status = py_eq status (str (codes "ahead")) || py_eq status (str (codes "identical"))

-- The path of a repository, and of a comparison of two commits
unfoldable pub repository : Value → Value → Text
repository owner repo = codes "/repos/" ++ str_of owner ++ codes "/" ++ str_of repo

unfoldable pub comparison : Value → Value → Value → Value → Text
unfolding repository
comparison owner repo base head =
    repository owner repo ++ codes "/compare/" ++ str_of base ++ codes "..." ++ str_of head

module _ (github : Text → Result Value) where
  -- `github(f"/repos/{owner}/{repo}/compare/{base}...{head}")["status"]`
  unfoldable pub compare_status : Value → Value → Value → Value → Result Value
  compare_status owner repo base head =
      github (comparison owner repo base head) >>= λ answer. index answer (codes "status")

  unfoldable pub branch_of : Value → Result Value
  branch_of original = do
    owner ← index original (codes "owner")
    repo ← index original (codes "repo")
    ref ← get original (codes "ref")
    elim (truthy (or_null ref)) [
      | true ↦ ok (or_null ref)
      | false ↦ github (repository owner repo) >>= λ answer. index answer (codes "default_branch")
    ]

  -- Why `new` is not a descendant of `old` still on `branch`, or `none`
  unfoldable pub on_branch : Value → Value → Value → Value → Value → Result (Option Text)
  on_branch owner repo branch old new = do
    status ← compare_status owner repo old new
    elim (py_eq status (str (codes "ahead"))) [
      | false ↦ do
        n ← short new
        o ← short old
        ok (some (n ++ codes " does not descend from " ++ o))
      | true ↦ do
        on ← compare_status owner repo new branch
        elim (on_line on) [
          | false ↦ short new >>= λ n. ok (some (n ++ codes " is not on " ++ str_of branch))
          | true ↦ ok none
        ]
    ]

-- `p["timestamp"][:10]` as a member of a set: a list has no hash.
hashed_day : Value → Result Text
hashed_day (str s) = ok s
hashed_day _ = err type_error

forced_day : Value → Result (List Text)
unfolding hashed_day
forced_day p = do
  kind ← index p (codes "activity_type")
  elim (py_eq kind (str (codes "force_push"))) [
    | false ↦ ok []
    | true ↦ do
      time ← index p (codes "timestamp")
      day ← first_ten time
      text ← hashed_day day
      ok (text ∷ [])
  ]

-- `sorted({p["timestamp"][:10] for p in pushes if p["activity_type"] == "force_push"})`
unfoldable pub forced_days : List Value → Result (List Text)
unfolding forced_day
forced_days pushes = do days ← for_each forced_day pushes; ok (sorted leb_text (to_set days))

-- What `cooled_head` returns: a sha (`null` for None), the time of the push, the force pushes.
pub record Head : Type 0 where
  pub sha : Value
  pub at : Option ℤ
  pub forced : List Text

module _ (pushed_at : Value → Result ℤ) (cutoff : ℤ) where
  -- The test of the loop: pushed long enough ago, and not the deletion of the branch. The second
  -- operand of `and` is evaluated only if the first one is true.
  unfoldable pub eligible : Value → Result (Option ℤ)
  eligible p = do
    time ← index p (codes "timestamp")
    at ← pushed_at time
    elim (leb_ℤ at cutoff) [
      | false ↦ ok none
      | true ↦ do
        kind ← index p (codes "activity_type")
        ok (if py_eq kind (str (codes "branch_deletion")) then none else some at)
    ]

  unfoldable pub newest : List Text → List Value → Result Head
  newest forced [] = ok (record { sha = null; at = none; forced = forced })
  newest forced (p ∷ pushes) =
      let rest = newest forced pushes in
      eligible p >>= λ found. elim found [
        | none ↦ rest
        | some at ↦ index p (codes "after") >>= λ sha.
            ok (record { sha = sha; at = some at; forced = forced })
      ]

unfoldable pub activity : Value → Value → Value → Text
activity owner repo branch =
    repository owner repo
    ++ codes "/activity?ref=refs/heads/"
    ++ str_of branch
    ++ codes "&per_page=100"

-- The newest push to the branch that is at most as recent as `cutoff`
unfoldable pub cooled_head :
    (Text → Result Value) → (Value → Result ℤ) → ℤ → Value → Value → Value → Result Head
cooled_head github pushed_at cutoff owner repo branch = do
  answer ← github (activity owner repo branch)
  pushes ← iterate answer
  forced ← forced_days pushes
  newest pushed_at cutoff forced pushes

-- What `cooled_commit` returns: a sha (`null` to leave the input as it is), the time, the notes.
pub record Commit : Type 0 where
  pub sha : Value
  pub at : Option ℤ
  pub notes : List Text

-- `sha is None`
unfoldable pub is_none : Value → Bool
is_none null = true
is_none _ = false

force_notes : List Text → List Text
force_notes [] = []
force_notes (day ∷ days) =
    (codes "force pushes recorded on " ++ join (codes ", ") (day ∷ days)) ∷ []

unfoldable pub left_alone : Head → List Text → Result Commit
unfolding force_notes
left_alone head notes =
    ok (record { sha = null; at = head.at; notes = force_notes head.forced ++ notes })

module _ (github : Text → Result Value) where
  -- What follows the comparison of the head with the locked commit
  unfoldable pub judge_head : Value → Value → Value → Head → Value → Value → Result Commit
  unfolding left_alone
  judge_head owner repo branch head rev status =
      if py_eq status (str (codes "behind"))
      then left_alone head (codes "the locked commit is newer than the cooled head" ∷ [])
      else if not (py_eq status (str (codes "ahead")))
      then (do
        s ← short head.sha
        r ← short rev
        left_alone head ((s ++ codes " does not descend from " ++ r) ∷ []))
      else compare_status github owner repo head.sha branch >>= λ on.
          if on_line on
          then ok (record { sha = head.sha; at = head.at; notes = force_notes head.forced })
          else short head.sha >>= λ s.
              left_alone head ((s ++ codes " is not on " ++ str_of branch) ∷ [])

  unfoldable pub cooled_commit : (Value → Result ℤ) → ℤ → Value → Value → Result Commit
  unfolding left_alone
  cooled_commit pushed_at cutoff original locked = do
    owner ← index original (codes "owner")
    repo ← index original (codes "repo")
    branch ← branch_of github original
    head ← cooled_head github pushed_at cutoff owner repo branch
    elim (is_none head.sha) [
      | true ↦ left_alone head (codes "no push old enough in the activity log" ∷ [])
      | false ↦ do
        rev ← index locked (codes "rev")
        elim (py_eq head.sha rev) [
          | true ↦ left_alone head []
          | false ↦ do
            status ← compare_status github owner repo rev head.sha
            judge_head owner repo branch head rev status
        ]
    ]
