-- ===== src/Flake/Check.antt =====
-- `cmd_check` of scripts/flake_update.py, with the locks as `json.loads` returns them.
-- Parameters: those of Flake/Github.antt; the cutoff of the call of `cooled_head` for each input, which
-- the clock gives; `describe`, the `repr` of an exception; `date_cell`, the text of a commit date and
-- its age in days; and the report of the update job.
pub mod Vetted
pub mod Accepts
use nixos_homeserver.Base.{
  Bool, true, false, ◌&&◌, not, Option, none, some, List, [], ◌∷◌, ◌++◌, if◌then◌else◌, ◌==◌,
  nat_eq, list_eq, contains, Text, codes, join, ℤ, show_int, Exception, Result, ok, err, ◌>>=◌,
  attribute_error, for_each,
}
use nixos_homeserver.Base.Lists.{take}
use nixos_homeserver.Base.Dict.{Dict, keys, lookup}
use nixos_homeserver.Base.Sort.{sorted, leb_text}
use nixos_homeserver.Base.Value.{Value, py_eq, truthy, get, index, or_null, str_of}
use nixos_homeserver.Base.Value.Access.{members}
use nixos_homeserver.Flake.Lock.{lock_problems, direct_inputs}
use nixos_homeserver.Flake.Github.{
  short, on_line, branch_of, on_branch, cooled_head, compare_status, is_none, Head,
}

unfoldable pub nixpkgs : Text
nixpkgs = codes "nixpkgs"

-- An input whose rev moved: its name, and what the two locks hold for it
pub record Moved : Type 0 where
  pub name : Text
  pub ol : Value
  pub nl : Value

-- `ol and ol.get("rev") != nl.get("rev")`
unfoldable pub rev_moved : Value → Value → Result Bool
rev_moved ol nl = elim (truthy ol) [
  | false ↦ ok false
  | true ↦ do
    a ← get ol (codes "rev")
    b ← get nl (codes "rev")
    ok (not (py_eq (or_null a) (or_null b)))
]

unfoldable pub moved_input : Value → Value → Text → Result (List Moved)
moved_input old_nodes new_nodes name = do
  o ← index old_nodes name
  ol ← get o (codes "locked")
  n ← index new_nodes name
  nl ← get n (codes "locked")
  differs ← rev_moved (or_null ol) (or_null nl)
  ok (if differs then record { name = name; ol = or_null ol; nl = or_null nl } ∷ [] else [])

-- `except NET_ERRORS`: AttributeError is not among them. A reason is never the empty text.
unfoldable pub caught : (Exception → Text) → Text → Result (Option Text) → Result (List Text)
caught describe name (ok none) = ok []
caught describe name (ok (some why)) = ok ((name ++ codes ": " ++ why) ∷ [])
caught describe name (err attribute_error) = err attribute_error
caught describe name (err e) =
    ok ((name ++ codes ": could not check (" ++ describe e ++ codes ")") ∷ [])

-- The message of `sys.exit`, or the text of the pull request
pub data Verdict : Type 0 where
  refused : List Text → Verdict
  written : Text → Verdict

module _ (github : Text → Result Value) (pushed_at : Value → Result ℤ) (cutoff : Text → ℤ)
    (days : ℤ) (describe : Exception → Text) where
  -- The cooldown of an input other than nixpkgs
  unfoldable pub not_cooled : Text → Value → Value → Value → Value → Result (Option Text)
  not_cooled name owner repo branch new = do
    head ← cooled_head github pushed_at (cutoff name) owner repo branch
    elim (is_none head.sha) [
      | true ↦ ok (
          some (
            codes "no push to "
            ++ str_of branch
            ++ codes " older than "
            ++ show_int days
            ++ codes " days in its activity log"))
      | false ↦ do
        status ← compare_status github owner repo new head.sha
        elim (on_line status) [
          | true ↦ ok none
          | false ↦ do
            n ← short new
            ok (
                some (
                  n
                  ++ codes " was not on "
                  ++ str_of branch
                  ++ codes " "
                  ++ show_int days
                  ++ codes " days ago"))
        ]
    ]

  -- The body of the `try`
  unfoldable pub why_not : Text → Value → Value → Value → Result (Option Text)
  unfolding nixpkgs
  why_not name original ol nl = do
    branch ← branch_of github original
    owner ← index ol (codes "owner")
    repo ← index ol (codes "repo")
    old ← index ol (codes "rev")
    new ← index nl (codes "rev")
    why ← on_branch github owner repo branch old new
    elim why [
      | some reason ↦ ok (some reason)
      | none ↦ elim (name == nixpkgs) [
        | true ↦ ok none
        | false ↦ not_cooled name owner repo branch new
      ]
    ]

  unfoldable pub check_moved : Value → Moved → Result (List Text)
  check_moved old m = do
    nodes ← index old (codes "nodes")
    o ← index nodes m.name
    original ← index o (codes "original")
    caught describe m.name (why_not m.name original m.ol m.nl)

  module _ (date_cell : Value → Result Text) where
    row : Dict Text Value → Moved → Result (List Text)
    row direct m = do
      owner ← index m.nl (codes "owner")
      repo ← index m.nl (codes "repo")
      old ← index m.ol (codes "rev")
      new ← index m.nl (codes "rev")
      modified ← index m.nl (codes "lastModified")
      date ← date_cell modified
      o ← short old
      n ← short new
      ok (
          (codes "| `"
            ++ m.name
            ++ (if contains (keys direct) m.name then codes "`" else codes "` (input of an input)")
            ++ codes " | `"
            ++ o
            ++ codes "` | `"
            ++ n
            ++ codes "` | "
            ++ date
            ++ codes " | [diff](https://github.com/"
            ++ str_of owner
            ++ codes "/"
            ++ str_of repo
            ++ codes "/compare/"
            ++ str_of old
            ++ codes "..."
            ++ str_of new
            ++ codes ") |")
          ∷ [])

    body : List Text → Text → List Text
    body rows report =
        codes "Automated weekly `flake.lock` update (ticket 2.2, #17; docs/runbooks/updates.md)."
        ∷ []
        ∷ codes
            "**To run CI (continuous integration): close this pull request and reopen it.** GitHub does not start workflows for pull requests opened by a workflow."
        ∷ []
        ∷ codes
            "Review the source diff of every input other than nixpkgs: each runs as root on the nuc once merged, and comin deploys it within a minute. Commit dates are the committer's own; the cooldown goes by push time instead."
        ∷ []
        ∷ codes "## Inputs"
        ∷ []
        ∷ (codes
              "Checked by the job that opens this pull request: every row in this table is a commit that descends from the old one on the input's branch and, except for nixpkgs, was there "
            ++ show_int days
            ++ codes
                " days ago. The commit date comes from the lock and is not checked; the committer sets it.")
        ∷ []
        ∷ codes "| Input | From | To | Commit date (unchecked) | Changes |"
        ∷ codes "|---|---|---|---|---|"
        ∷ (rows
            ++ []
              ∷ codes "## From the update job"
              ∷ []
              ∷ codes "Not checked: the job that wrote this also ran the new inputs' code."
              ∷ []
              ∷ take 50000 report
              ∷ []
              ∷ codes "🤖 Opened by `.github/workflows/update-flake-lock.yml`"
              ∷ [])

    -- From `if problems` on
    unfoldable pub conclude : Value → List Moved → Text → List Text → Result Verdict
    unfolding row body
    conclude new moved report (p ∷ problems) = ok (refused (p ∷ problems))
    conclude new moved report [] = do
      direct ← direct_inputs new
      rows ← for_each (row direct) moved
      ok (written (join (10 ∷ []) (body rows report) ++ 10 ∷ []))

    unfoldable pub moved_inputs : Value → Value → Result (List Moved)
    moved_inputs old new = do
      old_nodes ← index old (codes "nodes")
      names ← members old_nodes
      new_nodes ← index new (codes "nodes")
      for_each (moved_input old_nodes new_nodes) (sorted leb_text names)

    -- From `moved = []` on
    unfoldable pub after_lock : Value → Value → Text → List Text → Result Verdict
    after_lock old new report (p ∷ problems) = conclude new [] report (p ∷ problems)
    after_lock old new report [] = do
      moved ← moved_inputs old new
      found ← for_each (check_moved old) moved
      conclude new moved report found

    unfoldable pub cmd_check : Value → Value → Text → Result Verdict
    cmd_check old new report = lock_problems old new >>= after_lock old new report
