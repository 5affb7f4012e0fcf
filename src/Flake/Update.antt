-- ===== src/Flake/Update.antt =====
-- `cmd_update` of scripts/flake_update.py.
-- Parameters: those of Flake/Github.antt and Flake/Cves.antt; `day`, the date of a time as
-- %Y-%m-%d writes it; `describe`, the `repr` of an exception; and what the programs that the job runs
-- give: the two toplevels, the output of `nix store diff-closures`, the new flake.lock.
pub mod Commands
pub mod Overrides
use nixos_homeserver.Base.{
  ℕ, zero, suc, ◌-◌, Bool, true, false, ◌&&◌, ◌||◌, not, Option, none, some, List, [], ◌∷◌, ◌++◌,
  if◌then◌else◌, ltb, leb, ◌==◌, nat_eq, list_eq, contains, Text, codes, show, join, ℤ, show_int,
  Exception, Result, ok, err, ◌>>=◌, attribute_error, for_each,
}
use nixos_homeserver.Base.Lists.{length, take, select}
use nixos_homeserver.Base.Sort.{sorted, leb_text}
use nixos_homeserver.Base.Texts.Lines.{strip, splitlines}
use nixos_homeserver.Base.Value.{Value, str, py_eq, get, index, or_null, str_of}
use nixos_homeserver.Flake.Lock.{direct_inputs}
use nixos_homeserver.Flake.Github.{short, Commit, is_none, cooled_commit}
use nixos_homeserver.Flake.Check.{nixpkgs}
use nixos_homeserver.Flake.Cves.{Packages, Scan, Tries, vulnix, cve_diff}
use nixos_homeserver.Flake.Closure.{closure_report}

-- What a round of the loop over the inputs reports, and the command that it runs
pub record Step : Type 0 where
  pub line : Text
  pub command : Option (List Text)

-- `f" ({'; '.join(notes)})" if notes else ""`
extra_of : List Text → Text
extra_of [] = []
extra_of (note ∷ notes) = codes " (" ++ join (codes "; ") (note ∷ notes) ++ codes ")"

entry : Text → Text → Step
entry name rest = record { line = codes "- `" ++ name ++ codes "`: " ++ rest; command = none }

module _ (github : Text → Result Value) (pushed_at : Value → Result ℤ) (cutoff : Text → ℤ)
    (describe : Exception → Text) (day : Option ℤ → Text) where
  -- What follows the `try`: the command that moves the input to the commit
  unfoldable pub moved_step : Text → Value → Commit → Result Step
  unfolding extra_of entry
  moved_step name original commit = elim (is_none commit.sha) [
    | true ↦ ok (entry name (codes "unchanged" ++ extra_of commit.notes ++ codes "."))
    | false ↦ do
      sha ← short commit.sha
      owner ← index original (codes "owner")
      repo ← index original (codes "repo")
      ok (record {
        line =
            codes "- `"
            ++ name
            ++ codes "`: `"
            ++ sha
            ++ codes "`, pushed "
            ++ day commit.at
            ++ extra_of commit.notes
            ++ codes ".";
        command = some (
            codes "nix"
            ∷ codes "flake"
            ∷ codes "lock"
            ∷ codes "--override-input"
            ∷ name
            ∷ (codes "github:"
                ++ str_of owner
                ++ codes "/"
                ++ str_of repo
                ++ codes "/"
                ++ str_of commit.sha)
            ∷ []);
      })
  ]

  -- `except NET_ERRORS`
  unfoldable pub looked_up : Text → Value → Result Commit → Result Step
  unfolding entry
  looked_up name original (ok commit) = moved_step name original commit
  looked_up name original (err attribute_error) = err attribute_error
  looked_up name original (err e) =
      ok (entry name (codes "lookup failed (" ++ describe e ++ codes "), left as is."))

  unfoldable pub update_input : Text → Value → Result (List Step)
  unfolding entry nixpkgs
  update_input name node = elim (name == nixpkgs) [
    | true ↦ ok []
    | false ↦ do
      original ← index node (codes "original")
      locked ← index node (codes "locked")
      type ← get original (codes "type")
      elim (py_eq (or_null type) (str (codes "github"))) [
        | false ↦ ok (entry name (codes "not a GitHub input, left as is.") ∷ [])
        | true ↦ do
          step ←
              looked_up name original (cooled_commit github pushed_at (cutoff name) original locked)
          ok (step ∷ [])
      ]
  ]

-- What the options of the command say, and what the programs that the job runs give
pub record Job : Type 0 where
  pub others : Bool
  pub report : Bool
  pub days : ℤ
  pub diff_closures : Text
  pub old_scans : ℕ → Scan
  pub new_scans : ℕ → Scan

-- What the job leaves: the commands that changed flake.lock, report.md, and `changed`, with which the
-- new lock is copied
pub record Update : Type 0 where
  pub commands : List (List Text)
  pub report : Text
  pub changed : Bool

limit : ℕ
limit = 50000

-- The report, without the long list if it would be too long with it
unfoldable pub limited : List Text → List Text → Text
unfolding limit
limited report full =
    let text = join (10 ∷ []) (report ++ full) ++ 10 ∷ [] in
    if ltb limit (length text)
    then take limit
        (join (10 ∷ []) (report ++ codes "(Every change: see the workflow log.)" ∷ []) ++ 10 ∷ [])
    else take limit text

lines_of : List Step → List Text
lines_of [] = []
lines_of (s ∷ steps) = s.line ∷ lines_of steps

commands_of : List Step → List (List Text)
commands_of [] = []
commands_of (s ∷ steps) =
    let rest = commands_of steps in elim s.command [ none ↦ rest | some c ↦ c ∷ rest ]

cve_lines : Job → Option Packages → Option Packages → List Text
cve_lines job old new =
    codes "### CVEs in the nuc's runtime closure"
    ∷ []
    ∷ codes
        "From vulnix. It matches package names against the NVD (National Vulnerability Database) and does not know which fixes nixpkgs has patched in, so treat it as a pointer, not a verdict."
    ∷ []
    ∷ cve_diff old new

-- The two scans: the second one is made only if the first one gave a result, and is not tried again.
second_scan : (Text → Result Value) → Job → Option Packages → Result (Option Packages)
second_scan loads job none = ok none
second_scan loads job (some old) = vulnix loads job.new_scans 1 >>= λ tries. ok tries.found

-- The lines before the long list, and the long list
change_report : (Text → Result Value) → Job → Bool → Result (List Text × List Text)
unfolding cve_lines second_scan
change_report loads job changed = elim (changed && job.report) [
  | false ↦ ok ([], [])
  | true ↦ do
    old ← vulnix loads job.old_scans 3
    new ← second_scan loads job old.found
    let (short_list, full) = closure_report job.diff_closures
    ok (short_list ++ cve_lines job old.found new, full)
]

module _ (github : Text → Result Value) (pushed_at : Value → Result ℤ) (cutoff : Text → ℤ)
    (describe : Exception → Text) (day : Option ℤ → Text) where
  -- `sorted(direct_inputs(old_lock).items())`, and the loop over them
  unfoldable pub other_inputs : Value → Result (List Step)
  other_inputs old_lock = do
    inputs ← direct_inputs old_lock
    for_each (λ i. update_input github pushed_at cutoff describe day i.0 i.1)
        (sorted (λ a b. leb_text a.0 b.0) inputs)

  input_lines : Job → Value → Result (List Text × List (List Text))
  unfolding lines_of commands_of
  input_lines job old_lock = elim job.others [
    | false ↦ ok (codes "Other inputs: not updated this week (monthly)." ∷ [], [])
    | true ↦ do
      steps ← other_inputs old_lock
      ok (
        (codes "Other inputs: the branch head as pushed at least "
              ++ show_int job.days
              ++ codes " days ago.")
            ∷ []
            ∷ lines_of steps,
        commands_of steps,
      )
  ]

  unfoldable pub cmd_update : (Text → Result Value) → Job → Value → Value → Result Update
  unfolding input_lines change_report
  cmd_update loads job old_lock new_lock = do
    inputs ← input_lines job old_lock
    let changed = not (py_eq new_lock old_lock)
    changes ← change_report loads job changed
    ok (record {
      commands = (codes "nix" ∷ codes "flake" ∷ codes "update" ∷ nixpkgs ∷ []) ∷ inputs.1;
      report = limited (inputs.0 ++ changes.0) changes.1;
      changed = changed;
    })
