-- ===== src/Compose/Run.antt =====
-- `declared_file` and `main` of scripts/check_compose.py.
-- Parameters: the files below STACKS_DIR, in the order of `sorted`, with their contents; the manifest,
-- which Nix writes; the file that a path relative to it names; and `yaml.safe_load`.
pub mod Status
use nixos_homeserver.Base.{
  ℕ, Bool, true, false, ◌&&◌, ◌||◌, not, Option, none, some, List, [], ◌∷◌, ◌++◌, if◌then◌else◌,
  ◌==◌, nat_eq, list_eq, contains, Text, codes, Result, ok, err,
}
use nixos_homeserver.Base.Lists.{any, select}
use nixos_homeserver.Base.Dict.{Dict, lookup}
use nixos_homeserver.Base.Sort.{sorted, leb_text}
use nixos_homeserver.Base.Value.{Value}
use nixos_homeserver.Compose.Problem.{Problem, Stack, rule_name}
use nixos_homeserver.Compose.File.{check_file}

abbrev pub Manifest : Type 0
Manifest = Dict Text Stack

-- A file below STACKS_DIR: its path from there, the name of its directory, its own name, its bytes.
pub record FoundFile : Type 0 where
  pub shown : Text
  pub parent : Text
  pub name : Text
  pub content : List ℕ

compose_names : List Text
compose_names =
    codes "compose.yml"
    ∷ codes "compose.yaml"
    ∷ codes "docker-compose.yml"
    ∷ codes "docker-compose.yaml"
    ∷ []

unfoldable pub compose_files : List FoundFile → List FoundFile
unfolding compose_names
compose_files found = select (λ p. contains compose_names p.name) found

-- What a part of the run prints, and whether it sets `failed`.
pub record Output : Type 0 where
  pub lines : List Text
  pub failed : Bool

abbrev then_output : Output → Output → Output
then_output a b = record { lines = a.lines ++ b.lines; failed = a.failed || b.failed }

-- What the program has printed when it ends, and its exit status.
pub record Outcome : Type 0 where
  pub printed : List Text
  pub status : ℕ

module _ (relative : Text → Option (List ℕ)) where
  bytes_or_empty : Option (List ℕ) → List ℕ
  bytes_or_empty none = []
  bytes_or_empty (some content) = content

  declared_at : Option Text → Option (List ℕ)
  unfolding bytes_or_empty
  declared_at none = none
  declared_at (some path) = if path == [] then none else some (bytes_or_empty (relative path))

  unfoldable pub declared_file : Stack → Option (List ℕ)
  unfolding declared_at
  declared_file stack = declared_at stack.compose_file

  -- The test of the loop over the stacks: a stack that names a file has it among those found.
  is_listed_as : List FoundFile → Text → Option (List ℕ) → Bool
  is_listed_as files name none = true
  is_listed_as files name (some declared) =
      any (λ p. p.parent == name && p.content == declared) files

  unfoldable pub is_listed : List FoundFile → Text × Stack → Bool
  unfolding is_listed_as
  is_listed files (name, stack) = is_listed_as files name (declared_file stack)

  unfoldable pub check_stacks : Text → List FoundFile → List (Text × Stack) → Output
  check_stacks root_name files [] = record { lines = []; failed = false }
  check_stacks root_name files (s ∷ stacks) =
      then_output
        (if is_listed files s then record { lines = []; failed = false } else record {
          lines =
              (s.0
                ++ codes ": unlisted-file: stack "
                ++ s.0
                ++ codes "'s compose file is not "
                ++ root_name
                ++ codes "/**/"
                ++ s.0
                ++ codes "/compose.yml")
              ∷ [];
          failed = true;
        })
        (check_stacks root_name files stacks)

show_problems : Text → List Problem → List Text
show_problems shown [] = []
show_problems shown (p ∷ ps) =
    (shown ++ codes ": " ++ rule_name p.rule ++ codes ": " ++ p.detail) ∷ show_problems shown ps

report : Text → List Problem → Output
unfolding show_problems
report shown [] = record { lines = (shown ++ codes ": ok") ∷ []; failed = false }
report shown (p ∷ ps) = record { lines = show_problems shown (p ∷ ps); failed = true }

reported : Text → Result (List Problem) → Result Output
unfolding report
reported shown (ok problems) = ok (report shown problems)
reported shown (err e) = err e

module _ (safe_load : List ℕ → Result Value) (manifest : Manifest) where
  check_known : FoundFile → Option Stack → Result Output
  unfolding reported
  check_known p none = ok (record {
    lines =
        (p.shown ++ codes ": unlisted-file: no stack named " ++ p.parent ++ codes " is declared")
        ∷ [];
    failed = true;
  })
  check_known p (some stack) = reported p.shown (check_file p.parent stack safe_load p.content)

  -- One round of the loop over the files
  unfoldable pub check_found : FoundFile → Result Output
  unfolding check_known
  check_found p = check_known p (lookup p.parent manifest)

  -- The loop over the files, and `sys.exit`. An exception ends the program with status 1.
  unfoldable pub check_files : List FoundFile → Output → Outcome
  check_files [] out = record { printed = out.lines; status = if out.failed then 1 else 0 }
  check_files (p ∷ files) out = elim (check_found p) [
    | ok here ↦ check_files files (then_output out here)
    | err e ↦ record { printed = out.lines; status = 1 }
  ]

  unfoldable pub main : (Text → Option (List ℕ)) → Text → List FoundFile → Outcome
  main relative root_name found =
      let files = compose_files found in
      check_files files
        (check_stacks relative root_name files (sorted (λ a b. leb_text a.0 b.0) manifest))
