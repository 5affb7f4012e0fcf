-- ===== src/Issues/Rewriting.antt =====
-- The references in the body of an issue, which `main` of scripts/file_issues.py rewrites.
-- Parameter: `digit`, the characters that \d matches.
pub mod Alike
pub mod Match
pub mod Settled
pub mod Rounds
use nixos_homeserver.Base.{
  ℕ, zero, suc, ◌+◌, Bool, Option, none, some, List, [], ◌∷◌, ◌++◌, ◌==◌, list_eq, nat_eq, Text,
  codes,
}
use nixos_homeserver.Base.Lists.{length}
use nixos_homeserver.Base.Dict.{Dict, lookup}
use nixos_homeserver.Base.Value.{Value, str_of}
use nixos_homeserver.Issues.Tickets.{reference_at}

module _ (digit : ℕ → Bool) (id_to_num : Dict Text Value) where
  -- What the λ returns for the match of a group
  unfoldable pub replacement : Text → Text
  replacement id = elim (lookup id id_to_num) [
    | some number ↦ b'#' ∷ str_of number
    | none ↦ b'[' ∷ (id ++ b']' ∷ [])
  ]

  -- `re.sub`, after the next `skip` characters, which belong to a match
  unfoldable pub rewritten_from : ℕ → Text → Text
  unfolding replacement
  rewritten_from skip [] = []
  rewritten_from (suc skip) (c ∷ s) = rewritten_from skip s
  rewritten_from zero (c ∷ s) = elim (reference_at digit (c ∷ s)) [
    | none ↦ c ∷ rewritten_from zero s
    | some id ↦ replacement id ++ rewritten_from (suc (length id)) s
  ]

  unfoldable pub rewritten : Text → Text
  rewritten s = rewritten_from 0 s
