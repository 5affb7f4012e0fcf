-- ===== src/Flake/Closure.antt =====
-- `closure_report` of scripts/flake_update.py.
use nixos_homeserver.Base.{
  ℕ, zero, suc, Bool, true, false, ◌&&◌, ◌||◌, not, List, [], ◌∷◌, ◌++◌, if◌then◌else◌, ltb, leb,
  ◌==◌, nat_eq, list_eq, contains, Text, codes, show, join,
}
use nixos_homeserver.Base.Lists.{length, select}
use nixos_homeserver.Base.Texts.Lines.{strip, splitlines}

-- The length of what `\[[0-9;]*m` matches at the start of a text, or 0
code_tail : ℕ → Text → ℕ
code_tail n [] = 0
code_tail n (c ∷ s) =
    let rest = code_tail (suc n) s in
    if c == b'm' then suc n else if (leb b'0' c && leb c b'9') || c == b';' then rest else 0

code_length : Text → ℕ
unfolding code_tail
code_length [] = 0
code_length (c ∷ s) = if c == b'[' then code_tail 1 s else 0

-- `ANSI.sub("", s)`, with the number of characters of the current match that are still to be left out
without_codes : ℕ → Text → Text
unfolding code_length
without_codes k [] = []
without_codes (suc k) (c ∷ s) = without_codes k s
without_codes zero (c ∷ s) = elim (c == 27 && ltb 0 (code_length s)) [
  | true ↦ without_codes (code_length s) s
  | false ↦ c ∷ without_codes zero s
]

-- `"→" in line and "∅" not in line`
is_version : Text → Bool
is_version line = contains line 8594 && not (contains line 8709)

or_no_lines : List Text → Text
or_no_lines [] = codes "(none)"
or_no_lines (line ∷ lines) = join (10 ∷ []) (line ∷ lines)

-- The changes of versions, and the whole list folded away, from what `nix store diff-closures` prints
unfoldable pub closure_report : Text → List Text × List Text
unfolding without_codes is_version or_no_lines
closure_report stdout =
    let lines = splitlines (strip (without_codes zero stdout)) in
    let versions = select is_version lines in
    (
      []
          ∷ codes "### Package changes on the nuc"
          ∷ []
          ∷ (codes "From `nix store diff-closures`: "
              ++ show (length versions)
              ++ codes " version changes:")
          ∷ []
          ∷ codes "```"
          ∷ or_no_lines versions
          ∷ codes "```"
          ∷ []
          ∷ [],
      codes "<details>"
          ∷ (codes "<summary>Every change (" ++ show (length lines) ++ codes " lines)</summary>")
          ∷ []
          ∷ codes "```"
          ∷ or_no_lines lines
          ∷ codes "```"
          ∷ []
          ∷ codes "</details>"
          ∷ []
          ∷ [],
    )
