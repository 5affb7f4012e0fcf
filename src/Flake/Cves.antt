-- ===== src/Flake/Cves.antt =====
-- `vulnix`, `vulnix_once` and `cve_diff` of scripts/flake_update.py.
-- Parameters: `loads`, which is `json.loads`, and how each run of vulnix ends.
pub mod Retried
pub mod Ids
pub mod Compared
use nixos_homeserver.Base.{
  ℕ, zero, suc, ◌+◌, ◌*◌, Bool, true, false, ◌&&◌, ◌||◌, Option, none, some, List, [], ◌∷◌, ◌++◌,
  if◌then◌else◌, ◌==◌, nat_eq, list_eq, contains, Text, codes, show, join, ℤ, pos, int_eq, Result,
  ok, err, ◌>>=◌, value_error,
}
use nixos_homeserver.Base.Lists.{length, select, difference}
use nixos_homeserver.Base.Dict.{Dict, lookup, insert}
use nixos_homeserver.Base.Sort.{sorted, leb_text, to_set}
use nixos_homeserver.Base.Value.{
  Value, arr, Items, nil, cons, get, index, items, or_default, str_of,
}
use nixos_homeserver.Base.Value.Access.{members}

-- The CVE ids of each package
abbrev pub Packages : Type 0
Packages = Dict Text (List Text)

-- How a run of vulnix ends: after ten minutes, or with an exit status and its standard output
pub data Scan : Type 0 where
  timed_out : Scan
  exited : ℤ → Text → Scan

-- `{f"{p['pname']}-{p['version']}": set(p.get("affected_by", [])) for p in data}`
packages_from : Packages → List Value → Result Packages
packages_from found [] = ok found
packages_from found (p ∷ data') = do
  name ← index p (codes "pname")
  version ← index p (codes "version")
  affected ← get p (codes "affected_by")
  ids ← members (or_default affected (arr nil))
  packages_from (insert (str_of name ++ codes "-" ++ str_of version) ids found) data'

-- What is made of the JSON on the standard output
parsed : ℤ → Result Value → Result (Option Packages)
unfolding packages_from
parsed code (err value_error) = ok none
parsed code (err e) = err e
parsed code (ok (arr nil)) = if code == pos 2 then ok none else ok (some [])
parsed code (ok (arr (cons v vs))) = packages_from [] (v ∷ items vs) >>= λ found. ok (some found)
parsed code (ok _) = ok none

-- The packages, and the seconds that the program sleeps between attempts
pub record Tries : Type 0 where
  pub found : Option Packages
  pub slept : List ℕ

module _ (loads : Text → Result Value) where
  unfoldable pub vulnix_once : Scan → Result (Option Packages)
  unfolding parsed
  vulnix_once timed_out = ok none
  vulnix_once (exited code stdout) =
      if code == pos 0 || code == pos 2 then parsed code (loads stdout) else ok none

  module _ (scans : ℕ → Scan) where
    -- The attempts from `attempt` on, of which there are `left`
    unfoldable pub vulnix_from : ℕ → ℕ → Result Tries
    vulnix_from attempt zero = ok (record { found = none; slept = [] })
    vulnix_from attempt (suc left) =
        let rest = vulnix_from (suc attempt) left in
        vulnix_once (scans attempt) >>= λ result. elim result [
          | some packages ↦ ok (record { found = some packages; slept = [] })
          | none ↦ rest >>= λ later. ok (record {
            found = later.found;
            slept = if left == 0 then later.slept else (30 * attempt) ∷ later.slept;
          })
        ]

    unfoldable pub vulnix : ℕ → Result Tries
    vulnix attempts = vulnix_from 1 attempts

-- `set().union(*packages.values())`
all_ids : Packages → List Text
all_ids [] = []
all_ids ((name, ids) ∷ packages) = ids ++ all_ids packages

unfoldable pub ids_of : Packages → List Text
unfolding all_ids
ids_of packages = to_set (all_ids packages)

-- `old_ids - new_ids`, sorted
unfoldable pub only_in : Packages → Packages → List Text
only_in old new = sorted leb_text (difference (ids_of old) (ids_of new))

-- The packages in order, with those of their ids that are in `ids`
unfoldable pub package_lines : List Text → Packages → List (Text × List Text) → List Text
package_lines ids pkgs [] = []
package_lines ids pkgs ((pkg, affected) ∷ rest) =
    let hit = sorted leb_text (select (contains ids) affected) in
    let lines = package_lines ids pkgs rest in
    if hit == []
    then lines
    else (codes "- `" ++ pkg ++ codes "`: " ++ join (codes ", ") hit) ∷ lines

unfoldable pub section_lines : Text → List Text → Packages → List Text
unfolding package_lines
section_lines title ids pkgs =
    if ids == []
    then []
    else (codes "**" ++ title ++ codes ":**")
      ∷ []
      ∷ (package_lines ids pkgs (sorted (λ a b. leb_text a.0 b.0) pkgs) ++ [] ∷ [])

unfoldable pub cve_diff : Option Packages → Option Packages → List Text
unfolding section_lines
cve_diff (some old) (some new) =
    let fixed = only_in old new in
    let added = only_in new old in
    (show (length (ids_of old))
      ++ codes " CVE ids before, "
      ++ show (length (ids_of new))
      ++ codes " after: "
      ++ show (length fixed)
      ++ codes " no longer reported, "
      ++ show (length added)
      ++ codes " newly reported.")
    ∷ []
    ∷ (section_lines (codes "Newly reported") added new
        ++ section_lines (codes "No longer reported") fixed old)
cve_diff _ _ = codes "vulnix failed; see the workflow log. No CVE comparison." ∷ [] ∷ []
