-- ===== src/Tests/Update.antt =====
-- Runs of the model of the update job of scripts/flake_update.py, and its theorems at concrete inputs.
use nixos_homeserver.Base.{
  ℕ, ◌≤◌, ◌++◌, true, false, Option, some, List, [], ◌∷◌, ◌≡◌, refl, if◌then◌else◌, ◌==◌, Text,
  codes, ℤ, pos, Result, ok, err, value_error, nat_eq, list_eq, int_eq, show, show_int, starts_with,
  join, for_each, String,
}
use nixos_homeserver.Base.Lists.{All, length, select}
use nixos_homeserver.Base.Dict.{keys, lookup, insert}
use nixos_homeserver.Base.Sort.{sorted, leb_text, to_set}
use nixos_homeserver.Base.Value.{
  Value, arr, obj, nil, cons, end, field, py_eq, repr, str_of, truthy, get, index, iterate,
  dict_items,
}
use nixos_homeserver.Base.Value.Access.{members, first_ten}
use nixos_homeserver.Flake.Lock.{direct_inputs}
use nixos_homeserver.Flake.Github.{
  short, on_line, repository, comparison, compare_status, branch_of, forced_days, eligible, newest,
  activity, cooled_head, is_none, left_alone, judge_head, cooled_commit,
}
use nixos_homeserver.Flake.Cves.{
  Packages, Scan, timed_out, exited, Tries, vulnix_once, vulnix_from, vulnix,
}
use nixos_homeserver.Flake.Cves.Retried.{FirstFrom, vulnix-FirstFrom}
use nixos_homeserver.Flake.Cves.Compared.{section, count_of, cve_diff-section}
use nixos_homeserver.Flake.Cves.{ids_of, cve_diff}
use nixos_homeserver.Flake.Update.{
  moved_step, looked_up, update_input, Job, Update, limited, other_inputs, cmd_update,
}
use nixos_homeserver.Flake.Update.Overrides.{Override, cmd_update-Override}
use nixos_homeserver.Flake.Check.{nixpkgs}
use nixos_homeserver.Flake.Update.Commands.{length-cmd_update}
use nixos_homeserver.Tests.Locks.{text, old_lock, new_lock, github, pushed_at, cutoff, describe}

-- The first two attempts time out, and the third one finds two packages with three ids.
abbrev scans : ℕ → Scan
scans n = if n == 3 then exited (pos 2) (codes "packages") else timed_out

abbrev scanned : String → Value → Value
scanned name ids = obj (
    field (codes "pname") (text name)
      (field (codes "version") (text "1") (field (codes "affected_by") ids end)))

abbrev loads : Text → Result Value
loads s =
    if s == codes "packages"
    then ok (
        arr (
          cons (scanned "curl" (arr (cons (text "CVE-1") (cons (text "CVE-2") nil))))
            (cons (scanned "glibc" (arr (cons (text "CVE-3") nil))) nil)))
    else err value_error

abbrev old_packages : Packages
old_packages =
    (codes "curl-1", codes "CVE-1" ∷ codes "CVE-2" ∷ [])
    ∷ (codes "glibc-1", codes "CVE-3" ∷ [])
    ∷ []

abbrev new_packages : Packages
new_packages = (codes "curl-2", codes "CVE-2" ∷ codes "CVE-4" ∷ []) ∷ []

abbrev tries : Tries
tries = record { found = some old_packages; slept = 30 ∷ 60 ∷ [] }

scan : ℕ → Result Tries
unfolding vulnix vulnix_from vulnix_once members index get lookup insert str_of codes nat_eq list_eq
    int_eq to_set select
scan = vulnix loads scans

scan_run : scan 3 ≡ ok tries
unfolding scan
scan_run = refl

vulnix-FirstFrom_example : FirstFrom loads scans 1 3 (some old_packages)
vulnix-FirstFrom_example = vulnix-FirstFrom loads scans 3 {tries = tries} (unfold scan in refl)

cve_diff-section_example :
    cve_diff (some old_packages) (some new_packages)
    ≡ (show (length (ids_of old_packages))
        ++ codes " CVE ids before, "
        ++ show (length (ids_of new_packages))
        ++ codes " after: "
        ++ show (count_of old_packages new_packages)
        ++ codes " no longer reported, "
        ++ show (count_of new_packages old_packages)
        ++ codes " newly reported.")
      ∷ []
      ∷ (section (codes "Newly reported") new_packages old_packages
          ++ section (codes "No longer reported") old_packages new_packages)
cve_diff-section_example = cve_diff-section old_packages new_packages

abbrev job : Job
job = record {
  others = true;
  report = false;
  days = pos 7;
  diff_closures = [];
  old_scans = scans;
  new_scans = scans;
}

abbrev day : Option ℤ → Text
day time = codes "2023-11-20"

update : Value → Value → Result Update
unfolding cmd_update other_inputs update_input looked_up moved_step limited scan direct_inputs
    cooled_commit judge_head left_alone cooled_head newest eligible forced_days activity branch_of
    compare_status comparison repository on_line is_none short first_ten iterate dict_items truthy
    py_eq repr sorted leb_text for_each join show show_int starts_with keys
update = cmd_update github pushed_at cutoff describe day loads job

abbrev update_of : Result Update → Update
update_of (ok u) = u
update_of (err e) = record { commands = []; report = []; changed = false }

abbrev the_update : Update
the_update = update_of (update old_lock new_lock)

length-cmd_update_example : length the_update.report ≤ 50000
length-cmd_update_example =
    length-cmd_update github pushed_at cutoff describe day loads job old_lock new_lock
      {done = the_update} (unfold update in refl)

cmd_update-Override_example :
    (moves : List (List Text)) × (the_update.commands
      ≡ (codes "nix" ∷ codes "flake" ∷ codes "update" ∷ nixpkgs ∷ []) ∷ moves)
    × All (Override github pushed_at cutoff describe day old_lock) moves
cmd_update-Override_example =
    cmd_update-Override github pushed_at cutoff describe day old_lock loads job new_lock
      {done = the_update} (unfold update in refl)
