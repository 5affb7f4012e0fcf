-- ===== src/Tests/Rerun.antt =====
-- The theorems on whole runs of `main` of scripts/file_issues.py at concrete inputs: a run that may not
-- write, and a run when GitHub has everything.
use nixos_homeserver.Base.{
  true, Option, none, some, List, [], ◌∷◌, if◌then◌else◌, ◌==◌, list_eq, nat_eq, contains, map,
  Text, codes, show, pos, ok, ◌≡◌, refl, digits_fuel, ◌≢◌, ◌⊎◌,
}
use nixos_homeserver.Base.Lists.{All, length}
use nixos_homeserver.Base.Dict.{lookup, insert, keys}
use nixos_homeserver.Base.Value.{null, num, str, arr, obj, nil, cons, end, field, index, iterate}
use nixos_homeserver.Base.Value.Access.{is_in}
use nixos_homeserver.Issues.Paged.{
  Response, returns, page_path, paged, paged_from, next_page, expect,
}
use nixos_homeserver.Issues.Tickets.{references, check_tickets}
use nixos_homeserver.Issues.Program.{Event, Request, ◌>>=◌, run, return, api_url, list_all}
use nixos_homeserver.Issues.Filing.{file_all, main}
use nixos_homeserver.Issues.Listings.{Label, set_item, numbers, names, issues}
use nixos_homeserver.Issues.Filing.Rerun.{Complete, file_all-Reads}
use nixos_homeserver.Issues.Filing.Unchanged.{Reads}
use nixos_homeserver.Issues.Filing.Checked.{Offline, main-Offline}
use nixos_homeserver.Tests.Filing.{ascii_digit, issue, tickets, created_7}

abbrev milestones : List (Text × Text)
milestones = (codes "Phase 0", codes "First") ∷ []

abbrev labels : List Label
labels = record { name = codes "area:nix"; color = codes "5319e7"; description = codes "Nix" } ∷ []

no_variable : Text → Option Text
no_variable name = none

abbrev dry : List Text
dry = codes "file_issues.py" ∷ codes "--dry-run" ∷ []

main-Offline_example :
    ((main ascii_digit created_7 10 no_variable milestones labels tickets dry []).0
        ≡ some (returns tt)
      → check_tickets ascii_digit (map (λ l. l.name) labels) (length milestones) tickets ≡ ok [])
    × ((contains dry (codes "--dry-run") ≡ true)
          ⊎ (check_tickets ascii_digit (map (λ l. l.name) labels) (length milestones) tickets
              ≢ ok [])
        → All Offline
            (main ascii_digit created_7 10 no_variable milestones labels tickets dry []).1)
main-Offline_example =
    main-Offline ascii_digit created_7 10 no_variable milestones labels tickets dry []

-- A GitHub that has all of this
abbrev page : Text → Text
page path = api_url (page_path path 1)

abbrev filled : List Event → Request → Response
filled done r = record {
  status = 200;
  body =
      if r.url == page (codes "/milestones?state=all")
      then arr (cons (issue 1 (codes "Phase 0") null) nil)
      else if r.url == page (codes "/labels")
      then arr (cons (obj (field (codes "name") (str (codes "area:nix")) end)) nil)
      else arr (
          cons (issue 7 (codes "Boot") (str (codes "First.")))
            (cons (issue 8 (codes "Deploy") (str (codes "After #7."))) nil));
}

complete : Complete ascii_digit filled 1 (codes "token") milestones labels tickets
unfolding ◌>>=◌ run return numbers names issues set_item index lookup insert is_in list_all paged
    paged_from next_page expect page_path iterate codes list_eq nat_eq show digits_fuel keys
    references ascii_digit
complete = record {
  milestone_entries = issue 1 (codes "Phase 0") null ∷ [];
  label_entries = obj (field (codes "name") (str (codes "area:nix")) end) ∷ [];
  issue_entries =
      issue 7 (codes "Boot") (str (codes "First."))
      ∷ issue 8 (codes "Deploy") (str (codes "After #7."))
      ∷ [];
  have = (codes "Phase 0", num (pos 1)) ∷ [];
  have_labels = (codes "area:nix", tt) ∷ [];
  existing =
      (codes "Boot", issue 7 (codes "Boot") (str (codes "First.")))
      ∷ (codes "Deploy", issue 8 (codes "Deploy") (str (codes "After #7.")))
      ∷ [];
  milestones_listed = λ done. refl;
  labels_listed = λ done. refl;
  issues_listed = λ done. refl;
  have_is = λ done. refl;
  have_labels_is = λ done. refl;
  existing_is = λ done. refl;
  all_milestones = (refl, tt);
  all_labels = (refl, tt);
  all_issues = (
    record {
      issue = issue 7 (codes "Boot") (str (codes "First."));
      number = num (pos 7);
      body = codes "First.";
      exists = refl;
      number_is = refl;
      body_is = refl;
      settled = tt;
    },
    (
      record {
        issue = issue 8 (codes "Deploy") (str (codes "After #7."));
        number = num (pos 8);
        body = codes "After #7.";
        exists = refl;
        number_is = refl;
        body_is = refl;
        settled = tt;
      },
      tt,
    ),
  );
}

file_all-Reads_example :
    ((file_all ascii_digit filled 1 no_variable milestones labels tickets (codes "token") []).0
      ≡ some (returns tt))
    × All Reads
        (file_all ascii_digit filled 1 no_variable milestones labels tickets (codes "token") []).1
file_all-Reads_example =
    file_all-Reads ascii_digit filled 1 no_variable milestones labels tickets (codes "token")
      complete []
