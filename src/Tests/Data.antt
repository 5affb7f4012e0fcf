-- ===== src/Tests/Data.antt =====
-- The data of scripts/tickets.py, as `check` of scripts/file_issues.py reads them.
use nixos_homeserver.Base.{
  ℕ, Bool, ◌&&◌, leb, List, [], ◌∷◌, ◌++◌, map, Text, Result, ok, ◌≡◌, refl, codes, nat_eq, list_eq,
  int_eq, show, int, split, for_each, join,
}
use nixos_homeserver.Base.Lists.{length, All, select}
use nixos_homeserver.Base.Sort.{sorted, to_set}
use nixos_homeserver.Issues.Tickets.{
  check_tickets, ticket_problems, label_problem, reference_problem, phase_of, is_id, references,
  sorted_ids, id_key, leb_key,
}
use nixos_homeserver.Issues.Data.{milestones, labels, tickets}
use nixos_homeserver.Issues.Data.Body.{ticket, body_of}
use nixos_homeserver.Issues.Data.References.{references_of, body_of-references}
use nixos_homeserver.Issues.Tickets.Checked.{Distinct, TicketOk, check_tickets-TicketOk}

ascii_digit : ℕ → Bool
ascii_digit c = leb b'0' c && leb c b'9'

check_data : Result (List Text)
unfolding check_tickets ticket_problems label_problem reference_problem phase_of is_id references
    sorted_ids id_key leb_key ascii_digit sorted to_set select for_each int split codes nat_eq
    list_eq int_eq show tickets labels milestones ticket
check_data = check_tickets ascii_digit (map (λ l. l.name) labels) (length milestones) tickets

check_data_run : check_data ≡ ok []
unfolding check_data join body_of
check_data_run = refl

-- The tickets of the repository pass the check.
check_tickets-TicketOk_example :
    Distinct (map (λ t. t.id) tickets)
    × Distinct (map (λ t. t.title) tickets)
    × (sorted_ids (map (λ t. t.id) tickets) ≡ ok (map (λ t. t.id) tickets))
    × All
        (TicketOk ascii_digit
          (map (λ l. l.name) labels)
          (length milestones)
          (map (λ t. t.id) tickets))
        tickets
check_tickets-TicketOk_example =
    check_tickets-TicketOk ascii_digit (map (λ l. l.name) labels) (length milestones) tickets
      (unfold check_data in check_data_run)

body_of-references_example :
    references ascii_digit (
      body_of
        (codes "After [0.9].")
        (codes "Boot [1.2]" ∷ [])
        (codes "It runs." ∷ [])
        (codes "[0.10]"))
    ≡ references ascii_digit (codes "After [0.9].")
      ++ references_of ascii_digit (codes "Boot [1.2]" ∷ [])
      ++ references_of ascii_digit (codes "It runs." ∷ [])
      ++ references ascii_digit (codes "[0.10]")
body_of-references_example =
    body_of-references ascii_digit (unfold ascii_digit in refl) (unfold ascii_digit in refl)
      (codes "After [0.9].") (codes "Boot [1.2]" ∷ []) (codes "It runs." ∷ []) (codes "[0.10]")
