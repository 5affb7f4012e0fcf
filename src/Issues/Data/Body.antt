-- ===== src/Issues/Data/Body.antt =====
-- `t` of scripts/tickets.py.
use nixos_homeserver.Base.{List, ◌∷◌, ◌++◌, map, Text, codes, join}
use nixos_homeserver.Issues.Tickets.{Ticket, phase_of}

-- The body of a ticket: what is to be done, when it is done, and what it depends on
unfoldable pub body_of : Text → List Text → List Text → Text → Text
body_of goal tasks ac deps =
    codes "## Goal\n"
    ++ goal
    ++ codes "\n\n## Tasks\n"
    ++ join (codes "\n") (map (λ x. codes "- [ ] " ++ x) tasks)
    ++ codes "\n\n## Acceptance criteria\n"
    ++ join (codes "\n") (map (λ x. codes "- " ++ x) ac)
    ++ codes "\n\n## Depends on\n"
    ++ deps
    ++ codes "\n"

unfoldable pub ticket : Text → Text → List Text → Text → List Text → List Text → Text → Ticket
unfolding body_of phase_of
ticket id title labels goal tasks ac deps = record {
  id = id;
  title = id ++ codes " " ++ title;
  labels = (codes "phase:" ++ phase_of id) ∷ labels;
  body = body_of goal tasks ac deps;
}
