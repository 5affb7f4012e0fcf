-- ===== src/Tests/Filing.antt =====
-- The theorems on `main` of scripts/file_issues.py at concrete inputs.
use nixos_homeserver.Base.{
  ℕ, Bool, false, ◌&&◌, leb, none, some, List, [], ◌∷◌, ◌==◌, list_eq, nat_eq, contains, map, Text,
  codes, show, pos, ◌≡◌, refl, inl, inr, subst, some-injective, Bool-cases, show_int, digits_fuel,
  ◌≢◌,
}
use nixos_homeserver.Base.Lists.{All}
use nixos_homeserver.Base.Dict.{Dict, lookup, insert, keys}
use nixos_homeserver.Base.Value.{Value, null, num, str, obj, end, field, index, py_eq, str_of, repr}
use nixos_homeserver.Issues.Paged.{Response, returns, expect}
use nixos_homeserver.Issues.Tickets.{Ticket, phase_of, reference_at, references}
use nixos_homeserver.Issues.Tickets.Checked.{Distinct}
use nixos_homeserver.Issues.Program.{Event, Request, ◌>>=◌, run, return, print, exit, req, request}
use nixos_homeserver.Issues.Rewriting.{rewritten_from, rewritten}
use nixos_homeserver.Issues.Rewriting.Settled.{rewritten-Settled, rewritten-rewritten}
use nixos_homeserver.Issues.Filing.{
  source_text, source_of, file_issue, file_issues, file_tickets, rewrite_issue, rewrite_issues,
}
use nixos_homeserver.Issues.Listings.{TextSet, item}
use nixos_homeserver.Issues.Filing.Bodies.{file_tickets-OnlyRewrites}
use nixos_homeserver.Issues.Filing.Patches.{OnlyRewrites}
use nixos_homeserver.Issues.Program.Creates.{posts}
use nixos_homeserver.Issues.Filing.Created.{is_new, creation, posts-file_tickets}
use nixos_homeserver.Base.{split}
use nixos_homeserver.Base.Lists.{select}

unfoldable pub ascii_digit : ℕ → Bool
ascii_digit c = leb b'0' c && leb c b'9'

abbrev pub issue : ℕ → Text → Value → Value
issue n title body = obj (
    field (codes "number") (num (pos n))
      (field (codes "title") (str title) (field (codes "body") body end)))

abbrev pub tickets : List Ticket
tickets =
    record { id = codes "0.9"; title = codes "Boot"; labels = []; body = codes "First." }
    ∷ record { id = codes "0.10"; title = codes "Deploy"; labels = []; body = codes "After [0.9]." }
    ∷ []

abbrev numbered : Dict Text Value
numbered = (codes "0.9", num (pos 7)) ∷ []

-- A server that has created issue 7
abbrev pub created_7 : List Event → Request → Response
created_7 done r = record { status = 201; body = issue 7 (codes "Boot") null }

plain :
    (id : Text) (number : Value)
    → lookup id numbered ≡ some number
    → contains (str_of number) b'[' ≡ false
unfolding lookup str_of repr show_int show digits_fuel nat_eq
plain id number h = elim (Bool-cases (id == codes "0.9")) [
  | inl e ↦ subst (λ v. contains (str_of v) b'[' ≡ false) (some-injective _ _ (rw e at h)) refl
  | inr e ↦ absurd (nothing (rw e at h))
]
  where
    nothing : {v : Value} → none ≡ some v → ⊥
    nothing e = cc

rewritten-Settled_example :
    All
      (λ id. lookup id numbered ≡ none)
      (references ascii_digit (rewritten ascii_digit numbered (codes "After [0.9] and [0.10].")))
rewritten-Settled_example =
    rewritten-Settled ascii_digit (unfold ascii_digit in refl) (unfold ascii_digit in refl)
      (unfold ascii_digit in refl) numbered plain (codes "After [0.9] and [0.10].")

rewritten-rewritten_example :
    rewritten ascii_digit numbered
      (rewritten ascii_digit numbered (codes "After [0.9] and [0.10]."))
    ≡ rewritten ascii_digit numbered (codes "After [0.9] and [0.10].")
rewritten-rewritten_example =
    rewritten-rewritten ascii_digit (unfold ascii_digit in refl) (unfold ascii_digit in refl)
      (unfold ascii_digit in refl) numbered plain (codes "After [0.9] and [0.10].")

-- GitHub has an issue of the second ticket, edited there.
abbrev edited : Dict Text Value
edited = (codes "Deploy", issue 3 (codes "Deploy") (str (codes "Edited, after [0.9]."))) ∷ []

abbrev milestone_numbers : Dict Text Value
milestone_numbers = (codes "0", num (pos 1)) ∷ []

distinct : Distinct (map (λ t. t.id) tickets)
unfolding codes list_eq nat_eq
distinct = (refl, (refl, tt))

file_tickets-OnlyRewrites_example :
    All
      (OnlyRewrites ascii_digit created_7 (codes "token") edited tickets)
      (file_tickets ascii_digit created_7 (codes "token") edited milestone_numbers tickets []).1
file_tickets-OnlyRewrites_example =
    file_tickets-OnlyRewrites ascii_digit created_7 (codes "token") edited tickets distinct
      milestone_numbers []

abbrev boot : Ticket
boot = record { id = codes "0.9"; title = codes "Boot"; labels = []; body = codes "First." }

-- What a run for one new ticket knows when it returns
abbrev boot_state : Dict Text Value × TextSet
boot_state = ((codes "0.9", num (pos 7)) ∷ [], (codes "0.9", tt) ∷ [])

boot_returns :
    (file_tickets ascii_digit created_7 (codes "token") edited milestone_numbers (boot ∷ []) []).0
    ≡ some (returns boot_state)
unfolding file_tickets file_issues file_issue rewrite_issues rewrite_issue source_of source_text
    item request req ◌>>=◌ run return print exit expect rewritten rewritten_from reference_at py_eq
    index lookup insert keys phase_of split codes list_eq nat_eq ascii_digit str_of repr show_int
    show
boot_returns = refl

posts-file_tickets_example :
    (posts
        (file_tickets ascii_digit created_7
          (codes "token")
          edited
          milestone_numbers
          (boot ∷ [])
          []).1
      ≡ map (creation milestone_numbers) (select (is_new edited) (boot ∷ [])))
    × All (λ t. lookup t.id (boot_state.0) ≢ none) (boot ∷ [])
posts-file_tickets_example =
    posts-file_tickets ascii_digit created_7 (codes "token") edited milestone_numbers (boot ∷ []) []
      boot_state boot_returns
