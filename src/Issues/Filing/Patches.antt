-- ===== src/Issues/Filing/Patches.antt =====
-- What a PATCH request of `main` of scripts/file_issues.py writes over which body.
use nixos_homeserver.Base.{
  ℕ, Bool, false, none, some, List, ◌++◌, ◌≢◌, list_eq, nat_eq, Text, codes, ok, ◌≡◌, ◌⊎◌,
}
use nixos_homeserver.Base.Lists.{All}
use nixos_homeserver.Base.Dict.{Dict, lookup}
use nixos_homeserver.Base.Value.{Value, str, obj, end, field, index, py_eq, str_of}
use nixos_homeserver.Issues.Paged.{Response}
use nixos_homeserver.Issues.Tickets.{Ticket}
use nixos_homeserver.Issues.Program.{Event, sent, listed, printed, Request, api_url}
use nixos_homeserver.Issues.Rewriting.{rewritten}
use nixos_homeserver.Issues.Filing.{source_text}
use nixos_homeserver.Issues.Filing.Numbers.{NumberOf, Numbers}
use nixos_homeserver.Issues.Filing.Members.{Member}

-- Where the body of the issue of a ticket comes from: from the ticket if GitHub has no issue of this title,
-- and else from GitHub.
abbrev pub Origin : Dict Text Value → Ticket → Value → Type 0
Origin existing t source =
    ((lookup t.title existing ≡ none) × (source ≡ str t.body))
    ⊎ ((issue : Value) × (lookup t.title existing ≡ some issue)
        × (index issue (codes "body") ≡ ok source))

-- A request that writes a body: some ticket's, to the URL of its issue, with the references rewritten by the
-- numbers of the tickets' issues, and different from the old one
pub record Rewrites (digit : ℕ → Bool) (server : List Event → Request → Response) (tok : Text)
    (existing : Dict Text Value) (tickets : List Ticket) (r : Request) : Type 0 where
  pub ticket : Ticket
  pub is_ticket : Member ticket tickets
  pub number : Value
  pub its_number : NumberOf server tok existing ticket number
  pub url_is : r.url ≡ api_url (codes "/issues/" ++ str_of number)
  pub id_to_num : Dict Text Value
  pub numbers : Numbers server tok existing tickets id_to_num
  pub all_numbered : All (λ t. lookup t.id id_to_num ≢ none) tickets
  pub source : Value
  pub text : Text
  pub origin : Origin existing ticket source
  pub text_of : source_text source ≡ ok text
  pub payload_is :
      r.payload ≡ some (obj (field (codes "body") (str (rewritten digit id_to_num text)) end))
  pub differs : py_eq (str (rewritten digit id_to_num text)) source ≡ false

module _ (digit : ℕ → Bool) (server : List Event → Request → Response) (tok : Text)
    (existing : Dict Text Value) (tickets : List Ticket) where
  abbrev pub OnlyRewrites : Event → Type 0
  OnlyRewrites (sent r) = r.method ≡ codes "PATCH" → Rewrites digit server tok existing tickets r
  OnlyRewrites (listed path) = Unit
  OnlyRewrites (printed line) = Unit
