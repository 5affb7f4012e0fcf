-- ===== src/Issues/Filing/Numbers.antt =====
-- The numbers of issues that `main` of scripts/file_issues.py knows by the ids of tickets.
use nixos_homeserver.Base.{
  none, some, List, list_eq, nat_eq, map, Text, codes, ok, ok-injective, some-injective, ◌==◌,
  ==_iff, ◌≡◌, ◌⊎◌, inl, inr, sym, ◌∙◌, subst, Bool-cases, Option-cases,
}
use nixos_homeserver.Base.Dict.{Dict, lookup, insert, lookup-insert}
use nixos_homeserver.Base.Value.{Value, index}
use nixos_homeserver.Issues.Paged.{Response}
use nixos_homeserver.Issues.Tickets.{Ticket}
use nixos_homeserver.Issues.Tickets.Checked.{Distinct}
use nixos_homeserver.Issues.Program.{Event, Request}
use nixos_homeserver.Issues.Listings.{item}
use nixos_homeserver.Issues.Filing.Created.{creation_in}
use nixos_homeserver.Issues.Filing.Members.{Member, no_value, one_ticket}

-- The request that creates the issue of a ticket
abbrev creating : Text → Ticket → Value → Request
creating tok t milestone = record {
  method = codes "POST";
  url = (creation_in t milestone).0;
  payload = (creation_in t milestone).1;
  token = tok;
}

module _ (server : List Event → Request → Response) (tok : Text) (existing : Dict Text Value) where
  -- The number of a ticket's issue: that of the issue of its title, or else the one that GitHub gave in the answer to
  -- the request that creates it
  abbrev pub NumberOf : Ticket → Value → Type 0
  NumberOf t number =
      ((issue : Value) × (lookup t.title existing ≡ some issue)
        × (index issue (codes "number") ≡ ok number))
      ⊎ ((earlier : List Event) × (milestone : Value) × (lookup t.title existing ≡ none)
          × (index (server earlier (creating tok t milestone)).body (codes "number") ≡ ok number))

  module _ (tickets : List Ticket) where
    -- What is known of an id is the number of the issue of a ticket of this id.
    abbrev pub Numbers : Dict Text Value → Type 0
    Numbers id_to_num =
        (id : Text) (number : Value)
        → lookup id id_to_num ≡ some number
        → (t : Ticket) × Member t tickets × (t.id ≡ id) × NumberOf t number

    pub Numbers-insert :
        (t : Ticket) (number : Value) (id_to_num : Dict Text Value)
        → Member t tickets
        → NumberOf t number
        → Numbers id_to_num
        → Numbers (insert t.id number id_to_num)
    Numbers-insert t number id_to_num is_ticket its known id n h = elim (Bool-cases (id == t.id)) [
      | inl same ↦ (
        t,
        is_ticket,
        sym ((==_iff id t.id).0 same),
        subst (NumberOf t)
            (some-injective _ _ (rw same at (sym (lookup-insert id t.id number id_to_num) ∙ h)))
            its,
      )
      | inr other ↦ known id n (rw other at (sym (lookup-insert id t.id number id_to_num) ∙ h))
    ]

    -- `id_to_num[id_]`
    pub item-NumberOf :
        (t : Ticket) (id_to_num : Dict Text Value) {number : Value}
        → Distinct (map (λ u. u.id) tickets)
        → Member t tickets
        → Numbers id_to_num
        → item id_to_num t.id ≡ ok number
        → NumberOf t number
    unfolding item
    item-NumberOf t id_to_num {number} distinct is_ticket known h =
        elim (Option-cases (lookup t.id id_to_num)) [
          | inl missing ↦ no_value (rw (missing, item) at h)
          | inr (v, found) ↦
              let (u, is_one, same, its) = known t.id v found in
              subst (λ w. NumberOf w number)
                (sym (one_ticket t u tickets distinct is_ticket is_one (sym same)))
                (subst (NumberOf u) (ok-injective (rw (found, item) at h)) its)
        ]
