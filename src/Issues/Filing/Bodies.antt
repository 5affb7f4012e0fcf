-- ===== src/Issues/Filing/Bodies.antt =====
-- Which bodies `main` of scripts/file_issues.py writes over, and with what.
use nixos_homeserver.Base.{
  ℕ, Bool, true, none, List, [], ◌∷◌, ◌≢◌, subst, list_eq, nat_eq, contains, map, Text, codes, ok,
  ok-injective, ◌≡◌, refl, sym, inl, inr, Bool-cases, Option-cases,
}
use nixos_homeserver.Base.Lists.{All}
use nixos_homeserver.Base.Dict.{Dict, lookup, insert, keys}
use nixos_homeserver.Base.Value.{Value, str, index, py_eq}
use nixos_homeserver.Issues.Paged.{Response}
use nixos_homeserver.Issues.Tickets.{Ticket}
use nixos_homeserver.Issues.Tickets.Checked.{Distinct}
use nixos_homeserver.Issues.Program.{Event, Request}
use nixos_homeserver.Issues.Program.Triple.{
  Triple, bind-Triple, return-Triple, run-Triple, print-Triple, request-Triple, request-Answered,
}
use nixos_homeserver.Issues.Rewriting.{rewritten}
use nixos_homeserver.Issues.Filing.{
  source_of, file_issue, file_issues, rewrite_issue, rewrite_issues, file_tickets,
}
use nixos_homeserver.Issues.Listings.{TextSet}
use nixos_homeserver.Issues.Filing.Created.{file_issues-Creates}
use nixos_homeserver.Issues.Filing.Numbers.{Numbers, Numbers-insert, item-NumberOf}
use nixos_homeserver.Issues.Filing.Members.{
  Member, keys-insert, no_value, one_ticket, own_tickets, post_is_no_patch,
}
use nixos_homeserver.Issues.Filing.Patches.{OnlyRewrites, Origin}

-- The issues created in this run had no issue of their title.
abbrev Fresh : Dict Text Value → List Ticket → TextSet → Type 0
Fresh existing tickets created =
    (id : Text)
    → contains (keys created) id ≡ true
    → (t : Ticket) × Member t tickets × (t.id ≡ id) × (lookup t.title existing ≡ none)

module _ (digit : ℕ → Bool) (server : List Event → Request → Response) (tok : Text)
    (existing : Dict Text Value) (tickets : List Ticket) where
  -- `created.add(t.id)`, of a ticket that had no issue
  Fresh-insert :
      (t : Ticket) (created : TextSet)
      → Member t tickets
      → lookup t.title existing ≡ none
      → Fresh existing tickets created
      → Fresh existing tickets (insert t.id tt created)
  Fresh-insert t created is_ticket new fresh id h = elim (keys-insert id t.id tt created h) [
    | inl same ↦ (t, is_ticket, sym same, new)
    | inr before ↦ fresh id before
  ]

  -- What is known after some rounds of the first loop
  abbrev Filed : Dict Text Value × TextSet → Type 0
  Filed state = Fresh existing tickets state.1 × Numbers server tok existing tickets state.0

  file_issue-Filed :
      (ms_num : Dict Text Value) (t : Ticket) (state : Dict Text Value × TextSet)
      → Member t tickets
      → Filed state
      → Triple
          (OnlyRewrites digit server tok existing tickets)
          Filed
          (file_issue digit server tok existing ms_num t state)
  unfolding file_issue
  file_issue-Filed ms_num t (id_to_num, created) is_ticket (fresh, known) =
      elim (Option-cases (lookup t.title existing)) [
        | inl new ↦
            rw (new, file_issue)
              (bind-Triple _ _ (run-Triple _ (λ x e. e)) (λ milestone _.
                bind-Triple _ _
                  (request-Answered server _ _ _ _ _ _ (λ e. absurd (post_is_no_patch e)))
                  (λ resp (earlier, answer).
                    bind-Triple _ _ (run-Triple _ (λ x e. e)) (λ number its.
                      bind-Triple _ _ (print-Triple _ tt) (λ _ _. return-Triple _ (
                        Fresh-insert t created is_ticket new fresh,
                        Numbers-insert server tok existing tickets t number id_to_num is_ticket
                            (inr (
                              earlier,
                              milestone,
                              new,
                              subst (λ body. index body (codes "number") ≡ ok number) answer its,
                            ))
                            known,
                      ))))))
        | inr (issue, old) ↦
            rw (old, file_issue)
              (bind-Triple _ _ (run-Triple _ (λ x e. e)) (λ number its. return-Triple _ (
                fresh,
                Numbers-insert server tok existing tickets t number id_to_num is_ticket
                    (inl (issue, old, its)) known,
              )))
      ]

  file_issues-Filed :
      (ms_num : Dict Text Value) (ts : List Ticket) (state : Dict Text Value × TextSet)
      → All (λ t. Member t tickets) ts
      → Filed state
      → Triple
          (OnlyRewrites digit server tok existing tickets)
          Filed
          (file_issues digit server tok existing ms_num ts state)
  unfolding file_issues
  file_issues-Filed ms_num [] state are_tickets filed = return-Triple state filed
  file_issues-Filed ms_num (t ∷ ts) state (is_ticket, are_tickets) filed =
      bind-Triple _ _ (file_issue-Filed ms_num t state is_ticket filed)
        (λ later filed'. file_issues-Filed ms_num ts later are_tickets filed')

  abbrev AllNumbered : Dict Text Value × TextSet → Type 0
  AllNumbered state = All (λ t. lookup t.id state.0 ≢ none) tickets

  -- The whole first loop
  first_loop :
      (ms_num : Dict Text Value)
      → Triple
          (OnlyRewrites digit server tok existing tickets)
          (λ state. Filed state × AllNumbered state)
          (file_issues digit server tok existing ms_num tickets ([], []))
  unfolding keys lookup
  first_loop ms_num =
      let filed =
        file_issues-Filed ms_num tickets ([], []) (own_tickets tickets)
          (λ id h. cc, λ id number h. cc) in
      record {
        does = filed.does;
        gives = λ done state e. (
          filed.gives done state e,
          ((file_issues-Creates digit server tok existing ms_num tickets ([], [])).if_returns done
              state e).1.0,
        );
      }

  module _ (distinct : Distinct (map (λ t. t.id) tickets)) where
    source_of-Origin :
        (t : Ticket) (state : Dict Text Value × TextSet) {source : Value}
        → Member t tickets
        → Fresh existing tickets state.1
        → source_of digit server tok existing state.1 t ≡ ok source
        → Origin existing t source
    unfolding source_of
    source_of-Origin t state is_ticket fresh h = elim (Bool-cases (contains (keys state.1) t.id)) [
      | inl created ↦
          let (u, is_one, same, new) = fresh t.id created in
          inl (
            rw (one_ticket t u tickets distinct is_ticket is_one (sym same)) new,
            sym (ok-injective (rw (created, source_of) at h)),
          )
      | inr not_created ↦ elim (Option-cases (lookup t.title existing)) [
        | inl missing ↦ no_value (rw (not_created, missing, source_of) at h)
        | inr (issue, old) ↦ inr (issue, old, rw (not_created, old, source_of) at h)
      ]
    ]

    rewrite_issue-OnlyRewrites :
        (t : Ticket) (state : Dict Text Value × TextSet)
        → Member t tickets
        → Filed state
        → AllNumbered state
        → Triple
            (OnlyRewrites digit server tok existing tickets)
            (λ _. Unit)
            (rewrite_issue digit server tok existing state t)
    unfolding rewrite_issue
    rewrite_issue-OnlyRewrites t (id_to_num, created) is_ticket (fresh, known) all_numbered =
        bind-Triple _ _
          (run-Triple _ (λ source e. source_of-Origin t (id_to_num, created) is_ticket fresh e))
          (λ source origin. bind-Triple _ _ (run-Triple _ (λ text e. e)) (λ text text_is.
            elim (Bool-cases (py_eq (str (rewritten digit id_to_num text)) source)) [
              | inl same ↦ rw same (return-Triple tt tt)
              | inr differs ↦ rw differs (
                  bind-Triple _ _ (run-Triple _ (λ x e. e)) (λ number found.
                    bind-Triple _ _
                      (request-Triple server _ _ _ _ _ _ (λ _. record {
                        ticket = t;
                        is_ticket = is_ticket;
                        number = number;
                        its_number =
                            item-NumberOf server tok existing tickets t id_to_num distinct is_ticket
                              known found;
                        url_is = refl;
                        id_to_num = id_to_num;
                        numbers = known;
                        all_numbered = all_numbered;
                        source = source;
                        text = text;
                        origin = origin;
                        text_of = text_is;
                        payload_is = refl;
                        differs = differs;
                      }))
                      (λ _ _. print-Triple _ tt)))
            ]))

    rewrite_issues-OnlyRewrites :
        (ts : List Ticket) (state : Dict Text Value × TextSet)
        → All (λ t. Member t tickets) ts
        → Filed state
        → AllNumbered state
        → Triple
            (OnlyRewrites digit server tok existing tickets)
            (λ _. Unit)
            (rewrite_issues digit server tok existing state ts)
    unfolding rewrite_issues
    rewrite_issues-OnlyRewrites [] state are_tickets filed numbered = return-Triple tt tt
    rewrite_issues-OnlyRewrites (t ∷ ts) state (is_ticket, are_tickets) filed numbered =
        bind-Triple _ _ (rewrite_issue-OnlyRewrites t state is_ticket filed numbered)
          (λ _ _. rewrite_issues-OnlyRewrites ts state are_tickets filed numbered)

    file_tickets-Triple :
        (ms_num : Dict Text Value)
        → Triple
            (OnlyRewrites digit server tok existing tickets)
            (λ _. Unit)
            (file_tickets digit server tok existing ms_num tickets)
    unfolding file_tickets
    file_tickets-Triple ms_num = bind-Triple _ _ (first_loop ms_num) (λ state (filed, numbered).
        bind-Triple _ _
          (rewrite_issues-OnlyRewrites tickets state (own_tickets tickets) filed numbered)
          (λ _ _. return-Triple state tt))

    -- If no two tickets share an id, then every PATCH request, in a run of both loops against any server, goes to the
    -- issue of a ticket, and writes over its body the ticket's own body, if GitHub had no issue of its title, or
    -- else the body that GitHub holds, with the references to tickets rewritten to the numbers of their issues, and
    -- only where that changes it.
    pub file_tickets-OnlyRewrites :
        (ms_num : Dict Text Value) (done : List Event)
        → All
            (OnlyRewrites digit server tok existing tickets)
            (file_tickets digit server tok existing ms_num tickets done).1
    file_tickets-OnlyRewrites ms_num done = (file_tickets-Triple ms_num).does done
