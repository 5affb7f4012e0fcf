-- ===== src/Issues/Filing/Created.antt =====
-- The POST requests of the loops over TICKETS in `main` of scripts/file_issues.py.
use nixos_homeserver.Base.{
  ℕ, Bool, true, false, Option, none, some, ok, ok-injective, ap, List, [], ◌∷◌, ◌++◌,
  if◌then◌else◌, ◌==◌, list_eq, nat_eq, map, Text, codes, ◌≡◌, ◌≢◌, refl, sym, ◌∙◌, inl, inr,
  Bool-cases, Option-cases, ==_self, ==_of_ne, append-nil,
}
use nixos_homeserver.Base.Lists.{All, select}
use nixos_homeserver.Base.Dict.{Dict, lookup, insert, lookup-insert}
use nixos_homeserver.Base.Value.{Value, null, str, arr, obj, end, field, py_eq}
use nixos_homeserver.Issues.Paged.{returns, Response}
use nixos_homeserver.Issues.Tickets.{Ticket, phase_of}
use nixos_homeserver.Issues.Program.{Event, Request, api_url}
use nixos_homeserver.Issues.Program.Creates.{
  posts, Creates, bind-Creates, return-Creates, run-Creates, print-Creates, request-Creates,
  relabel, weaken-Creates,
}
use nixos_homeserver.Issues.Rewriting.{rewritten}
use nixos_homeserver.Issues.Filing.{
  texts, file_issue, file_issues, rewrite_issue, rewrite_issues, file_tickets,
}
use nixos_homeserver.Issues.Listings.{TextSet, item}
use nixos_homeserver.Issues.Filing.Members.{no_value}

is_post : (codes "POST" == codes "POST") ≡ true
is_post = ==_self (codes "POST")

is_no_post : (codes "PATCH" == codes "POST") ≡ false
is_no_post = ==_of_ne patch_is_no_post
  where
    patch_is_no_post : codes "PATCH" ≢ codes "POST"
    patch_is_no_post = unfold codes in λ e. cc

one_post :
    {A : Type 0} (x y : A) {b : Bool}
    → b ≡ true
    → x ≡ y
    → (if b then x ∷ [] else []) ++ ([] ++ ([] ++ [])) ≡ y ∷ []
one_post x y e h = rw (e, h) refl

no_post :
    {A : Type 0} {b : Bool} (found : List A) → b ≡ false → (if b then found else []) ++ [] ≡ []
no_post found e = rw e refl

-- The number of a ticket's milestone, that of its phase
abbrev pub milestone_of : Dict Text Value → Ticket → Value
milestone_of ms_num t = elim (lookup (phase_of t.id) ms_num) [ some number ↦ number | none ↦ null ]

-- The request that creates the issue of a ticket
abbrev pub creation_in : Ticket → Value → Text × Option Value
creation_in t milestone = (
  api_url (codes "/issues"),
  some (
      obj (
        field (codes "title") (str t.title) (
          field (codes "body") (str t.body) (
            field (codes "labels") (arr (texts t.labels))
              (field (codes "milestone") milestone end))))),
)

abbrev pub creation : Dict Text Value → Ticket → Text × Option Value
creation ms_num t = creation_in t (milestone_of ms_num t)

item-milestone_of :
    (ms_num : Dict Text Value) (t : Ticket) {number : Value}
    → item ms_num (phase_of t.id) ≡ ok number
    → number ≡ milestone_of ms_num t
unfolding item
item-milestone_of ms_num t h = elim (Option-cases (lookup (phase_of t.id) ms_num)) [
  | inl missing ↦ absurd (no_value (rw (missing, item) at h))
  | inr (v, found) ↦ rw (found, milestone_of) (ok-injective (sym (rw (found, item) at h)))
]

-- GitHub has no issue of the ticket's title.
unfoldable pub is_new : Dict Text Value → Ticket → Bool
is_new existing t = elim (lookup t.title existing) [ none ↦ true | some issue ↦ false ]

module _ (digit : ℕ → Bool) (server : List Event → Request → Response) (tok : Text)
    (existing : Dict Text Value) where
  -- The ids that have a number stay so, and a ticket's is among them after its round.
  abbrev Numbered : Ticket → Dict Text Value × TextSet → Dict Text Value × TextSet → Type 0
  Numbered t before later =
      (lookup t.id later.0 ≢ none)
      × ((id : Text) → lookup id before.0 ≢ none → lookup id later.0 ≢ none)

  Numbered-insert :
      (t : Ticket) (number : Value) (before : Dict Text Value × TextSet) (created : TextSet)
      → Numbered t before (insert t.id number before.0, created)
  Numbered-insert t number before created = (
    λ e.
        two {v = number}
          (sym (lookup-insert t.id t.id number before.0 ∙ rw (==_self t.id) refl) ∙ e),
    λ id had. elim (Bool-cases (id == t.id)) [
      | inl same ↦
          λ e. two {v = number} (sym (lookup-insert id t.id number before.0 ∙ rw same refl) ∙ e)
      | inr other ↦ λ e. had (sym (lookup-insert id t.id number before.0 ∙ rw other refl) ∙ e)
    ],
  )
    where
      two : {v : Value} → some v ≢ none
      two = λ e. cc

  posts_of_one : Dict Text Value → Ticket → List (Text × Option Value)
  posts_of_one ms_num t = if is_new existing t then creation ms_num t ∷ [] else []

  posts_of_more :
      (ms_num : Dict Text Value) (t : Ticket) (ts : List Ticket)
      → posts_of_one ms_num t ++ map (creation ms_num) (select (is_new existing) ts)
        ≡ map (creation ms_num) (select (is_new existing) (t ∷ ts))
  unfolding posts_of_one select
  posts_of_more ms_num t ts = elim (Bool-cases (is_new existing t)) [
    | inl e ↦ rw (e, posts_of_one, select) refl
    | inr e ↦ rw (e, posts_of_one, select) refl
  ]

  posts_new :
      (ms_num : Dict Text Value) (t : Ticket)
      → lookup t.title existing ≡ none
      → posts_of_one ms_num t ≡ creation ms_num t ∷ []
  unfolding posts_of_one is_new
  posts_new ms_num t e = rw (e, posts_of_one, is_new) refl

  posts_old :
      (ms_num : Dict Text Value) (t : Ticket) (issue : Value)
      → lookup t.title existing ≡ some issue
      → posts_of_one ms_num t ≡ []
  unfolding posts_of_one is_new
  posts_old ms_num t issue e = rw (e, posts_of_one, is_new) refl

  file_issue-Creates :
      (ms_num : Dict Text Value) (t : Ticket) (state : Dict Text Value × TextSet)
      → Creates
          (posts_of_one ms_num t)
          (Numbered t state)
          (file_issue digit server tok existing ms_num t state)
  unfolding file_issue
  file_issue-Creates ms_num t (id_to_num, created) = elim (Option-cases (lookup t.title existing)) [
    | inl new ↦
        rw (posts_new ms_num t new, new, file_issue)
          (bind-Creates {ts = []} {us = creation ms_num t ∷ []} _ _
            (run-Creates {Q = λ m. m ≡ milestone_of ms_num t} _
              (λ x h. item-milestone_of ms_num t h))
            (λ milestone its. relabel (one_post _ _ is_post (ap (creation_in t) its)) (
              bind-Creates _ _ (request-Creates server _ _ _ _ _ _) (λ resp _.
                bind-Creates _ _ (run-Creates {Q = λ _. Unit} _ (λ x e. tt)) (λ number _.
                  bind-Creates _ _ (print-Creates _) (λ _ _.
                    return-Creates _
                      (Numbered-insert t number (id_to_num, created) (insert t.id tt created))))))))
    | inr (issue, old) ↦
        rw (posts_old ms_num t issue old, old, file_issue)
          (bind-Creates _ _ (run-Creates {Q = λ _. Unit} _ (λ x e. tt))
            (λ number _. return-Creates _ (Numbered-insert t number (id_to_num, created) created)))
  ]

  pub file_issues-Creates :
      (ms_num : Dict Text Value) (ts : List Ticket) (state : Dict Text Value × TextSet)
      → Creates
          (map (creation ms_num) (select (is_new existing) ts))
          (λ later.
            All (λ t. lookup t.id later.0 ≢ none) ts
            × ((id : Text) → lookup id state.0 ≢ none → lookup id later.0 ≢ none))
          (file_issues digit server tok existing ms_num ts state)
  unfolding file_issues select
  file_issues-Creates ms_num [] state = return-Creates state (tt, λ id h. h)
  file_issues-Creates ms_num (t ∷ ts) state = relabel (posts_of_more ms_num t ts) (
      bind-Creates _ _ (file_issue-Creates ms_num t state) (λ next numbered.
        weaken-Creates
          (λ later h. ((h.1 t.id numbered.0, h.0), λ id had. h.1 id (numbered.1 id had)))
          (file_issues-Creates ms_num ts next)))

  rewrite_issue-Creates :
      (t : Ticket) (state : Dict Text Value × TextSet)
      → Creates [] (λ _. Unit) (rewrite_issue digit server tok existing state t)
  unfolding rewrite_issue
  rewrite_issue-Creates t (id_to_num, created) =
      bind-Creates _ _ (run-Creates {Q = λ _. Unit} _ (λ x e. tt)) (λ source _.
        bind-Creates {ts = []} {us = []} _ _ (run-Creates {Q = λ _. Unit} _ (λ x e. tt)) (λ text _.
          elim (Bool-cases (py_eq (str (rewritten digit id_to_num text)) source)) [
            | inl same ↦ rw same (return-Creates tt tt)
            | inr differs ↦ rw differs (
                bind-Creates {ts = []} {us = []} _ _ (run-Creates {Q = λ _. Unit} _ (λ x e. tt))
                  (λ number _. relabel (no_post _ is_no_post) (
                    bind-Creates _ _ (request-Creates server _ _ _ _ _ _)
                      (λ _ _. print-Creates _))))
          ]))

  rewrite_issues-Creates :
      (ts : List Ticket) (state : Dict Text Value × TextSet)
      → Creates [] (λ _. Unit) (rewrite_issues digit server tok existing state ts)
  unfolding rewrite_issues
  rewrite_issues-Creates [] state = return-Creates tt tt
  rewrite_issues-Creates (t ∷ ts) state =
      bind-Creates {ts = []} {us = []} _ _ (rewrite_issue-Creates t state)
        (λ _ _. rewrite_issues-Creates ts state)

  file_tickets-Creates :
      (ms_num : Dict Text Value) (ts : List Ticket)
      → Creates
          (map (creation ms_num) (select (is_new existing) ts))
          (λ state. All (λ t. lookup t.id state.0 ≢ none) ts)
          (file_tickets digit server tok existing ms_num ts)
  unfolding file_tickets
  file_tickets-Creates ms_num ts = relabel (append-nil _) (
      bind-Creates _ _ (file_issues-Creates ms_num ts ([], [])) (λ state numbered.
        bind-Creates {ts = []} {us = []} _ _ (rewrite_issues-Creates ts state)
          (λ _ _. return-Creates state numbered.0)))

  -- The POST requests of a run of both loops that returns are one to /issues for each ticket whose title
  -- GitHub had not, in the order of the tickets, with its title, body, labels and milestone, and no others,
  -- and the run knows a number for every ticket.
  pub posts-file_tickets :
      (ms_num : Dict Text Value) (ts : List Ticket) (done : List Event)
      (state : Dict Text Value × TextSet)
      → (file_tickets digit server tok existing ms_num ts done).0 ≡ some (returns state)
      → (posts (file_tickets digit server tok existing ms_num ts done).1
          ≡ map (creation ms_num) (select (is_new existing) ts))
        × All (λ t. lookup t.id state.0 ≢ none) ts
  posts-file_tickets ms_num ts done state e =
      (file_tickets-Creates ms_num ts).if_returns done state e
