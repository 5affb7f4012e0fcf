-- ===== src/Issues/Filing/Unchanged.antt =====
-- The loops of `main` of scripts/file_issues.py where GitHub has all that they would file.
use nixos_homeserver.Base.{
  ℕ, suc, Bool, true, false, none, some, List, [], ◌∷◌, ◌==◌, list_eq, nat_eq, contains, Text,
  codes, show, ok, ◌≡◌, refl, sym, subst, ◌≢◌, inl, inr, Bool-cases, Option-cases, ==_iff, ◌∙◌,
}
use nixos_homeserver.Base.Lists.{All}
use nixos_homeserver.Base.Dict.{Dict, lookup, insert, keys, contains-keys, lookup-insert}
use nixos_homeserver.Base.Value.{Value, str, index, py_eq}
use nixos_homeserver.Issues.Paged.{Response}
use nixos_homeserver.Issues.Tickets.{Ticket, references}
use nixos_homeserver.Issues.Program.{Event, sent, listed, printed, Request}
use nixos_homeserver.Issues.Program.Succeeds.{
  Succeeds, bind-Succeeds, return-Succeeds, run-Succeeds,
}
use nixos_homeserver.Issues.Rewriting.{rewritten}
use nixos_homeserver.Issues.Rewriting.Settled.{Settled-rewritten_from}
use nixos_homeserver.Issues.Filing.{
  source_text, source_of, file_milestone, file_milestones, file_label, file_labels, file_issue,
  file_issues, rewrite_issue, rewrite_issues, file_tickets,
}
use nixos_homeserver.Issues.Listings.{TextSet, Label, item}

-- Anything but a request that changes GitHub
abbrev pub Reads : Event → Type 0
Reads (sent r) = ⊥
Reads (listed path) = Unit
Reads (printed line) = Unit

-- A ticket whose issue exists, and has a body without a reference to a ticket
pub record Filed (digit : ℕ → Bool) (existing : Dict Text Value) (ids : List Text) (t : Ticket)
    : Type 0 where
  pub issue : Value
  pub number : Value
  pub body : Text
  pub exists : lookup t.title existing ≡ some issue
  pub number_is : index issue (codes "number") ≡ ok number
  pub body_is : index issue (codes "body") ≡ ok (str body)
  pub settled : All (λ id. contains ids id ≡ false) (references digit body)

lookup_present {κ} :
    {V : Type κ} (k : Text) (d : Dict Text V)
    → contains (keys d) k ≡ true
    → (v : V) × (lookup k d ≡ some v)
lookup_present k d h = elim (Option-cases (lookup k d)) [
  | inl missing ↦ absurd ((contains-keys d k).0 h missing)
  | inr found ↦ found
]

item-some {ℓ} :
    {A : Type ℓ} (d : Dict Text A) (k : Text) {v : A} → lookup k d ≡ some v → item d k ≡ ok v
unfolding item
item-some d k h = rw (h, item) refl

module _ (server : List Event → Request → Response) (tok : Text) where
  file_milestone-Reads :
      (i : ℕ) (title description : Text) (have ms_num : Dict Text Value)
      → contains (keys have) title ≡ true
      → Succeeds Reads
          (λ state. state.0 ≡ have)
          (file_milestone server tok i title description (have, ms_num))
  unfolding file_milestone
  file_milestone-Reads i title description have ms_num h =
      let (number, found) = lookup_present title have h in
      rw (h, file_milestone)
        (bind-Succeeds _ _ (run-Succeeds {Q = λ _. Unit} _ number (item-some have title found) tt)
          (λ n _. return-Succeeds (have, insert (show i) n ms_num) refl))

  pub file_milestones-Reads :
      (i : ℕ) (milestones : List (Text × Text)) (have : Dict Text Value)
      (state : Dict Text Value × Dict Text Value)
      → state.0 ≡ have
      → All (λ m. contains (keys have) m.0 ≡ true) milestones
      → Succeeds Reads (λ _. Unit) (file_milestones server tok i milestones state)
  unfolding file_milestones
  file_milestones-Reads i [] have state same present = return-Succeeds state tt
  file_milestones-Reads i ((title, description) ∷ milestones) have (had, ms_num) same (p, present) =
      bind-Succeeds _ _ (file_milestone-Reads i title description had ms_num (rw same p))
        (λ later same'. file_milestones-Reads (suc i) milestones have later (same' ∙ same) present)

  pub file_labels-Reads :
      (have_labels : TextSet) (labels : List Label)
      → All (λ l. contains (keys have_labels) l.name ≡ true) labels
      → Succeeds Reads (λ _. Unit) (file_labels server tok have_labels labels)
  unfolding file_labels file_label
  file_labels-Reads have_labels [] present = return-Succeeds tt tt
  file_labels-Reads have_labels (label ∷ labels) (p, present) =
      bind-Succeeds {Q = λ _. Unit} _ _ (rw p (return-Succeeds {Q = λ _. Unit} tt tt))
        (λ _ _. file_labels-Reads have_labels labels present)

module _ (digit : ℕ → Bool) (server : List Event → Request → Response) (tok : Text)
    (existing : Dict Text Value) (ids : List Text) where
  -- No issue was created, and the numbers are those of tickets.
  abbrev Known : Dict Text Value × TextSet → Type 0
  Known state = (state.1 ≡ []) × ((id : Text) → lookup id state.0 ≢ none → contains ids id ≡ true)

  Known-insert :
      (id : Text) (number : Value) (state : Dict Text Value × TextSet)
      → contains ids id ≡ true
      → Known state
      → Known (insert id number state.0, state.1)
  Known-insert id number state is_id (fresh, known) = (
    fresh,
    λ j present. elim (Bool-cases (j == id)) [
      | inl same ↦ subst (λ k. contains ids k ≡ true) (sym ((==_iff j id).0 same)) is_id
      | inr other ↦
          known j (λ absent. present (lookup-insert j id number state.0 ∙ rw other absent))
    ],
  )

  file_issue-Reads :
      (ms_num : Dict Text Value) (t : Ticket) (state : Dict Text Value × TextSet)
      → contains ids t.id ≡ true
      → Filed digit existing ids t
      → Known state
      → Succeeds Reads Known (file_issue digit server tok existing ms_num t state)
  unfolding file_issue
  file_issue-Reads ms_num t (id_to_num, created) is_id filed known =
      rw (filed.exists, file_issue)
        (bind-Succeeds _ _ (run-Succeeds {Q = λ _. Unit} _ filed.number filed.number_is tt)
          (λ number _.
            return-Succeeds (insert t.id number id_to_num, created)
              (Known-insert t.id number (id_to_num, created) is_id known)))

  file_issues-Reads :
      (ms_num : Dict Text Value) (ts : List Ticket) (state : Dict Text Value × TextSet)
      → All (λ t. contains ids t.id ≡ true) ts
      → All (Filed digit existing ids) ts
      → Known state
      → Succeeds Reads Known (file_issues digit server tok existing ms_num ts state)
  unfolding file_issues
  file_issues-Reads ms_num [] state are_ids filed known = return-Succeeds state known
  file_issues-Reads ms_num (t ∷ ts) state (p, are_ids) (f, filed) known =
      bind-Succeeds _ _ (file_issue-Reads ms_num t state p f known)
        (λ later known'. file_issues-Reads ms_num ts later are_ids filed known')

  Known-Settled :
      (state : Dict Text Value × TextSet) (found : List Text)
      → Known state
      → All (λ id. contains ids id ≡ false) found
      → All (λ id. lookup id state.0 ≡ none) found
  Known-Settled state [] known h = tt
  Known-Settled state (id ∷ found) known (p, h) = (unknown, Known-Settled state found known h)
    where
      clash : {b : Bool} → b ≡ true → b ≡ false → ⊥
      clash e f = cc

      two : {v : Value} → some v ≢ none
      two = λ e. cc

      unknown : lookup id state.0 ≡ none
      unknown = elim (Option-cases (lookup id state.0)) [
        | inl absent ↦ absent
        | inr (number, e) ↦ absurd (clash (known.1 id (λ absent. two (sym e ∙ absent))) p)
      ]

  source_of-body :
      (t : Ticket) (state : Dict Text Value × TextSet) (filed : Filed digit existing ids t)
      → Known state
      → source_of digit server tok existing state.1 t ≡ ok (str filed.body)
  unfolding source_of keys
  source_of-body t state filed known = rw (known.0, filed.exists, source_of) filed.body_is

  same_text : (s t : Text) → s ≡ t → py_eq (str s) (str t) ≡ true
  unfolding py_eq
  same_text s t e = (==_iff s t).1 e

  rewrite_issue-Reads :
      (t : Ticket) (state : Dict Text Value × TextSet)
      → Filed digit existing ids t
      → Known state
      → Succeeds Reads (λ _. Unit) (rewrite_issue digit server tok existing state t)
  unfolding rewrite_issue source_text rewritten
  rewrite_issue-Reads t state filed known =
      bind-Succeeds _ _
        (run-Succeeds {Q = λ source. source ≡ str filed.body} _ (str filed.body)
          (source_of-body t state filed known) refl)
        (λ source is_body.
          bind-Succeeds _ _
            (run-Succeeds {Q = λ text. text ≡ filed.body} _ filed.body (rw is_body refl) refl)
            (λ text is_text.
              rw
                (
                  is_text,
                  is_body,
                  same_text _ _ (
                      Settled-rewritten_from digit state.0 0 filed.body
                        (Known-Settled state _ known filed.settled)),
                )
                (return-Succeeds tt tt)))

  rewrite_issues-Reads :
      (ts : List Ticket) (state : Dict Text Value × TextSet)
      → All (Filed digit existing ids) ts
      → Known state
      → Succeeds Reads (λ _. Unit) (rewrite_issues digit server tok existing state ts)
  unfolding rewrite_issues
  rewrite_issues-Reads [] state filed known = return-Succeeds tt tt
  rewrite_issues-Reads (t ∷ ts) state (f, filed) known =
      bind-Succeeds _ _ (rewrite_issue-Reads t state f known)
        (λ _ _. rewrite_issues-Reads ts state filed known)

  pub file_tickets-Reads :
      (ms_num : Dict Text Value) (ts : List Ticket)
      → All (λ t. contains ids t.id ≡ true) ts
      → All (Filed digit existing ids) ts
      → Succeeds Reads (λ _. Unit) (file_tickets digit server tok existing ms_num ts)
  unfolding file_tickets lookup
  file_tickets-Reads ms_num ts are_ids filed =
      bind-Succeeds _ _
        (file_issues-Reads ms_num ts ([], []) are_ids filed (refl, λ id h. absurd (h refl)))
        (λ state known.
          bind-Succeeds _ _ (rewrite_issues-Reads ts state filed known)
            (λ _ _. return-Succeeds state tt))
