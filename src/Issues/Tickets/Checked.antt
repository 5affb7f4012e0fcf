-- ===== src/Issues/Tickets/Checked.antt =====
-- What the tickets have passed when `check` of scripts/file_issues.py finds no problem.
use nixos_homeserver.Base.{
  ℕ, suc, ◌≤◌, Bool, true, false, ◌&&◌, not, List, [], ◌∷◌, if◌then◌else◌, ◌==◌, nat_eq, list_eq,
  contains, Text, ℤ, pos, leb_ℤ, int, map, ok, >>=-eq-ok, ok-injective, for_each, ◌≡◌, refl, sym,
  ap, ◌∙◌, inl, inr, arith, Bool-cases, ==_self, ==_iff,
}
use nixos_homeserver.Base.Lists.{length, All, select, contains-select, append-eq-nil}
use nixos_homeserver.Base.Sort.{to_set, contains-to_set}
use nixos_homeserver.Base.Loops.{for_each-nil, no_complaint}
use nixos_homeserver.Issues.Tickets.{
  Ticket, is_id, references, sorted_ids, label_problem, reference_problem, phase_of,
  ticket_problems, check_tickets,
}

-- No member stands twice.
abbrev pub Distinct : List Text → Type 0
Distinct [] = Unit
Distinct (x ∷ xs) = (contains xs x ≡ false) × Distinct xs

length-select : (test : Text → Bool) (xs : List Text) → length (select test xs) ≤ length xs
unfolding select
length-select test [] = ground arith
length-select test (x ∷ xs) = ground (arith, length-select test xs)

length-to_set : (xs : List Text) → length (to_set xs) ≤ length xs
unfolding to_set
length-to_set [] = ground arith
length-to_set (x ∷ xs) =
    let a = length-select (λ y. not (y == x)) (to_set xs) in let b = length-to_set xs in omega arith

select-full :
    (test : Text → Bool) (xs : List Text)
    → length (select test xs) ≡ length xs
    → select test xs ≡ xs
unfolding select
select-full test [] h = refl
select-full test (x ∷ xs) h = elim (Bool-cases (test x)) [
  | inl keeps ↦ rw keeps (ap (λ l. x ∷ l) (select-full test xs (one_less (rw keeps at h))))
  | inr drops ↦ absurd (too_long (length-select test xs) (rw drops at h))
]
  where
    one_less : {a b : ℕ} → suc a ≡ suc b → a ≡ b
    one_less e = omega arith

    too_long : {a b : ℕ} → a ≤ b → a ≡ suc b → ⊥
    too_long l e = omega arith

and_false : (b : Bool) → (b && false) ≡ false
and_false true = refl
and_false false = refl

absent :
    (x : Text) (xs : List Text)
    → select (λ y. not (y == x)) (to_set xs) ≡ to_set xs
    → contains xs x ≡ false
absent x xs kept =
    sym (contains-to_set xs x)
    ∙ (ap (λ l. contains l x) (sym kept)
        ∙ (contains-select (λ y. not (y == x)) (to_set xs) x
            ∙ (ap (λ b. contains (to_set xs) x && not b) (==_self x) ∙ and_false _)))

All-weaken :
    {P Q : Text → Type 0} (weaken : (x : Text) → P x → Q x) (xs : List Text) → All P xs → All Q xs
All-weaken weaken [] h = tt
All-weaken weaken (x ∷ xs) (p, h) = (weaken x p, All-weaken weaken xs h)

no_remark : (b : Bool) (x : Text) → (if b then x ∷ [] else []) ≡ [] → b ≡ false
no_remark true x h = cc
no_remark false x h = refl

-- A list as long as its set has no member twice.
Distinct-from : (xs : List Text) → length (to_set xs) ≡ length xs → Distinct xs
unfolding to_set
Distinct-from [] h = tt
Distinct-from (x ∷ xs) h =
    let a = length-select (λ y. not (y == x)) (to_set xs) in
    let b = length-to_set xs in
    let kept = select-full (λ y. not (y == x)) (to_set xs) (omega arith) in
    (absent x xs kept, Distinct-from xs (omega arith))

module _ (digit : ℕ → Bool) (labels : List Text) (milestones : ℕ) where
  -- A ticket with an id, a milestone, declared labels, and references to tickets only
  pub record TicketOk (ids : List Text) (t : Ticket) : Type 0 where
    pub well_formed : is_id digit t.id ≡ true
    pub phase : ℤ
    pub phase_is : int (phase_of t.id) ≡ ok phase
    pub in_range : leb_ℤ (pos milestones) phase ≡ false
    pub declared : All (λ lab. contains labels lab ≡ true) t.labels
    pub resolved : All (λ dep. contains ids dep ≡ true) (references digit t.body)

  declared_at :
      (id lab : Text)
      → label_problem digit labels milestones id lab ≡ ok []
      → contains labels lab ≡ true
  unfolding label_problem
  declared_at id lab h = no_complaint _ _ (ok-injective h)

  resolved_at :
      (ids : List Text) (id dep : Text)
      → reference_problem digit labels milestones ids id dep ≡ ok []
      → contains ids dep ≡ true
  unfolding reference_problem
  resolved_at ids id dep h = no_complaint _ _ (ok-injective h)

  ticket_problems-TicketOk :
      (ids : List Text) (t : Ticket)
      → ticket_problems digit labels milestones ids t ≡ ok []
      → TicketOk ids t
  unfolding ticket_problems
  ticket_problems-TicketOk ids t h =
      let (phase, p, h₁) = >>=-eq-ok (int (phase_of t.id)) _ h in
      let (unknown, q, h₂) =
        >>=-eq-ok (for_each (label_problem digit labels milestones t.id) t.labels) _ h₁ in
      let (missing, r, e) =
        >>=-eq-ok
          (for_each (reference_problem digit labels milestones ids t.id) (references digit t.body))
          _ h₂ in
      let (a, rest) = append-eq-nil _ _ (ok-injective e) in
      let (b, rest') = append-eq-nil _ _ rest in
      let (c, d) = append-eq-nil unknown missing rest' in
      record {
        well_formed = no_complaint _ _ a;
        phase = phase;
        phase_is = p;
        in_range = no_remark _ _ b;
        declared =
            All-weaken (declared_at t.id) t.labels
              (for_each-nil (label_problem digit labels milestones t.id) t.labels (q ∙ ap ok c));
        resolved = All-weaken (resolved_at ids t.id) (references digit t.body) (
            for_each-nil (reference_problem digit labels milestones ids t.id)
              (references digit t.body) (r ∙ ap ok d));
      }

  All-TicketOk :
      (ids : List Text) (tickets : List Ticket)
      → All (λ t. ticket_problems digit labels milestones ids t ≡ ok []) tickets
      → All (TicketOk ids) tickets
  All-TicketOk ids [] h = tt
  All-TicketOk ids (t ∷ tickets) (p, h) =
      (ticket_problems-TicketOk ids t p, All-TicketOk ids tickets h)

  -- If `check` finds no problem, then no two tickets share an id or a title, the ids are in the order of
  -- their numbers, and every ticket has a well-formed id, a milestone, declared labels, and references to
  -- tickets only.
  pub check_tickets-TicketOk :
      (tickets : List Ticket)
      → check_tickets digit labels milestones tickets ≡ ok []
      → Distinct (map (λ t. t.id) tickets)
        × Distinct (map (λ t. t.title) tickets)
        × (sorted_ids (map (λ t. t.id) tickets) ≡ ok (map (λ t. t.id) tickets))
        × All (TicketOk (map (λ t. t.id) tickets)) tickets
  unfolding check_tickets
  check_tickets-TicketOk tickets h =
      let ids = map (λ t. t.id) tickets in
      let (in_order, p, h₁) = >>=-eq-ok (sorted_ids (map (λ t. t.id) tickets)) _ h in
      let (problems, q, e) =
        >>=-eq-ok (for_each (ticket_problems digit labels milestones ids) tickets) _ h₁ in
      let (a, rest) = append-eq-nil _ _ (ok-injective e) in
      let (b, rest') = append-eq-nil _ _ rest in
      let (c, d) = append-eq-nil _ _ rest' in
      let same_ids = (==_iff (length (to_set ids)) (length ids)).0 (no_complaint _ _ a) in
      let titles = map (λ t. t.title) tickets in
      let same_titles = (==_iff (length (to_set titles)) (length titles)).0 (no_complaint _ _ b) in
      (
        Distinct-from ids same_ids,
        Distinct-from titles same_titles,
        p ∙ ap ok (sym ((==_iff ids in_order).0 (no_complaint _ _ c))),
        All-TicketOk ids tickets (for_each-nil _ _ (q ∙ ap ok d)),
      )
