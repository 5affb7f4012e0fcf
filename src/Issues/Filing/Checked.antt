-- ===== src/Issues/Filing/Checked.antt =====
-- `main` of scripts/file_issues.py sends no request before its data have passed `check`.
use nixos_homeserver.Base.{
  ℕ, Bool, true, false, Option, some, List, [], ◌==◌, list_eq, nat_eq, contains, map, Text, codes,
  ok, ◌≡◌, ◌≢◌, ◌⊎◌, inl, inr, Bool-cases, ==_iff, ap, ◌∙◌,
}
use nixos_homeserver.Base.Lists.{length, All}
use nixos_homeserver.Issues.Paged.{Response, returns}
use nixos_homeserver.Issues.Tickets.{Ticket, check_tickets}
use nixos_homeserver.Issues.Program.{Event, sent, listed, printed, Request}
use nixos_homeserver.Issues.Program.Triple.{
  Triple, bind-Triple, run-Triple, print-Triple, exit-Triple, weaken-Triple, bind-returns,
}
use nixos_homeserver.Issues.Filing.{dry_run, main}
use nixos_homeserver.Issues.Listings.{Label}

-- No request
abbrev pub Offline : Event → Type 0
Offline (sent r) = ⊥
Offline (listed path) = ⊥
Offline (printed line) = Unit

module _ (digit : ℕ → Bool) (server : List Event → Request → Response) (rounds : ℕ)
    (environ : Text → Option Text) (milestones : List (Text × Text)) (labels : List Label)
    (tickets : List Ticket) where
  dry_run-Triple :
      Triple Offline
        (λ _. check_tickets digit (map (λ l. l.name) labels) (length milestones) tickets ≡ ok [])
        (dry_run digit server rounds environ milestones labels tickets)
  unfolding dry_run
  dry_run-Triple = bind-Triple _ _ (run-Triple _ (λ problems e. e)) (λ problems e.
      elim (Bool-cases (problems == [])) [
        | inl h ↦ rw h (
            bind-Triple _ _ (print-Triple _ tt) (λ _ _.
              weaken-Triple (λ _ _. e ∙ ap ok ((==_iff problems []).0 h)) (print-Triple _ tt)))
        | inr h ↦ rw h (exit-Triple _)
      ])

  -- `main` returns only if `check` finds no problem. If `check` finds one or raises an exception, or the
  -- command line has --dry-run, then `main` sends no request at all.
  pub main-Offline :
      (argv : List Text) (done : List Event)
      → ((main digit server rounds environ milestones labels tickets argv done).0
            ≡ some (returns tt)
          → check_tickets digit (map (λ l. l.name) labels) (length milestones) tickets ≡ ok [])
        × ((contains argv (codes "--dry-run") ≡ true)
              ⊎ (check_tickets digit (map (λ l. l.name) labels) (length milestones) tickets ≢ ok [])
            → All Offline (main digit server rounds environ milestones labels tickets argv done).1)
  unfolding main
  main-Offline argv done = elim (Bool-cases (contains argv (codes "--dry-run"))) [
    | inl dry ↦ rw dry (dry_run-Triple.gives done tt, λ _. dry_run-Triple.does done)
    | inr wet ↦ rw wet (
      (λ h. let (x, e) = bind-returns _ _ done tt h in dry_run-Triple.gives done x e),
      λ why. elim why [
        | inl dry ↦ absurd (apart dry)
        | inr bad ↦
            (bind-Triple
                {Q = λ _.
                  check_tickets digit (map (λ l. l.name) labels) (length milestones) tickets
                  ≡ ok []}
                {R = λ _. Unit} _ _ dry_run-Triple (λ _ good. absurd (bad good))).does
              done
      ],
    )
  ]
    where
      apart : false ≢ true
      apart = λ e. cc
