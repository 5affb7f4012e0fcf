-- ===== src/Issues/Filing/Rerun.antt =====
-- A second run of scripts/file_issues.py: GitHub has all that the first one filed.
use nixos_homeserver.Base.{
  ℕ, Bool, true, Option, some, List, [], ◌∷◌, list_eq, nat_eq, contains, map, Text, codes, ◌≡◌,
  refl, arith, ==_self,
}
use nixos_homeserver.Base.Lists.{All}
use nixos_homeserver.Base.Dict.{Dict, keys}
use nixos_homeserver.Base.Value.{Value}
use nixos_homeserver.Issues.Paged.{Response, returns}
use nixos_homeserver.Issues.Tickets.{Ticket}
use nixos_homeserver.Issues.Program.{Event, Request, Program, return, list_all}
use nixos_homeserver.Issues.Program.Succeeds.{
  Succeeds, bind-Succeeds, return-Succeeds, print-Succeeds,
}
use nixos_homeserver.Issues.Filing.Members.{All-map}
use nixos_homeserver.Issues.Filing.{file_all}
use nixos_homeserver.Issues.Listings.{TextSet, Label, numbers, names, issues}
use nixos_homeserver.Issues.Filing.Unchanged.{
  Filed, Reads, file_labels-Reads, file_milestones-Reads, file_tickets-Reads,
}

-- What the listings of GitHub say before a second run: every milestone and label, and an issue of every ticket
pub record Complete (digit : ℕ → Bool) (server : List Event → Request → Response) (rounds : ℕ)
    (tok : Text) (milestones : List (Text × Text)) (labels : List Label) (tickets : List Ticket)
    : Type 0 where
  pub milestone_entries : List Value
  pub label_entries : List Value
  pub issue_entries : List Value
  pub have : Dict Text Value
  pub have_labels : TextSet
  pub existing : Dict Text Value
  pub milestones_listed :
      (done : List Event)
      → (list_all server rounds (codes "/milestones?state=all") tok done).0
        ≡ some (returns milestone_entries)
  pub labels_listed :
      (done : List Event)
      → (list_all server rounds (codes "/labels") tok done).0 ≡ some (returns label_entries)
  pub issues_listed :
      (done : List Event)
      → (list_all server rounds (codes "/issues?state=all") tok done).0
        ≡ some (returns issue_entries)
  pub have_is : (done : List Event) → numbers [] milestone_entries done ≡ (some (returns have), [])
  pub have_labels_is :
      (done : List Event) → names [] label_entries done ≡ (some (returns have_labels), [])
  pub existing_is :
      (done : List Event) → issues [] issue_entries done ≡ (some (returns existing), [])
  pub all_milestones : All (λ m. contains (keys have) m.0 ≡ true) milestones
  pub all_labels : All (λ l. contains (keys have_labels) l.name ≡ true) labels
  pub all_issues : All (Filed digit existing (map (λ t. t.id) tickets)) tickets

equal-Succeeds :
    {A : Type 0} {P : Event → Type 0} (m : Program A) (x : A)
    → ((done : List Event) → m done ≡ (some (returns x), []))
    → Succeeds P (λ y. y ≡ x) m
unfolding return
equal-Succeeds m x e done = rw (e done) (return-Succeeds {Q = λ y. y ≡ x} x refl [])

listed_later : (x i : Text) (ids : List Text) → contains ids i ≡ true → contains (x ∷ ids) i ≡ true
listed_later x i ids h = ground arith

own_ids : (ts : List Ticket) → All (λ t. contains (map (λ u. u.id) ts) t.id ≡ true) ts
own_ids [] = tt
own_ids (t ∷ ts) = (
  ground (arith, ==_self t.id),
  All-map (λ u. listed_later t.id u.id (map (λ v. v.id) ts)) ts (own_ids ts),
)

module _ (digit : ℕ → Bool) (server : List Event → Request → Response) (rounds : ℕ)
    (environ : Text → Option Text) (milestones : List (Text × Text)) (labels : List Label)
    (tickets : List Ticket) (tok : Text) where
  list_all-Reads :
      (path : Text) (found : List Value)
      → ((done : List Event) → (list_all server rounds path tok done).0 ≡ some (returns found))
      → Succeeds Reads (λ entries. entries ≡ found) (list_all server rounds path tok)
  unfolding list_all
  list_all-Reads path found listing done = record {
    value = found;
    end_is = listing done;
    holds = refl;
    does = (tt, tt);
  }

  -- If GitHub lists every milestone, every label and an issue of every ticket, whose body has no reference to a
  -- ticket, then a run returns, and sends no request that changes anything.
  pub file_all-Reads :
      Complete digit server rounds tok milestones labels tickets
      → (done : List Event)
      → ((file_all digit server rounds environ milestones labels tickets tok done).0
          ≡ some (returns tt))
        × All Reads (file_all digit server rounds environ milestones labels tickets tok done).1
  unfolding file_all
  file_all-Reads c done =
      let result =
        bind-Succeeds {Q = λ found. found ≡ c.milestone_entries} {R = λ _. Unit} _ _
          (list_all-Reads _ _ c.milestones_listed)
          (λ found e.
            bind-Succeeds {Q = λ have. have ≡ c.have} _ _ (rw e (equal-Succeeds _ _ c.have_is))
              (λ have e.
                bind-Succeeds _ _
                  (file_milestones-Reads server tok 0 milestones c.have (have, []) e
                    c.all_milestones)
                  (λ filed _. bind-Succeeds _ _ (list_all-Reads _ _ c.labels_listed) (λ found e.
                    bind-Succeeds {Q = λ have. have ≡ c.have_labels} _ _
                      (rw e (equal-Succeeds _ _ c.have_labels_is))
                      (λ have e.
                        bind-Succeeds {Q = λ _. Unit} _ _
                          (rw e (file_labels-Reads server tok c.have_labels labels c.all_labels))
                          (λ _ _. bind-Succeeds _ _ (list_all-Reads _ _ c.issues_listed) (λ found e.
                            bind-Succeeds {Q = λ old. old ≡ c.existing} _ _
                              (rw e (equal-Succeeds _ _ c.existing_is))
                              (λ old e.
                                bind-Succeeds {Q = λ _. Unit} _ _
                                  (rw e (
                                    file_tickets-Reads digit server tok c.existing
                                      (map (λ t. t.id) tickets) filed.1 tickets (own_ids tickets)
                                      c.all_issues))
                                  (λ state _. print-Succeeds _ tt)))))))))
          done in
      (result.end_is, result.does)
