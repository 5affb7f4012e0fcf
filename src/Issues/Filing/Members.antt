-- ===== src/Issues/Filing/Members.antt =====
-- The tickets of scripts/file_issues.py by their ids.
use nixos_homeserver.Base.{
  Bool, true, false, List, [], ◌∷◌, ◌==◌, list_eq, nat_eq, contains, map, Text, codes, ok, err,
  Exception, ◌||◌, ◌≡◌, refl, sym, ap, subst, ◌∙◌, ◌≢◌, inl, inr, ◌⊎◌, arith, Bool-cases, ==_iff,
  ==_self,
}
use nixos_homeserver.Base.Lists.{All, Any}
use nixos_homeserver.Base.Dict.{Dict, insert, keys, contains-keys, lookup-insert}
use nixos_homeserver.Base.Value.{Value}
use nixos_homeserver.Issues.Tickets.{Ticket}
use nixos_homeserver.Issues.Tickets.Checked.{Distinct}

abbrev pub Member : Ticket → List Ticket → Type 0
Member t ts = Any (λ u. u ≡ t) ts

pub All-map :
    {P Q : Ticket → Type 0} (f : (t : Ticket) → P t → Q t) (ts : List Ticket) → All P ts → All Q ts
All-map f [] h = tt
All-map f (t ∷ ts) (p, h) = (f t p, All-map f ts h)

pub own_tickets : (ts : List Ticket) → All (λ t. Member t ts) ts
own_tickets [] = tt
own_tickets (t ∷ ts) = (inl refl, All-map (λ u there. inr there) ts (own_tickets ts))

pub no_value {ℓ} : {A : Type ℓ} {e : Exception} {x : Value} → err e ≡ ok x → A
no_value h = cc

-- The keys of a dict after an assignment
pub keys-insert {κ} :
    {V : Type κ} (j k : Text) (v : V) (d : Dict Text V)
    → contains (keys (insert k v d)) j ≡ true
    → (j ≡ k) ⊎ (contains (keys d) j ≡ true)
keys-insert j k v d h = elim (Bool-cases (j == k)) [
  | inl same ↦ inl ((==_iff j k).0 same)
  | inr other ↦ inr (
      (contains-keys d j).1
        (λ absent. (contains-keys (insert k v d) j).0 h (lookup-insert j k v d ∙ rw other absent)))
]

pub post_is_no_patch : codes "POST" ≢ codes "PATCH"
unfolding codes
post_is_no_patch = λ e. cc

-- A ticket's id is among the ids.
id_listed :
    (t : Ticket) (ts : List Ticket) → Member t ts → contains (map (λ w. w.id) ts) t.id ≢ false
id_listed t [] there = absurd there
id_listed t (u ∷ ts) (inl p) =
    λ absent. one _ (subst (λ w. (t.id == w.id) ≡ true) (sym p) (==_self t.id)) absent
  where
    one : {a : Bool} (b : Bool) → a ≡ true → (a || b) ≡ false → ⊥
    one b e h = ground arith
id_listed t (u ∷ ts) (inr there) = λ absent. id_listed t ts there (ground arith)

-- Two tickets of one id are one ticket.
pub one_ticket :
    (t u : Ticket) (ts : List Ticket)
    → Distinct (map (λ v. v.id) ts)
    → Member t ts
    → Member u ts
    → t.id ≡ u.id
    → t ≡ u
one_ticket t u [] distinct here there e = absurd here
one_ticket t u (v ∷ ts) (unique, distinct) (inl p) (inl q) e = sym p ∙ q
one_ticket t u (v ∷ ts) (unique, distinct) (inl p) (inr there) e = absurd (
    id_listed u ts there
      (subst (λ i. contains (map (λ w. w.id) ts) i ≡ false) (ap (λ w. w.id) p ∙ e) unique))
one_ticket t u (v ∷ ts) (unique, distinct) (inr here) (inl q) e = absurd (
    id_listed t ts here
      (subst (λ i. contains (map (λ w. w.id) ts) i ≡ false) (ap (λ w. w.id) q ∙ sym e) unique))
one_ticket t u (v ∷ ts) (unique, distinct) (inr here) (inr there) e =
    one_ticket t u ts distinct here there e
