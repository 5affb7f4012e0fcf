-- ===== src/Issues/Tickets.antt =====
-- `check` of scripts/file_issues.py, on the data of scripts/tickets.py.
-- Parameters: `digit`, the characters that \d matches; the labels and the number of milestones.
pub mod Checked
use nixos_homeserver.Base.{
  ℕ, zero, suc, ◌+◌, Bool, true, false, ◌&&◌, ◌||◌, not, Option, none, some, List, [], ◌∷◌, ◌++◌,
  if◌then◌else◌, ltb, ◌==◌, nat_eq, list_eq, int_eq, contains, Text, codes, show, ℤ, pos, leb_ℤ,
  int, split, map, Exception, Result, ok, err, ◌>>=◌, for_each,
}
use nixos_homeserver.Base.Lists.{length}
use nixos_homeserver.Base.Sort.{sorted, to_set}

-- (id, title, labels, body)
pub record Ticket : Type 0 where
  pub id : Text
  pub title : Text
  pub labels : List Text
  pub body : Text

-- The digits at the start of a text, and what follows them
unfoldable pub span : (ℕ → Bool) → Text → Text × Text
span digit [] = ([], [])
span digit (c ∷ s) =
    let rest = span digit s in if digit c then (c ∷ rest.0, rest.1) else ([], c ∷ s)

-- `\d\.\d+` at the start of a text: the match, and what follows it
unfoldable pub id_at : (ℕ → Bool) → Text → Option (Text × Text)
unfolding span
id_at digit (c ∷ d ∷ s) =
    let (minor, rest) = span digit s in
    if digit c && d == b'.' && ltb 0 (length minor) then some (c ∷ d ∷ minor, rest) else none
id_at digit _ = none

-- `re.fullmatch(r"\d\.\d+", s)`
unfoldable pub is_id : (ℕ → Bool) → Text → Bool
unfolding id_at
is_id digit s = elim (id_at digit s) [ none ↦ false | some m ↦ m.1 == [] ]

-- The group, if what follows it closes the bracket
unfoldable pub closing : Text → Text → Option Text
closing id [] = none
closing id (d ∷ rest) = if d == b']' then some id else none

-- `\[(\d\.\d+)\]` at the start of a text: the group
unfoldable pub reference_at : (ℕ → Bool) → Text → Option Text
unfolding id_at closing
reference_at digit [] = none
reference_at digit (c ∷ s) =
    if c == b'[' then (elim (id_at digit s) [ none ↦ none | some m ↦ closing m.0 m.1 ]) else none

-- `re.findall(r"\[(\d\.\d+)\]", s)`. No match has a second `[`, so none begins inside another.
unfoldable pub references : (ℕ → Bool) → Text → List Text
unfolding reference_at
references digit [] = []
references digit (c ∷ s) =
    let rest = references digit s in
    elim (reference_at digit (c ∷ s)) [ none ↦ rest | some id ↦ id ∷ rest ]

-- `[int(p) for p in s.split(".")]`
ints : List Text → Result (List ℤ)
ints [] = ok []
ints (p ∷ ps) = do n ← int p; ns ← ints ps; ok (n ∷ ns)

unfoldable pub id_key : Text → Result (List ℤ)
unfolding ints
id_key id = ints (split id b'.')

-- `a <= b` on lists of numbers
unfoldable pub leb_key : List ℤ → List ℤ → Bool
leb_key [] ns = true
leb_key (m ∷ ms) [] = false
leb_key (m ∷ ms) (n ∷ ns) = let rest = leb_key ms ns in if m == n then rest else leb_ℤ m n

keyed : List Text → Result (List (List ℤ × Text))
keyed [] = ok []
keyed (id ∷ ids) = do k ← id_key id; rest ← keyed ids; ok ((k, id) ∷ rest)

-- `sorted(ids, key=…)`
unfoldable pub sorted_ids : List Text → Result (List Text)
unfolding keyed
sorted_ids ids = do ks ← keyed ids; ok (map (λ k. k.1) (sorted (λ a b. leb_key a.0 b.0) ks))

-- `id_.split(".")[0]`, of a list that is never empty
unfoldable pub phase_of : Text → Text
phase_of id = elim (split id b'.') [ [] ↦ [] | p ∷ ps ↦ p ]

module _ (digit : ℕ → Bool) (labels : List Text) (milestones : ℕ) where
  unfoldable pub label_problem : Text → Text → Result (List Text)
  label_problem id lab =
      ok (if contains labels lab then [] else (id ++ codes ": undeclared label " ++ lab) ∷ [])

  unfoldable pub reference_problem : List Text → Text → Text → Result (List Text)
  reference_problem ids id dep =
      ok (if contains ids dep then [] else (id ++ codes ": depends on unknown ticket " ++ dep) ∷ [])

  unfoldable pub ticket_problems : List Text → Ticket → Result (List Text)
  unfolding label_problem reference_problem phase_of
  ticket_problems ids t = do
    let malformed = if is_id digit t.id then [] else (t.id ++ codes ": malformed id") ∷ []
    phase ← int (phase_of t.id)
    let no_phase =
        if leb_ℤ (pos milestones) phase
        then (t.id ++ codes ": no milestone for phase " ++ phase_of t.id) ∷ []
        else []
    unknown_labels ← for_each (label_problem t.id) t.labels
    unknown_references ← for_each (reference_problem ids t.id) (references digit t.body)
    ok (malformed ++ (no_phase ++ (unknown_labels ++ unknown_references)))

  -- The problems of `check`
  unfoldable pub check_tickets : List Ticket → Result (List Text)
  check_tickets tickets = do
    let ids = map (λ t. t.id) tickets
    let titles = map (λ t. t.title) tickets
    in_order ← sorted_ids ids
    problems ← for_each (ticket_problems ids) tickets
    ok (
        (if length (to_set ids) == length ids then [] else codes "duplicate ticket ids" ∷ [])
        ++ ((if length (to_set titles) == length titles
              then []
              else codes "duplicate ticket titles" ∷ [])
            ++ ((if ids == in_order
                  then []
                  else codes
                      "ticket ids are not in sorted order, so the id -> issue number mapping breaks"
                    ∷ [])
                ++ problems)))
