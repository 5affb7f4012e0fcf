-- ===== src/Tests/Issues.antt =====
-- The theorems on scripts/file_issues.py at concrete inputs.
use nixos_homeserver.Base.{
  ℕ, suc, some, List, [], ◌∷◌, ◌≡◌, refl, arith, if◌then◌else◌, ◌==◌, Text, codes, ok, pos, nat_eq,
  list_eq, show,
}
use nixos_homeserver.Base.Value.{Value, num, arr, nil, cons, iterate}
use nixos_homeserver.Issues.Paged.{returns, Response, page_path, paged}
use nixos_homeserver.Issues.Paged.Complete.{Serves, page_path-injective, paged-all}
use nixos_homeserver.Base.{
  Bool, ◌&&◌, leb, Result, ◌≢◌, ==_self, ==_of_ne, zero, ◌≤◌, ◌*◌, ap, sym, int, split, for_each,
  int_eq,
}
use nixos_homeserver.Base.Lists.{take, drop, select}
use nixos_homeserver.Base.Sort.{sorted, to_set}
use nixos_homeserver.Issues.Tickets.{
  Ticket, check_tickets, ticket_problems, label_problem, reference_problem, phase_of, is_id,
  references, sorted_ids, id_key, leb_key,
}

-- Two issues, on the first page
abbrev two : List Value
two = num (pos 1) ∷ num (pos 2) ∷ []

abbrev first_path : Text
first_path = page_path (codes "/issues?state=all") 1

abbrev request : Text → Response
request path = record {
  status = 200;
  body = if path == first_path then arr (cons (num (pos 1)) (cons (num (pos 2)) nil)) else arr nil;
}

past : (n : ℕ) → 2 ≤ n → drop n two ≡ []
past zero h = absurd (omega arith)
past (suc zero) h = absurd (omega arith)
past (suc (suc zero)) h = refl
past (suc (suc (suc n))) h = refl

serves : Serves request (codes "/issues?state=all") two
unfolding iterate
serves k = elim (nat_eq.dec k 0) [
  | yes e ↦ rw e (refl, rw (==_self first_path) refl)
  | no later ↦ (
    refl,
    rw (==_of_ne (apart k later)) (ap (λ l. ok (take 100 l)) (sym (past (100 * k) (omega arith)))),
  )
]
  where
    apart : (k : ℕ) → k ≢ 0 → page_path (codes "/issues?state=all") (suc k) ≢ first_path
    apart k later = λ e.
        let same = page_path-injective (codes "/issues?state=all") (suc k) 1 e in
        later (omega arith)

paged-all_example : paged request (codes "/issues?state=all") 1 ≡ some (returns two)
paged-all_example = paged-all request (codes "/issues?state=all") two serves 1 (ground arith)

abbrev tickets : List Ticket
tickets =
    record {
      id = codes "0.9";
      title = codes "Boot";
      labels = codes "area:nix" ∷ [];
      body = codes "First.";
    }
    ∷ record { id = codes "0.10"; title = codes "Deploy"; labels = []; body = codes "After [0.9]." }
    ∷ []

abbrev labels : List Text
labels = codes "area:nix" ∷ []

ascii_digit : ℕ → Bool
ascii_digit c = leb b'0' c && leb c b'9'

check : List Ticket → Result (List Text)
unfolding check_tickets ticket_problems label_problem reference_problem phase_of is_id references
    sorted_ids id_key leb_key ascii_digit sorted to_set select for_each int split codes nat_eq
    list_eq int_eq show
check = check_tickets ascii_digit labels 1

tickets_run : check tickets ≡ ok []
unfolding check
tickets_run = refl
