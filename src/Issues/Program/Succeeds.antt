-- ===== src/Issues/Program/Succeeds.antt =====
-- Programs of scripts/file_issues.py that return a value, whatever was done before.
use nixos_homeserver.Base.{
  Option, none, some, List, ◌++◌, Text, Result, ok, ◌≡◌, refl, sym, ap, subst,
}
use nixos_homeserver.Base.Lists.{All, All-append}
use nixos_homeserver.Issues.Paged.{Ends, returns, exits, raises}
use nixos_homeserver.Issues.Program.{Event, printed, Program, after, ◌>>=◌, return, print, run}

-- The program returns a value of Q, and everything that it does satisfies P.
pub record Returned {A : Type 0} (P : Event → Type 0) (Q : A → Type 0) (end : Option (Ends A))
    (new : List Event) : Type 0 where
  pub value : A
  pub end_is : end ≡ some (returns value)
  pub holds : Q value
  pub does : All P new

abbrev pub Succeeds : {A : Type 0} → (Event → Type 0) → (A → Type 0) → Program A → Type 0
Succeeds P Q m = (done : List Event) → Returned P Q (m done).0 (m done).1

module _ {P : Event → Type 0} {A B : Type 0} {Q : A → Type 0} {R : B → Type 0} where
  after-Returned :
      (end : Option (Ends A)) (new : List Event) (next : A → Program B) (done : List Event)
      → Returned P Q end new
      → ((x : A) → Q x → Succeeds P R (next x))
      → Returned P R (after end new next done).0 (after end new next done).1
  after-Returned none new next done r k = no_end r.end_is
    where
      no_end : {C : Type 0} {x : A} → Path (Option (Ends A)) none (some (returns x)) → C
      no_end e = cc
  after-Returned (some (exits message)) new next done r k = no_end r.end_is
    where
      no_end :
          {C : Type 0} {x : A}
          → Path (Option (Ends A)) (some (exits message)) (some (returns x))
          → C
      no_end e = cc
  after-Returned (some (raises e)) new next done r k = no_end r.end_is
    where
      no_end :
          {C : Type 0} {x : A} → Path (Option (Ends A)) (some (raises e)) (some (returns x)) → C
      no_end h = cc
  after-Returned (some (returns x)) new next done r k =
      let s = k x (subst Q (inside r.end_is) r.holds) (done ++ new) in
      record {
        value = s.value;
        end_is = s.end_is;
        holds = s.holds;
        does = All-append P new (next x (done ++ new)).1 r.does s.does;
      }
    where
      inside : {y : A} → Path (Option (Ends A)) (some (returns x)) (some (returns y)) → y ≡ x
      inside e = cc

  pub bind-Succeeds :
      (m : Program A) (next : A → Program B)
      → Succeeds P Q m
      → ((x : A) → Q x → Succeeds P R (next x))
      → Succeeds P R (m >>= next)
  unfolding ◌>>=◌
  bind-Succeeds m next s k done = after-Returned (m done).0 (m done).1 next done (s done) k

module _ {P : Event → Type 0} {A : Type 0} {Q : A → Type 0} where
  pub return-Succeeds : (x : A) → Q x → Succeeds P Q (return x)
  unfolding return
  return-Succeeds x q done = record { value = x; end_is = refl; holds = q; does = tt }

  pub run-Succeeds : (r : Result A) (x : A) → r ≡ ok x → Q x → Succeeds P Q (run r)
  unfolding run
  run-Succeeds r x e q done = record {
    value = x;
    end_is = ap (λ s. (run s done).0) e;
    holds = q;
    does = subst (λ s. All P (run s done).1) (sym e) tt;
  }

pub print-Succeeds :
    {P : Event → Type 0} (line : Text) → P (printed line) → Succeeds P (λ _. Unit) (print line)
unfolding print
print-Succeeds line p done = record { value = tt; end_is = refl; holds = tt; does = (p, tt) }
