-- ===== src/Issues/Program/Creates.antt =====
-- The POST requests of a program of scripts/file_issues.py that returns.
use nixos_homeserver.Base.{
  ℕ, Option, none, some, List, [], ◌∷◌, ◌++◌, if◌then◌else◌, ◌==◌, list_eq, nat_eq, Text, codes,
  Result, ok, err, ◌≡◌, refl, ap₂, subst, ◌∙◌, inl, inr, Bool-cases,
}
use nixos_homeserver.Base.Value.{Value}
use nixos_homeserver.Issues.Paged.{Ends, returns, exits, raises, Response, expect}
use nixos_homeserver.Issues.Program.{
  Event, sent, listed, printed, Request, Program, after, ◌>>=◌, return, exit, print, run, exit_if,
  api_url, req, request,
}
use nixos_homeserver.Issues.Program.Triple.{returns-injective}

-- The URL and the body of each POST request, in order
abbrev pub posts : List Event → List (Text × Option Value)
posts [] = []
posts (sent r ∷ es) =
    let rest = posts es in if r.method == codes "POST" then (r.url, r.payload) ∷ rest else rest
posts (listed path ∷ es) = posts es
posts (printed line ∷ es) = posts es

posts-append : (es fs : List Event) → posts (es ++ fs) ≡ posts es ++ posts fs
posts-append [] fs = refl
posts-append (sent r ∷ es) fs = elim (Bool-cases (r.method == codes "POST")) [
  | inl h ↦ rw (h, posts-append es fs) refl
  | inr h ↦ rw (h, posts-append es fs) refl
]
posts-append (listed path ∷ es) fs = posts-append es fs
posts-append (printed line ∷ es) fs = posts-append es fs

-- A program whose POST requests, when it returns, are these, and whose value is one of Q
pub record Creates {A : Type 0} (found : List (Text × Option Value)) (Q : A → Type 0)
    (m : Program A) : Type 0 where
  pub if_returns :
      (done : List Event) (x : A) → (m done).0 ≡ some (returns x) → (posts (m done).1 ≡ found) × Q x

module _ {A B : Type 0} {ts us : List (Text × Option Value)} {Q : A → Type 0} {R : B → Type 0} where
  after-Creates :
      (end : Option (Ends A)) (new : List Event) (next : A → Program B) (done : List Event) (y : B)
      → ((x : A) → end ≡ some (returns x) → (posts new ≡ ts) × Q x)
      → ((x : A) → Q x → Creates us R (next x))
      → (after end new next done).0 ≡ some (returns y)
      → (posts (after end new next done).1 ≡ ts ++ us) × R y
  after-Creates none new next done y h k e = cc
  after-Creates (some (exits message)) new next done y h k e = cc
  after-Creates (some (raises f)) new next done y h k e = cc
  after-Creates (some (returns x)) new next done y h k e =
      let (here, q) = h x refl in
      let (later, r) = (k x q).if_returns (done ++ new) y e in
      (posts-append new (next x (done ++ new)).1 ∙ ap₂ (λ a b. a ++ b) here later, r)

  pub bind-Creates :
      (m : Program A) (next : A → Program B)
      → Creates ts Q m
      → ((x : A) → Q x → Creates us R (next x))
      → Creates (ts ++ us) R (m >>= next)
  unfolding ◌>>=◌
  bind-Creates m next h k = record {
    if_returns =
        λ done y e. after-Creates (m done).0 (m done).1 next done y (h.if_returns done) k e;
  }

module _ {A : Type 0} {Q : A → Type 0} where
  pub return-Creates : (x : A) → Q x → Creates [] Q (return x)
  unfolding return
  return-Creates x q = record { if_returns = λ done y e. (refl, subst Q (returns-injective e) q) }

  pub run-Creates : (r : Result A) → ((x : A) → r ≡ ok x → Q x) → Creates [] Q (run r)
  unfolding run return
  run-Creates (ok x) q = return-Creates x (q x refl)
  run-Creates (err e) q = record { if_returns = λ done y e. cc }

pub print-Creates : (line : Text) → Creates [] (λ _. Unit) (print line)
unfolding print
print-Creates line = record { if_returns = λ done y e. (refl, tt) }

pub relabel :
    {A : Type 0} {Q : A → Type 0} {m : Program A} {ts us : List (Text × Option Value)}
    → ts ≡ us
    → Creates ts Q m
    → Creates us Q m
relabel {A} {Q} {m} e c = subst (λ l. Creates l Q m) e c

pub weaken-Creates :
    {A : Type 0} {Q R : A → Type 0} {m : Program A} {ts : List (Text × Option Value)}
    → ((x : A) → Q x → R x)
    → Creates ts Q m
    → Creates ts R m
weaken-Creates f c = record {
  if_returns = λ done x e. let (found, q) = c.if_returns done x e in (found, f x q);
}

module _ (server : List Event → Request → Response) where
  pub request-Creates :
      (statuses : List ℕ) (method path : Text) (payload : Option Value) (tok what : Text)
      → Creates
          (if method == codes "POST" then (api_url path, payload) ∷ [] else [])
          (λ _. Unit)
          (request server statuses method path payload tok what)
  unfolding request req ◌>>=◌ return exit
  request-Creates statuses method path payload tok what = record {
    if_returns =
        λ done x e. answered (server done _) (expect statuses (server done _) what) done x e;
  }
    where
      event : Event
      event = sent (record { method = method; url = api_url path; payload = payload; token = tok })

      answered :
          (response : Response) (message : Option Text) (done : List Event) (x : Value)
          → (after {A = Unit}
              (exit_if message (done ++ event ∷ [])).0
              (exit_if message (done ++ event ∷ [])).1
              (λ _. return response.body)
              (done ++ event ∷ [])).0
            ≡ some (returns x)
          → (posts (
                event
                ∷ (after {A = Unit}
                    (exit_if message (done ++ event ∷ [])).0
                    (exit_if message (done ++ event ∷ [])).1
                    (λ _. return response.body)
                    (done ++ event ∷ [])).1)
              ≡ (if method == codes "POST" then (api_url path, payload) ∷ [] else []))
            × Unit {0}
      answered response none done x e = (refl, tt)
      answered response (some message) done x e = cc
