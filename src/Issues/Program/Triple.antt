-- ===== src/Issues/Program/Triple.antt =====
-- What a program of scripts/file_issues.py does at most, and what holds of the value that it returns.
use nixos_homeserver.Base.{
  ℕ, Option, none, some, List, [], ◌∷◌, ◌++◌, Text, Result, ok, err, ◌≡◌, refl, sym, subst,
}
use nixos_homeserver.Base.Lists.{All, All-append}
use nixos_homeserver.Base.Value.{Value}
use nixos_homeserver.Issues.Paged.{Ends, returns, exits, raises, Response, expect}
use nixos_homeserver.Issues.Program.{
  Event, sent, printed, Request, Program, after, ◌>>=◌, return, exit, print, run, exit_if, api_url,
  req, request,
}

-- Everything that the program does satisfies P, and the value that it returns satisfies Q.
pub record Triple {A : Type 0} (P : Event → Type 0) (Q : A → Type 0) (m : Program A) : Type 0 where
  pub does : (done : List Event) → All P (m done).1
  pub gives : (done : List Event) (x : A) → (m done).0 ≡ some (returns x) → Q x

pub returns-injective :
    {A : Type 0} {x y : A} → Path (Option (Ends A)) (some (returns x)) (some (returns y)) → x ≡ y
returns-injective e = cc

-- The end of a sequence of two programs, and what it does, by the end of the first
after-does :
    (P : Event → Type 0) {A B : Type 0} (end : Option (Ends A)) (new : List Event)
    (next : A → Program B) (done : List Event)
    → All P new
    → ((x : A) → end ≡ some (returns x) → (earlier : List Event) → All P (next x earlier).1)
    → All P (after end new next done).1
after-does P none new next done h k = h
after-does P (some (exits message)) new next done h k = h
after-does P (some (raises e)) new next done h k = h
after-does P (some (returns x)) new next done h k =
    All-append P new (next x (done ++ new)).1 h (k x refl (done ++ new))

after-gives :
    {A B : Type 0} (end : Option (Ends A)) (new : List Event) (next : A → Program B)
    (done : List Event) (y : B)
    → (after end new next done).0 ≡ some (returns y)
    → (x : A) × (end ≡ some (returns x))
      × (earlier : List Event) × ((next x earlier).0 ≡ some (returns y))
after-gives none new next done y h = cc
after-gives (some (exits message)) new next done y h = cc
after-gives (some (raises e)) new next done y h = cc
after-gives (some (returns x)) new next done y h = (x, refl, done ++ new, h)

-- A sequence returns only if its first program does.
pub bind-returns :
    {A B : Type 0} (m : Program A) (next : A → Program B) (done : List Event) (y : B)
    → ((m >>= next) done).0 ≡ some (returns y)
    → (x : A) × ((m done).0 ≡ some (returns x))
unfolding ◌>>=◌
bind-returns m next done y h =
    let (x, e, earlier, rest) = after-gives (m done).0 (m done).1 next done y h in (x, e)

module _ {P : Event → Type 0} where
  module _ {A B : Type 0} {Q : A → Type 0} {R : B → Type 0} where
    pub bind-Triple :
        (m : Program A) (next : A → Program B)
        → Triple P Q m
        → ((x : A) → Q x → Triple P R (next x))
        → Triple P R (m >>= next)
    unfolding ◌>>=◌
    bind-Triple m next t u = record {
      does = λ done.
          after-does P (m done).0 (m done).1 next done (t.does done)
            (λ x e earlier. (u x (t.gives done x e)).does earlier);
      gives = λ done y h.
          let (x, e, earlier, k) = after-gives (m done).0 (m done).1 next done y h in
          (u x (t.gives done x e)).gives earlier y k;
    }

  pub weaken-Triple :
      {A : Type 0} {Q R : A → Type 0} {m : Program A}
      → ((x : A) → Q x → R x)
      → Triple P Q m
      → Triple P R m
  weaken-Triple f t = record { does = t.does; gives = λ done x e. f x (t.gives done x e) }

  module _ {A : Type 0} {Q : A → Type 0} where
    pub return-Triple : (x : A) → Q x → Triple P Q (return x)
    unfolding return
    return-Triple x q = record {
      does = λ done. tt;
      gives = λ done y e. subst Q (returns-injective e) q;
    }

    pub exit-Triple : (message : Text) → Triple P Q (exit message)
    unfolding exit
    exit-Triple message = record { does = λ done. tt; gives = λ done y e. cc }

    pub run-Triple : (r : Result A) → ((x : A) → r ≡ ok x → Q x) → Triple P Q (run r)
    unfolding run return
    run-Triple (ok x) q = return-Triple x (q x refl)
    run-Triple (err e) q = record { does = λ done. tt; gives = λ done y e. cc }

  pub print-Triple : (line : Text) → P (printed line) → Triple P (λ _. Unit) (print line)
  unfolding print
  print-Triple line p = record { does = λ done. (p, tt); gives = λ done y e. tt }

  module _ (server : List Event → Request → Response) where
    -- What it returns is the body of an answer to the request.
    pub request-Answered :
        (statuses : List ℕ) (method path : Text) (payload : Option Value) (tok what : Text)
        → P (sent (record { method = method; url = api_url path; payload = payload; token = tok }))
        → Triple P
            (λ body.
              (earlier : List Event) × (body
                ≡ (server earlier (record {
                  method = method;
                  url = api_url path;
                  payload = payload;
                  token = tok;
                })).body))
            (request server statuses method path payload tok what)
    unfolding request req ◌>>=◌ return exit
    request-Answered statuses method path payload tok what p = record {
      does = λ done. answered (server done _) (expect statuses (server done _) what) done p;
      gives = λ done y e.
          (done, answer (server done _) (expect statuses (server done _) what) done _ y e);
    }
      where
        answered :
            (response : Response) (message : Option Text) (done : List Event) {e : Event}
            → P e
            → All P (
                e
                ∷ (after {A = Unit}
                    (exit_if message (done ++ e ∷ [])).0
                    (exit_if message (done ++ e ∷ [])).1
                    (λ _. return response.body)
                    (done ++ e ∷ [])).1)
        answered response none done p = (p, tt)
        answered response (some message) done p = (p, tt)

        answer :
            (response : Response) (message : Option Text) (done : List Event) (e : Event)
            (y : Value)
            → (after {A = Unit}
                (exit_if message (done ++ e ∷ [])).0
                (exit_if message (done ++ e ∷ [])).1
                (λ _. return response.body)
                (done ++ e ∷ [])).0
              ≡ some (returns y)
            → y ≡ response.body
        answer response none done e y h = sym (returns-injective h)
        answer response (some message) done e y h = cc

    pub request-Triple :
        (statuses : List ℕ) (method path : Text) (payload : Option Value) (tok what : Text)
        → P (sent (record { method = method; url = api_url path; payload = payload; token = tok }))
        → Triple P (λ _. Unit) (request server statuses method path payload tok what)
    request-Triple statuses method path payload tok what p =
        weaken-Triple (λ _ _. tt) (request-Answered statuses method path payload tok what p)
