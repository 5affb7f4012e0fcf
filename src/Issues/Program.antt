-- ===== src/Issues/Program.antt =====
-- What scripts/file_issues.py does step by step: `req`, `expect`, `print`, `token` and a call of `paged`.
-- A program takes what was done before it, and gives its end and what it does itself. An end of `none` is
-- a `paged` that has run out of rounds. Parameter: `server`, the status and the JSON that `req` returns. It may
-- answer a request by all that was done before. Not modelled: a request that raises URLError.
pub mod Triple
pub mod Succeeds
pub mod Creates
use nixos_homeserver.Base.{
  ℕ, Bool, true, false, Option, none, some, List, [], ◌∷◌, ◌++◌, if◌then◌else◌, ◌==◌, list_eq,
  nat_eq, Text, codes, Result, ok, err,
}
use nixos_homeserver.Base.Value.{Value}
use nixos_homeserver.Issues.Paged.{Ends, returns, exits, raises, Response, expect, paged}

-- The method, the URL, the body and the token of a request
pub record Request : Type 0 where
  pub method : Text
  pub url : Text
  pub payload : Option Value
  pub token : Text

-- `listed path` stands for the requests of one call of `paged`.
pub data Event : Type 0 where
  sent : Request → Event
  listed : Text → Event
  printed : Text → Event

abbrev pub Program : Type 0 → Type 0
Program A = List Event → Option (Ends A) × List Event

-- The statements that follow one that ended in this way, and did this
abbrev pub after : {A B : Type 0} → Option (Ends A) → List Event → (A → Program B) → Program B
after none new next done = (none, new)
after (some (exits message)) new next done = (some (exits message), new)
after (some (raises e)) new next done = (some (raises e), new)
after (some (returns x)) new next done = let rest = next x (done ++ new) in (rest.0, new ++ rest.1)

module _ {A B : Type 0} where
  infixl 5 ◌>>=◌ ◌>>◌
  unfoldable pub ◌>>=◌ : Program A → (A → Program B) → Program B
  m >>= next = λ done. after (m done).0 (m done).1 next done

  abbrev pub ◌>>◌ : Program A → Program B → Program B
  m >> next = m >>= λ _. next

unfoldable pub return : {A : Type 0} → A → Program A
return x done = (some (returns x), [])

unfoldable pub exit : {A : Type 0} → Text → Program A
exit message done = (some (exits message), [])

unfoldable pub print : Text → Program Unit
print line done = (some (returns tt), printed line ∷ [])

-- A statement that may raise an exception, and does nothing else
unfoldable pub run : {A : Type 0} → Result A → Program A
run (ok x) done = (some (returns x), [])
run (err e) done = (some (raises e), [])

-- `expect`
abbrev pub exit_if : Option Text → Program Unit
exit_if none = return tt
exit_if (some message) = exit message

-- `API + path`
abbrev pub api_url : Text → Text
api_url path = codes "https://api.github.com/repos/alexCranfield/nixos-homeserver" ++ path

-- The environment's variable, if it is set and not empty
abbrev set_variable : Option Text → Option Text
set_variable none = none
set_variable (some []) = none
set_variable (some (c ∷ s)) = some (c ∷ s)

abbrev warning : Text
warning = codes "warning: GITHUB_TOKEN unset, using account-wide GITHUB_MCP_PAT"

unfoldable pub token : (Text → Option Text) → Program Text
token environ = elim (set_variable (environ (codes "GITHUB_TOKEN"))) [
  | some tok ↦ return tok
  | none ↦ elim (set_variable (environ (codes "GITHUB_MCP_PAT"))) [
    | some tok ↦ print warning >> return tok
    | none ↦ exit (codes "error: set GITHUB_TOKEN to a token with Issues: write")
  ]
]

module _ (server : List Event → Request → Response) where
  unfoldable pub req : Text → Text → Option Value → Text → Program Response
  req method path payload tok done =
      let request : Request = record {
        method = method;
        url = api_url path;
        payload = payload;
        token = tok;
      } in
      (some (returns (server done request)), sent request ∷ [])

  -- A request that must be answered by one of these statuses
  unfoldable pub request : List ℕ → Text → Text → Option Value → Text → Text → Program Value
  unfolding req
  request statuses method path payload tok what = do
    response ← req method path payload tok
    exit_if (expect statuses response what)
    return response.body

  -- `paged(path, tok)`, of this many rounds at most
  unfoldable pub list_all : ℕ → Text → Text → Program (List Value)
  list_all rounds path tok done = (
    paged
        (λ page.
          server done
            (record { method = codes "GET"; url = api_url page; payload = none; token = tok }))
        path rounds,
    listed path ∷ [],
  )
