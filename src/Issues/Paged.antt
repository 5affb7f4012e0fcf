-- ===== src/Issues/Paged.antt =====
-- `expect` and `paged` of scripts/file_issues.py.
-- Parameter: `request`, the status and the JSON of a GET, which `req` returns. `exits` is SystemExit with a message,
-- and `raises` is another exception.
pub mod Complete
use nixos_homeserver.Base.{
  ℕ, zero, suc, ◌+◌, Bool, true, false, Option, none, some, List, [], ◌∷◌, ◌++◌, if◌then◌else◌, ltb,
  ◌==◌, nat_eq, list_eq, contains, Text, codes, show, Exception, Result, ok, err,
}
use nixos_homeserver.Base.Lists.{length}
use nixos_homeserver.Base.Value.{Value, iterate, str_of}

pub data Ends {ℓ} (A : Type ℓ) : Type ℓ where
  returns : A → Ends A
  exits : Text → Ends A
  raises : Exception → Ends A

-- A response: the HTTP status and the body
pub record Response : Type 0 where
  pub status : ℕ
  pub body : Value

-- `"?" in path`
separator : Text → Text
separator path = if contains path b'?' then codes "&" else codes "?"

unfoldable pub page_path : Text → ℕ → Text
unfolding separator
page_path path page = path ++ separator path ++ codes "per_page=100&page=" ++ show page

-- `expect`: the message with which the program ends, if the status is none of those that it takes
unfoldable pub expect : List ℕ → Response → Text → Option Text
expect statuses response what =
    if contains statuses response.status
    then none
    else some (
        codes "error: "
        ++ what
        ++ codes " failed with HTTP "
        ++ show response.status
        ++ codes ": "
        ++ str_of response.body)

module _ (request : Text → Response) (path : Text) where
  -- After `out += body`: the end of the loop, or the next round
  unfoldable pub next_page :
      List Value
      → Result (List Value)
      → (List Value → Option (Ends (List Value)))
      → Option (Ends (List Value))
  next_page out (err e) next = some (raises e)
  next_page out (ok body) next = elim (ltb (length body) 100) [
    | true ↦ some (returns (out ++ body))
    | false ↦ next (out ++ body)
  ]

  -- The rounds of the loop from a page on, or none if the fuel runs out
  unfoldable pub paged_from : ℕ → ℕ → List Value → Option (Ends (List Value))
  paged_from zero page out = none
  paged_from (suc fuel) page out =
      let response = request (page_path path page) in
      elim (expect (200 ∷ []) response (codes "GET " ++ path)) [
        | some message ↦ some (exits message)
        | none ↦ next_page out (iterate response.body) (paged_from fuel (suc page))
      ]

  unfoldable pub paged : ℕ → Option (Ends (List Value))
  paged fuel = paged_from fuel 1 []
