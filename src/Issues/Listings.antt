-- ===== src/Issues/Listings.antt =====
-- The dicts and sets that `main` of scripts/file_issues.py reads from the listings of GitHub.
use nixos_homeserver.Base.{
  none, some, List, [], ◌∷◌, if◌then◌else◌, list_eq, nat_eq, Text, codes, Result, ok, err,
  type_error, key_error,
}
use nixos_homeserver.Base.Dict.{Dict, lookup, insert}
use nixos_homeserver.Base.Value.{Value, str, arr, obj, index}
use nixos_homeserver.Base.Value.Access.{is_in}
use nixos_homeserver.Issues.Program.{Program, ◌>>=◌, return, run}

-- A label of LABELS
pub record Label : Type 0 where
  pub name : Text
  pub color : Text
  pub description : Text

-- A set of texts
abbrev pub TextSet : Type 0
TextSet = Dict {0, 0} Text Unit

-- `d[k]`
unfoldable pub item {ℓ} : {A : Type ℓ} → Dict Text A → Text → Result A
item d k = elim (lookup k d) [ none ↦ err key_error | some v ↦ ok v ]

-- A dict comprehension's `d[v] = w`, for a dict in which only texts are looked up: another key of it is left
-- out, and a list or a dict is no key.
unfoldable pub set_item {ℓ} : {A : Type ℓ} → Value → A → Dict Text A → Result (Dict Text A)
set_item (str s) w d = ok (insert s w d)
set_item (arr vs) w d = err type_error
set_item (obj fs) w d = err type_error
set_item _ w d = ok d

-- `{m["title"]: m["number"] for m in entries}`, after the entries before
unfoldable pub numbers : Dict Text Value → List Value → Program (Dict Text Value)
unfolding set_item
numbers d [] = return d
numbers d (m ∷ ms) = do
  title ← run (index m (codes "title"))
  number ← run (index m (codes "number"))
  d ← run (set_item title number d)
  numbers d ms

-- `{l["name"] for l in entries}`
unfoldable pub names : TextSet → List Value → Program (TextSet)
unfolding set_item
names d [] = return d
names d (l ∷ ls) = do name ← run (index l (codes "name")); d ← run (set_item name tt d); names d ls

-- `{i["title"]: i for i in entries if "pull_request" not in i}`
unfoldable pub issues : Dict Text Value → List Value → Program (Dict Text Value)
unfolding set_item
issues d [] = return d
issues d (i ∷ is) = do
  pull_request ← run (is_in (codes "pull_request") i)
  if pull_request
      then issues d is
      else (do title ← run (index i (codes "title")); d ← run (set_item title i d); issues d is)
