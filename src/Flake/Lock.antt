-- ===== src/Flake/Lock.antt =====
-- `direct_inputs`, `MOVABLE` and `lock_problems` of scripts/flake_update.py.
-- A set is a list here. The order in which Python runs through a set is not fixed: the model's is the
-- old lock's fields, then those that only the new lock has.
pub mod Keys
pub mod Locked
pub mod Frozen
pub mod Allowed
pub mod Quiet
use nixos_homeserver.Base.{
  ℕ, Bool, true, false, ◌&&◌, ◌||◌, not, Option, none, some, List, [], ◌∷◌, ◌++◌, if◌then◌else◌,
  ◌==◌, nat_eq, list_eq, contains, leb, Text, codes, starts_with, Result, ok, err, ◌>>=◌, for_each,
}
use nixos_homeserver.Base.Lists.{length, take, drop, all, select, same_set, difference, union}
use nixos_homeserver.Base.Dict.{Dict}
use nixos_homeserver.Base.Sort.{sorted, leb_text}
use nixos_homeserver.Base.Value.{
  Value, null, bool, num, str, arr, obj, Items, nil, cons, Fields, end, field, py_eq, get, index,
  or_null, or_default, dict_items, repr,
}
use nixos_homeserver.Base.Value.Access.{members, is_in}

abbrev between : ℕ → ℕ → ℕ → Bool
between low c high = leb low c && leb c high

-- `[0-9a-f]`, and `[A-Za-z0-9+/]`
hex_digit : ℕ → Bool
hex_digit c = between b'0' c b'9' || between b'a' c b'f'

base64_digit : ℕ → Bool
base64_digit c =
    between b'A' c b'Z' || between b'a' c b'z' || between b'0' c b'9' || c == b'+' || c == b'/'

-- `[0-9a-f]{40}` and `sha256-[A-Za-z0-9+/]{43}=`, matched against the whole text
unfoldable pub is_rev : Text → Bool
unfolding hex_digit
is_rev s = length s == 40 && all hex_digit s

unfoldable pub is_nar_hash : Text → Bool
unfolding base64_digit
is_nar_hash s =
    length s == 51
    && starts_with s (codes "sha256-")
    && all base64_digit (take 43 (drop 7 s))
    && drop 50 s == b'=' ∷ []

-- `isinstance(v, str) and MOVABLE[key].fullmatch(v)`
unfoldable pub matches : (Text → Bool) → Value → Bool
matches pattern (str s) = pattern s
matches pattern _ = false

-- `type(v) is int`
unfoldable pub is_int : Value → Bool
is_int (num n) = true
is_int _ = false

-- `problems.append(f"{name}: …")`
abbrev complain : Text → Text → List Text
complain name what = (name ++ codes ": " ++ what) ∷ []

-- `f"{sorted(set(…))}"`
text_items : List Text → Items
text_items [] = nil
text_items (s ∷ ss) = cons (str s) (text_items ss)

show_names : List Text → Text
unfolding text_items
show_names names = repr (arr (text_items (sorted leb_text names)))

-- `{k: v for k, v in lock.items() if k != "nodes"}`
without_nodes : Dict Text Value → Fields
without_nodes [] = end
without_nodes ((k, v) ∷ d) =
    let rest = without_nodes d in if k == codes "nodes" then rest else field k v rest

unfoldable pub top_level : Value → Result Value
unfolding without_nodes
top_level lock = do found ← dict_items lock; ok (obj (without_nodes found))

-- The round of the first inner loop, for one of the fields of a node
unfoldable pub node_field : Text → Value → Value → Text → Result (List Text)
node_field name o n key = elim (key == codes "locked") [
  | true ↦ ok []
  | false ↦ do
    a ← get o key
    b ← get n key
    ok (if py_eq (or_null a) (or_null b) then [] else complain name (key ++ codes " changed"))
]

unfoldable pub complain_unless : Bool → Text → Text → Result (List Text)
complain_unless fine name what = ok (if fine then [] else complain name what)

-- The round of the second inner loop, for one of the locked fields, whose new value is `v`
abbrev pub locked_value : Text → Value → Value → Text → Result (List Text)
unfolding complain_unless
locked_value name ol v key =
    if key == codes "rev"
    then complain_unless (matches is_rev v) name (codes "locked rev malformed")
    else if key == codes "narHash"
    then complain_unless (matches is_nar_hash v) name (codes "locked narHash malformed")
    else if key == codes "lastModified"
    then complain_unless (is_int v) name (codes "lastModified malformed")
    else get ol key >>= λ was.
        complain_unless (py_eq (or_null was) v) name (codes "locked " ++ key ++ codes " changed")

unfoldable pub locked_field : Text → Value → Value → Text → Result (List Text)
unfolding complain_unless
locked_field name ol nl key = do now ← get nl key; locked_value name ol (or_null now) key

-- The test at the end of a round: what may move, and what must not
unfoldable pub locked_move : Text → Value → Value → Result (List Text)
locked_move name ol nl = do
  a ← get ol (codes "rev")
  b ← get nl (codes "rev")
  elim (py_eq (or_null a) (or_null b)) [
    | true ↦
        ok (
          if py_eq ol nl
          then []
          else complain name (codes "hash or date changed without a new rev"))
    | false ↦ do
      c ← get ol (codes "type")
      ok (
          if py_eq (or_null c) (str (codes "github"))
          then []
          else complain name (codes "moved, but is not a GitHub input"))
  ]

-- What follows `if "locked" not in o: continue`
unfoldable pub locked_problems : Text → Value → Value → Result (List Text)
locked_problems name o n = do
  ol ← index o (codes "locked")
  written ← get n (codes "locked")
  let nl = or_default written (obj end)
  olds ← members ol
  news ← members nl
  fields ← for_each (locked_field name ol nl) (union olds news)
  move ← locked_move name ol nl
  ok (
      (if same_set olds news then [] else complain name (codes "locked fields changed"))
      ++ (fields ++ move))

-- A round of the loop over the nodes that both locks have
unfoldable pub node_problems : Value → Value → Text → Result (List Text)
node_problems old_nodes new_nodes name = do
  o ← index old_nodes name
  n ← index new_nodes name
  olds ← members o
  news ← members n
  fields ← for_each (node_field name o n) (union olds news)
  has ← is_in (codes "locked") o
  locked ← elim has [ true ↦ locked_problems name o n | false ↦ ok [] ]
  ok (
      (if same_set olds news then [] else complain name (codes "fields changed"))
      ++ (fields ++ locked))

unfoldable pub lock_problems : Value → Value → Result (List Text)
unfolding show_names
lock_problems old new = do
  a ← get old (codes "nodes")
  b ← get new (codes "nodes")
  let old_nodes = or_default a (obj end)
  let new_nodes = or_default b (obj end)
  old_top ← top_level old
  new_top ← top_level new
  olds ← members old_nodes
  news ← members new_nodes
  nodes ←
      for_each (node_problems old_nodes new_nodes) (sorted leb_text (select (contains news) olds))
  ok (
      (if py_eq old_top new_top then [] else codes "top-level fields changed" ∷ [])
      ++ ((if same_set olds news
            then []
            else (codes "nodes changed: added "
                ++ show_names (difference news olds)
                ++ codes ", removed "
                ++ show_names (difference olds news))
              ∷ [])
          ++ nodes))

-- `for name, ref in nodes["root"]["inputs"].items() if isinstance(ref, str)`, with the nodes read
named_nodes : Value → Dict Text Value → Result (Dict Text Value)
named_nodes nodes [] = ok []
named_nodes nodes ((name, str ref) ∷ d) = do
  node ← index nodes ref
  rest ← named_nodes nodes d
  ok ((name, node) ∷ rest)
named_nodes nodes ((name, _) ∷ d) = named_nodes nodes d

unfoldable pub direct_inputs : Value → Result (Dict Text Value)
unfolding named_nodes
direct_inputs lock = do
  nodes ← index lock (codes "nodes")
  root ← index nodes (codes "root")
  inputs ← index root (codes "inputs")
  found ← dict_items inputs
  named_nodes nodes found
