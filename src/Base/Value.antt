-- ===== src/Base/Value.antt =====
-- The values that `json.loads` and `yaml.safe_load` return, with Python's operations on them.
-- Keys of objects are texts, and numbers are integers: no file that the programs read has a float.
-- `repr` writes printable ASCII as Python does, and escapes the backslash, the quote, \n, \r, \t.
pub mod Access
use Prim.Native.Nat.{ℕ}
use mathlib.Core.Bool.{Bool, true, false, ◌&&◌, ◌||◌, not}
use mathlib.Core.Option.{Option, none, some}
use mathlib.Core.List.{List, [], ◌∷◌, ◌++◌}
use nixos_homeserver.Base.Branching.{if◌then◌else◌}
use nixos_homeserver.Base.Equality.{◌==◌, nat_eq, list_eq, contains}
use nixos_homeserver.Base.Integers.{ℤ, pos, int_eq, show_int}
use nixos_homeserver.Base.Exceptions.{Result, ok, err, type_error, attribute_error, key_error}
use nixos_homeserver.Base.Texts.{Text, codes}
use nixos_homeserver.Base.Lists.{length}
use nixos_homeserver.Base.Dict.{Dict, lookup}

mutual
  pub data Value : Type 0 where
    null : Value
    bool : Bool → Value
    num : ℤ → Value
    str : Text → Value
    arr : Items → Value
    obj : Fields → Value

  pub data Items : Type 0 where
    nil : Items
    cons : Value → Items → Items

  pub data Fields : Type 0 where
    end : Fields
    field : Text → Value → Fields → Fields

-- The members of a list, and the entries of a dict.
abbrev pub items : Items → List Value
items nil = []
items (cons v vs) = v ∷ items vs

abbrev pub entries : Fields → Dict Text Value
entries end = []
entries (field k v fs) = (k, v) ∷ entries fs

abbrev pub as_int : Bool → ℤ
as_int true = pos 1
as_int false = pos 0

-- `v == w`: a bool equals the integer 0 or 1, and the order of a dict's entries is no matter.
unfoldable mutual
  pub py_eq : Value → Value → Bool
  py_eq null null = true
  py_eq (bool a) (bool b) = as_int a == as_int b
  py_eq (bool a) (num n) = as_int a == n
  py_eq (num m) (bool b) = m == as_int b
  py_eq (num m) (num n) = m == n
  py_eq (str s) (str t) = s == t
  py_eq (arr vs) (arr ws) = py_eq_items vs ws
  py_eq (obj fs) (obj gs) = length (entries fs) == length (entries gs) && py_eq_fields fs gs
  py_eq _ _ = false

  pub py_eq_items : Items → Items → Bool
  py_eq_items nil nil = true
  py_eq_items (cons v vs) (cons w ws) = py_eq v w && py_eq_items vs ws
  py_eq_items _ _ = false

  pub py_eq_fields : Fields → Fields → Bool
  py_eq_fields end gs = true
  py_eq_fields (field k v fs) gs =
      elim (lookup k (entries gs)) [ none ↦ false | some w ↦ py_eq v w ] && py_eq_fields fs gs

-- `bool(v)`
unfoldable pub truthy : Value → Bool
truthy null = false
truthy (bool b) = b
truthy (num n) = not (n == pos 0)
truthy (str s) = not (s == [])
truthy (arr nil) = false
truthy (arr (cons v vs)) = true
truthy (obj end) = false
truthy (obj (field k v fs)) = true

-- `v or {}`, `v or []`
unfoldable pub or_else : Value → Value → Value
unfolding truthy
or_else v w = if truthy v then v else w

-- `v.get(key)` and `v[key]` for a `v` that should be a dict
unfoldable pub get : Value → Text → Result (Option Value)
get (obj fs) k = ok (lookup k (entries fs))
get _ k = err attribute_error

unfoldable pub index : Value → Text → Result Value
index (obj fs) k = elim (lookup k (entries fs)) [ none ↦ err key_error | some v ↦ ok v ]
index _ k = err type_error

-- `d.get(key)`, `d.get(key, default)`
abbrev pub or_null : Option Value → Value
or_null none = null
or_null (some v) = v

abbrev pub or_default : Option Value → Value → Value
or_default none v = v
or_default (some w) v = w

characters : Text → List Value
characters [] = []
characters (c ∷ s) = str (c ∷ []) ∷ characters s

field_names : Fields → List Value
field_names end = []
field_names (field k v fs) = str k ∷ field_names fs

-- `for x in v`
unfoldable pub iterate : Value → Result (List Value)
unfolding characters field_names
iterate (arr vs) = ok (items vs)
iterate (obj fs) = ok (field_names fs)
iterate (str s) = ok (characters s)
iterate _ = err type_error

-- `v.items()`
unfoldable pub dict_items : Value → Result (Dict Text Value)
dict_items (obj fs) = ok (entries fs)
dict_items _ = err attribute_error

escape : ℕ → Text → Text
escape quote [] = []
escape quote (c ∷ s) =
    let rest = escape quote s in
    if c == b'\\' || c == quote
    then b'\\' ∷ c ∷ rest
    else if c == 10
    then b'\\' ∷ b'n' ∷ rest
    else if c == 13
    then b'\\' ∷ b'r' ∷ rest
    else if c == 9
    then b'\\' ∷ b't' ∷ rest
    else c ∷ rest

quote_of : Text → ℕ
quote_of s = if contains s b'\'' && not (contains s b'"') then b'"' else b'\''

repr_text : Text → Text
unfolding escape quote_of
repr_text s = quote_of s ∷ (escape (quote_of s) s ++ quote_of s ∷ [])

-- `repr(v)`
unfoldable mutual
  unfolding repr_text

  pub repr : Value → Text
  repr null = codes "None"
  repr (bool true) = codes "True"
  repr (bool false) = codes "False"
  repr (num n) = show_int n
  repr (str s) = repr_text s
  repr (arr nil) = codes "[]"
  repr (arr (cons v vs)) = codes "[" ++ repr v ++ repr_items vs ++ codes "]"
  repr (obj end) = codes "{}"
  repr (obj (field k v fs)) =
      codes "{" ++ repr_text k ++ codes ": " ++ repr v ++ repr_fields fs ++ codes "}"

  pub repr_items : Items → Text
  repr_items nil = []
  repr_items (cons v vs) = codes ", " ++ repr v ++ repr_items vs

  pub repr_fields : Fields → Text
  repr_fields end = []
  repr_fields (field k v fs) = codes ", " ++ repr_text k ++ codes ": " ++ repr v ++ repr_fields fs

-- `str(v)`, which is what an f-string writes
unfoldable pub str_of : Value → Text
str_of (str s) = s
str_of null = repr null
str_of (bool b) = repr (bool b)
str_of (num n) = repr (num n)
str_of (arr vs) = repr (arr vs)
str_of (obj fs) = repr (obj fs)
