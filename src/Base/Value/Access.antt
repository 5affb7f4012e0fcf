-- ===== src/Base/Value/Access.antt =====
-- What a program finds in a value: its fields, its members as a set, and slices of it.
use nixos_homeserver.Base.Branching.{Option-cases}
use nixos_homeserver.Base.Equality.{◌==◌, nat_eq, list_eq, contains, ==_of_ne}
use nixos_homeserver.Base.Exceptions.{
  Result, ok, err, ◌>>=◌, >>=-eq-ok, ok-injective, type_error, key_error,
}
use nixos_homeserver.Base.Texts.{Text, starts_with}
use nixos_homeserver.Base.Lists.{take}
use nixos_homeserver.Base.Dict.{lookup, keys, contains-keys}
use nixos_homeserver.Base.Sort.{to_set, contains-to_set}
use nixos_homeserver.Base.Value.{
  Value, null, bool, num, str, arr, obj, Items, nil, cons, Fields, entries, get, index, or_null,
  py_eq,
}
use mathlib.Core.Path.{◌≡◌, refl, sym, ap, ◌∙◌}
use mathlib.Core.Logic.{◌≢◌, inl, inr}
use mathlib.Core.Bool.{Bool, true, false, ◌||◌}
use mathlib.Core.Option.{Option, none, some}
use mathlib.Core.List.{List, [], ◌∷◌}
use Prim.Native.Nat.{ℕ, zero, suc}
use native.Mathlib.Omega.{arith}

-- The field of a dict, and `none` for a value that is no dict.
unfoldable pub find : Value → Text → Option Value
find (obj fs) k = lookup k (entries fs)
find _ k = none

-- `v.get(key)` of a dict
abbrev pub at : Value → Text → Value
at v k = or_null (find v k)

pub get-find : (v : Value) (k : Text) {o : Option Value} → get v k ≡ ok o → o ≡ find v k
unfolding get find
get-find (obj fs) k h = sym (ok-injective h)
get-find null k h = cc
get-find (bool b) k h = cc
get-find (num n) k h = cc
get-find (str s) k h = cc
get-find (arr vs) k h = cc

pub index-find : (v : Value) (k : Text) {w : Value} → index v k ≡ ok w → find v k ≡ some w
unfolding index find
index-find (obj fs) k h = ground arith
index-find null k h = cc
index-find (bool b) k h = cc
index-find (num n) k h = cc
index-find (str s) k h = cc
index-find (arr vs) k h = cc

characters : Text → List Text
characters [] = []
characters (c ∷ s) = (c ∷ []) ∷ characters s

texts : Items → Result (List Text)
texts nil = ok []
texts (cons (str s) vs) = do rest ← texts vs; ok (s ∷ rest)
texts (cons _ vs) = err type_error

-- `set(v)`, for the values whose members are texts. A list with another member raises TypeError
-- here, which Python does for a member that is a list or a dict.
unfoldable pub members : Value → Result (List Text)
unfolding characters texts
members (obj fs) = ok (to_set (keys (entries fs)))
members (str s) = ok (to_set (characters s))
members (arr vs) = do found ← texts vs; ok (to_set found)
members _ = err type_error

has_text : Text → Text → Bool
has_text [] k = k == []
has_text (c ∷ s) k = starts_with (c ∷ s) k || has_text s k

has_item : Items → Text → Bool
has_item nil k = false
has_item (cons v vs) k = py_eq v (str k) || has_item vs k

-- `key in v`
unfoldable pub is_in : Text → Value → Result Bool
unfolding has_text has_item
is_in k (obj fs) = ok (contains (keys (entries fs)) k)
is_in k (str s) = ok (has_text s k)
is_in k (arr vs) = ok (has_item vs k)
is_in k _ = err type_error

take_items : ℕ → Items → Items
take_items zero vs = nil
take_items (suc n) nil = nil
take_items (suc n) (cons v vs) = cons v (take_items n vs)

-- `v[:10]`
unfoldable pub first_ten : Value → Result Value
unfolding take_items
first_ten (str s) = ok (str (take 10 s))
first_ten (arr vs) = ok (arr (take_items 10 vs))
first_ten (obj fs) = err key_error
first_ten _ = err type_error

listed_before :
    (xs : List Text) (k : Text) {ks : List Text}
    → Path (Result (List Text)) (ok (to_set xs)) (ok ks)
    → contains ks k ≡ true
    → contains xs k ≡ true
listed_before xs k h m = sym (contains-to_set xs k) ∙ (ap (λ l. contains l k) (ok-injective h) ∙ m)

-- The members of a dict are its keys.
pub members-find :
    (v : Value) (k : Text) {ks : List Text} {w : Value}
    → members v ≡ ok ks
    → find v k ≡ some w
    → contains ks k ≡ true
unfolding members find
members-find (obj fs) k {ks} h f =
    rw (sym (ok-injective h), contains-to_set (keys (entries fs)) k)
      ((contains-keys (entries fs) k).1 (λ e. cc))
members-find null k h f = cc
members-find (bool b) k h f = cc
members-find (num n) k h f = cc
members-find (str s) k h f = cc
members-find (arr vs) k h f = cc

pub find-members :
    (fs : Fields) (k : Text) {ks : List Text}
    → members (obj fs) ≡ ok ks
    → contains ks k ≡ true
    → (w : Value) × (find (obj fs) k ≡ some w)
unfolding members find
find-members fs k {ks} h m = elim (Option-cases (lookup k (entries fs))) [
  | inl e ↦ absurd ((contains-keys (entries fs) k).0 (listed_before _ k h m) e)
  | inr found ↦ found
]

-- A key of two characters or more is no character of a text.
not_character : (s : Text) (c d : ℕ) (t : Text) → contains (characters s) (c ∷ d ∷ t) ≡ false
unfolding characters
not_character [] c d t = refl
not_character (e ∷ s) c d t = rw (==_of_ne (apart e), not_character s c d t)
  where
    apart : (e : ℕ) → c ∷ d ∷ t ≢ e ∷ []
    apart e = λ h. cc

has_item-texts :
    (vs : Items) (k : Text) {ks : List Text}
    → texts vs ≡ ok ks
    → contains ks k ≡ true
    → has_item vs k ≡ true
unfolding texts has_item py_eq
has_item-texts nil k h m = ap (λ l. contains l k) (ok-injective h) ∙ m
has_item-texts (cons (str s) vs) k h m =
    let (rest, q, e) = >>=-eq-ok (texts vs) _ h in
    let m' = ap (λ l. contains l k) (ok-injective e) ∙ m in ground (arith, has_item-texts vs k q)
has_item-texts (cons null vs) k h m = cc
has_item-texts (cons (bool b) vs) k h m = cc
has_item-texts (cons (num n) vs) k h m = cc
has_item-texts (cons (arr ws) vs) k h m = cc
has_item-texts (cons (obj fs) vs) k h m = cc

-- A member that can be read is a field.
pub indexed-find :
    (v : Value) (c d : ℕ) (t : Text) {ks : List Text} {has : Bool}
    → members v ≡ ok ks
    → contains ks (c ∷ d ∷ t) ≡ true
    → is_in (c ∷ d ∷ t) v ≡ ok has
    → (has ≡ true → (w : Value) × (index v (c ∷ d ∷ t) ≡ ok w))
    → (w : Value) × (find v (c ∷ d ∷ t) ≡ some w)
unfolding members is_in find index
indexed-find (obj fs) c d t h m i r = find-members fs (c ∷ d ∷ t) h m
indexed-find (arr vs) c d t {ks} {has} h m i r =
    let (found, q, e) = >>=-eq-ok (texts vs) _ h in
    let listed = has_item-texts vs (c ∷ d ∷ t) q (listed_before found _ e m) in
    absurd (unreadable (r (sym (ok-injective i) ∙ listed)))
  where
    unreadable : (x : Value) × (err type_error ≡ ok x) → ⊥
    unreadable (x, e) = cc
indexed-find (str s) c d t h m i r =
    let listed = listed_before (characters s) _ h m in let nowhere = not_character s c d t in cc
indexed-find null c d t h m i r = cc
indexed-find (bool b) c d t h m i r = cc
indexed-find (num n) c d t h m i r = cc

-- Only a dict has `get`.
pub get-obj :
    (v : Value) (k : Text) {o : Option Value} → get v k ≡ ok o → (fs : Fields) × (v ≡ obj fs)
unfolding get
get-obj (obj fs) k h = (fs, refl)
get-obj null k h = cc
get-obj (bool b) k h = cc
get-obj (num n) k h = cc
get-obj (str s) k h = cc
get-obj (arr vs) k h = cc

pub is_in-find :
    (v : Value) (k : Text) {has : Bool} {w : Value}
    → is_in k v ≡ ok has
    → find v k ≡ some w
    → has ≡ true
unfolding is_in find
is_in-find (obj fs) k h f = sym (ok-injective h) ∙ (contains-keys (entries fs) k).1 (λ e. cc)
is_in-find null k h f = cc
is_in-find (bool b) k h f = cc
is_in-find (num n) k h f = cc
is_in-find (str s) k h f = cc
is_in-find (arr vs) k h f = cc
