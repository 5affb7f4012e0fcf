-- ===== src/Flake/Lock/Keys.antt =====
-- How the loops of `lock_problems` of scripts/flake_update.py run through the fields of two dicts.
use nixos_homeserver.Base.{
  true, Option, none, some, List, nat_eq, list_eq, contains, Text, ok, ◌≡◌, refl, sym, ap, ◌∙◌, ◌↔◌,
  ◌⊎◌, inl, inr, arith, Option-cases,
}
use nixos_homeserver.Base.Lists.{All, All_at, same_set, same_set_at, union, contains-union}
use nixos_homeserver.Base.Value.{Value, null, obj, Fields, py_eq, or_null}
use nixos_homeserver.Base.Value.Access.{find, at, members, members-find, find-members}

-- The same fields, whatever they hold.
abbrev pub SameFields : Value → Value → Type 0
SameFields a b = (key : Text) → (find a key ≡ none) ↔ (find b key ≡ none)

pub SameFields-from :
    (a b : Value)
    → ((key : Text) (v : Value) → find a key ≡ some v → (w : Value) × (find b key ≡ some w))
    → ((key : Text) (w : Value) → find b key ≡ some w → (v : Value) × (find a key ≡ some v))
    → SameFields a b
SameFields-from a b f g key = (
  λ e. elim (Option-cases (find b key)) [ inl h ↦ h | inr (w, h) ↦ absurd (clash (g key w h) e) ],
  λ e. elim (Option-cases (find a key)) [ inl h ↦ h | inr (v, h) ↦ absurd (clash (f key v h) e) ],
)
  where
    clash : {o : Option Value} → (v : Value) × (o ≡ some v) → o ≡ none → ⊥
    clash (v, h) e = cc

module _ (a b : Value) {xs ys : List Text} (ha : members a ≡ ok xs) (hb : members b ≡ ok ys) where
  -- A field of `a` is one of `b`, if both have the same members and `b` is a dict.
  pub find-transfer :
      (key : Text) (v : Value)
      → same_set xs ys ≡ true
      → (fs : Fields) × (b ≡ obj fs)
      → find a key ≡ some v
      → (w : Value) × (find b key ≡ some w)
  find-transfer key v same (fs, q) h =
      let m = sym (same_set_at xs ys key same) ∙ members-find a key ha h in
      let (w, r) = find-members fs key (ap members (sym q) ∙ hb) m in
      (w, ap (λ u. find u key) q ∙ r)

  -- What the loop over the fields says of a field of one of them.
  pub All-union :
      (P : Text → Type 0) (key : Text)
      → All P (union xs ys)
      → (contains xs key ≡ true) ⊎ (contains ys key ≡ true)
      → P key
  All-union P key h m = All_at P (union xs ys) key h (found m)
    where
      found :
          (contains xs key ≡ true) ⊎ (contains ys key ≡ true) → contains (union xs ys) key ≡ true
      found (inl p) = ground (arith, contains-union xs ys key)
      found (inr p) = ground (arith, contains-union xs ys key)

py_eq-null : py_eq null null ≡ true
unfolding py_eq
py_eq-null = refl

pub frozen-from :
    (a b : Value) (key : Text)
    → SameFields a b
    → ((v : Value) → find a key ≡ some v → py_eq (at a key) (at b key) ≡ true)
    → py_eq (at a key) (at b key) ≡ true
frozen-from a b key same f = elim (Option-cases (find a key)) [
  | inl e ↦ rw (ap or_null e, ap or_null ((same key).0 e)) py_eq-null
  | inr (v, h) ↦ f v h
]

pub same_set_sym : (xs ys : List Text) → same_set xs ys ≡ true → same_set ys xs ≡ true
unfolding same_set
same_set_sym xs ys h = ground arith
