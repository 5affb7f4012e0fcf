-- ===== src/Flake/Lock/Quiet.antt =====
-- What `lock_problems` of scripts/flake_update.py says of the locked fields of an input that has moved as an update may move it:
-- nothing.
use nixos_homeserver.Base.{
  Bool, true, false, Option, none, some, List, [], ◌∷◌, nat_eq, list_eq, contains, Text, codes,
  Result, ok, ◌>>=◌, for_each, ◌≡◌, refl, sym, ap, ◌∙◌, inl, inr, arith, ==_iff, ==_of_ne,
  Bool-cases, Option-cases,
}
use nixos_homeserver.Base.Lists.{All, All-from, same_set, same_set_from, union, contains-union}
use nixos_homeserver.Base.Dict.{lookup, keys}
use nixos_homeserver.Base.Sort.{to_set}
use nixos_homeserver.Base.Value.{Value, obj, Fields, entries, py_eq, get, index}
use nixos_homeserver.Base.Value.Access.{find, at, members, members-find, find-members}
use nixos_homeserver.Flake.Lock.{
  locked_value, complain_unless, locked_field, locked_move, locked_problems,
}
use nixos_homeserver.Flake.Lock.Keys.{SameFields}
use nixos_homeserver.Flake.Lock.Locked.{LockedOk}

pub for_each-quiet {ℓ κ} :
    {A : Type ℓ} {B : Type κ} (f : A → Result (List B)) (xs : List A)
    → All (λ x. f x ≡ ok []) xs
    → for_each f xs ≡ ok []
unfolding for_each
for_each-quiet f [] h = refl
for_each-quiet f (x ∷ xs) (p, h) = rw (p, for_each-quiet f xs h) refl

-- The keys of a dict, as a set
abbrev pub key_set : Fields → List Text
key_set fs = to_set (keys (entries fs))

pub members-obj : (fs : Fields) → members (obj fs) ≡ ok (key_set fs)
unfolding members
members-obj fs = refl

pub found_of :
    (fs : Fields) (key : Text)
    → contains (key_set fs) key ≡ true
    → (w : Value) × (find (obj fs) key ≡ some w)
found_of fs key h = find-members fs key (members-obj fs) h

module _ (fs gs : Fields) (same : SameFields (obj fs) (obj gs)) where
  across :
      (key : Text) (v : Value)
      → find (obj fs) key ≡ some v
      → (w : Value) × (find (obj gs) key ≡ some w)
  across key v h = elim (Option-cases (find (obj gs) key)) [
    | inl e ↦ absurd (clash h ((same key).1 e))
    | inr found ↦ found
  ]
    where
      clash : {o : Option Value} → o ≡ some v → o ≡ none → ⊥
      clash p q = cc

  -- A key of either dict is one of the second.
  found_in_second :
      (key : Text)
      → contains (union (key_set fs) (key_set gs)) key ≡ true
      → (w : Value) × (find (obj gs) key ≡ some w)
  found_in_second key h = elim (Bool-cases (contains (key_set gs) key)) [
    | inl p ↦ found_of gs key p
    | inr q ↦
        let (v, p) =
          found_of fs key (ground (arith, contains-union (key_set fs) (key_set gs) key)) in
        across key v p
  ]

same_truth : (a b : Bool) → (a ≡ true → b ≡ true) → (b ≡ true → a ≡ true) → a ≡ b
same_truth true b f g = sym (f refl)
same_truth false true f g = g refl
same_truth false false f g = refl

key_across :
    (fs gs : Fields) (key : Text)
    → SameFields (obj fs) (obj gs)
    → contains (key_set fs) key ≡ true
    → contains (key_set gs) key ≡ true
key_across fs gs key same h =
    let (v, p) = found_of fs key h in
    let (w, q) = across fs gs same key v p in members-find (obj gs) key (members-obj gs) q

-- Two dicts with the same fields have the same set of keys.
pub same_keys :
    (fs gs : Fields) → SameFields (obj fs) (obj gs) → same_set (key_set fs) (key_set gs) ≡ true
same_keys fs gs same = same_set_from (key_set fs) (key_set gs) (λ key.
    same_truth _ _ (key_across fs gs key same)
      (key_across gs fs key (λ k. ((same k).1, (same k).0))))

pub get-obj_at : (fs : Fields) (key : Text) → get (obj fs) key ≡ ok (find (obj fs) key)
unfolding get find
get-obj_at fs key = refl

pub index-some :
    (fs : Fields) (key : Text) {v : Value} → find (obj fs) key ≡ some v → index (obj fs) key ≡ ok v
unfolding index find
index-some fs key {v} h = let e : lookup key (entries fs) ≡ some v = h in rw (e, index) refl

-- A round over the locked fields, and the test at the end, on a move that may be made
module _ (name : Text) (fs gs : Fields) (fine : LockedOk (obj fs) (obj gs)) where
  locked_field-fine :
      (key : Text) (v : Value)
      → find (obj gs) key ≡ some v
      → locked_field name (obj fs) (obj gs) key ≡ ok []
  unfolding locked_field complain_unless
  locked_field-fine key v h = elim (list_eq.dec key (codes "rev")) [
    | yes e ↦
        rw
          (
            get-obj_at gs key,
            h,
            (==_iff key (codes "rev")).1 e,
            locked_field,
            locked_value,
            complain_unless,
            fine.rev_format v (ap (find (obj gs)) (sym e) ∙ h),
          )
          refl
    | no p ↦ elim (list_eq.dec key (codes "narHash")) [
      | yes e ↦
          rw
            (
              get-obj_at gs key,
              h,
              ==_of_ne p,
              (==_iff key (codes "narHash")).1 e,
              locked_field,
              locked_value,
              complain_unless,
              fine.hash_format v (ap (find (obj gs)) (sym e) ∙ h),
            )
            refl
      | no q ↦ elim (list_eq.dec key (codes "lastModified")) [
        | yes e ↦
            rw
              (
                get-obj_at gs key,
                h,
                ==_of_ne p,
                ==_of_ne q,
                (==_iff key (codes "lastModified")).1 e,
                locked_field,
                locked_value,
                complain_unless,
                fine.date_format v (ap (find (obj gs)) (sym e) ∙ h),
              )
              refl
        | no r ↦
            rw
              (
                get-obj_at gs key,
                get-obj_at fs key,
                ==_of_ne p,
                ==_of_ne q,
                ==_of_ne r,
                locked_field,
                locked_value,
                fine.frozen key p q r,
              )
              refl
      ]
    ]
  ]

  locked_move-fine : locked_move name (obj fs) (obj gs) ≡ ok []
  unfolding locked_move
  locked_move-fine =
      elim (Bool-cases (py_eq (at (obj fs) (codes "rev")) (at (obj gs) (codes "rev")))) [
        | inl same ↦
            rw
              (
                get-obj_at fs (codes "rev"),
                get-obj_at gs (codes "rev"),
                locked_move,
                ◌>>=◌,
                same,
                fine.unmoved same,
              )
              refl
        | inr other ↦
            rw
              (
                get-obj_at fs (codes "rev"),
                get-obj_at gs (codes "rev"),
                locked_move,
                ◌>>=◌,
                other,
                get-obj_at fs (codes "type"),
                fine.moved other,
              )
              refl
      ]

pub locked_problems-fine :
    (name : Text) (os ns fs gs : Fields)
    → find (obj os) (codes "locked") ≡ some (obj fs)
    → find (obj ns) (codes "locked") ≡ some (obj gs)
    → LockedOk (obj fs) (obj gs)
    → locked_problems name (obj os) (obj ns) ≡ ok []
unfolding locked_problems
locked_problems-fine name os ns fs gs h k fine =
    let rounds =
      All-from (λ key. locked_field name (obj fs) (obj gs) key ≡ ok [])
        (union (key_set fs) (key_set gs))
        (λ key m.
          let (v, p) = found_in_second fs gs fine.fields key m in
          locked_field-fine name fs gs fine key v p) in
    rw
      (
        index-some os (codes "locked") h,
        get-obj_at ns (codes "locked"),
        k,
        locked_problems,
        members-obj fs,
        members-obj gs,
        for_each-quiet (locked_field name (obj fs) (obj gs)) (union (key_set fs) (key_set gs))
            rounds,
        locked_move-fine name fs gs fine,
        same_keys fs gs fine.fields,
      )
      refl
