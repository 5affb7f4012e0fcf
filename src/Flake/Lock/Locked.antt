-- ===== src/Flake/Lock/Locked.antt =====
-- The locked fields: what the second inner loop and the last test of `lock_problems` of
-- scripts/flake_update.py accept.
use nixos_homeserver.Base.{
  true, false, some, List, [], nat_eq, list_eq, Text, codes, ok, >>=-eq-ok, ok-injective, for_each,
  ◌≡◌, subst, sym, ap, ◌∙◌, ◌≢◌, inl, inr, ==_self, ==_of_ne,
}
use nixos_homeserver.Base.Lists.{All, append-eq-nil, same_set, union}
use nixos_homeserver.Base.Value.{
  Value, str, obj, Fields, py_eq, get, index, or_null, or_default, end,
}
use nixos_homeserver.Base.Value.Access.{find, at, members, get-find, members-find, get-obj}
use nixos_homeserver.Flake.Lock.{
  matches, is_rev, is_nar_hash, is_int, locked_value, complain_unless, locked_field, locked_move,
  locked_problems,
}
use nixos_homeserver.Base.Loops.{for_each-nil, no_complaint}
use nixos_homeserver.Flake.Lock.Keys.{
  SameFields, SameFields-from, find-transfer, same_set_sym, All-union, frozen-from,
}

-- A locked input: a new rev in the right format and from GitHub, or nothing new at all.
pub record LockedOk (ol nl : Value) : Type 0 where
  pub fields : SameFields ol nl
  pub frozen :
      (key : Text)
      → key ≢ codes "rev"
      → key ≢ codes "narHash"
      → key ≢ codes "lastModified"
      → py_eq (at ol key) (at nl key) ≡ true
  pub rev_format : (v : Value) → find nl (codes "rev") ≡ some v → matches is_rev v ≡ true
  pub hash_format : (v : Value) → find nl (codes "narHash") ≡ some v → matches is_nar_hash v ≡ true
  pub date_format : (v : Value) → find nl (codes "lastModified") ≡ some v → is_int v ≡ true
  pub unmoved : py_eq (at ol (codes "rev")) (at nl (codes "rev")) ≡ true → py_eq ol nl ≡ true
  pub moved :
      py_eq (at ol (codes "rev")) (at nl (codes "rev")) ≡ false
      → py_eq (at ol (codes "type")) (str (codes "github")) ≡ true

hash-ne-rev : codes "narHash" ≢ codes "rev"
unfolding codes
hash-ne-rev e = cc

date-ne-rev : codes "lastModified" ≢ codes "rev"
unfolding codes
date-ne-rev e = cc

date-ne-hash : codes "lastModified" ≢ codes "narHash"
unfolding codes
date-ne-hash e = cc

-- A round of the loop over the locked fields that reports nothing
module _ (name : Text) (ol nl : Value) where
  locked_field-dict :
      (key : Text) → locked_field name ol nl key ≡ ok [] → (fs : Fields) × (nl ≡ obj fs)
  unfolding locked_field
  locked_field-dict key h = let (now, p, _) = >>=-eq-ok (get nl key) _ h in get-obj nl key p

  locked_field-rev :
      locked_field name ol nl (codes "rev") ≡ ok [] → matches is_rev (at nl (codes "rev")) ≡ true
  unfolding locked_field
  locked_field-rev h =
      let (now, p, e) = >>=-eq-ok (get nl (codes "rev")) _ h in
      rw (sym (get-find nl (codes "rev") p)) (
        no_complaint _ _
          (ok-injective (rw (==_self (codes "rev"), locked_value, complain_unless) at e)))

  locked_field-hash :
      locked_field name ol nl (codes "narHash") ≡ ok []
      → matches is_nar_hash (at nl (codes "narHash")) ≡ true
  unfolding locked_field
  locked_field-hash h =
      let (now, p, e) = >>=-eq-ok (get nl (codes "narHash")) _ h in
      rw (sym (get-find nl (codes "narHash") p)) (
        no_complaint _ _ (
          ok-injective (
            rw (==_of_ne hash-ne-rev, ==_self (codes "narHash"), locked_value, complain_unless) at
              e)))

  locked_field-date :
      locked_field name ol nl (codes "lastModified") ≡ ok []
      → is_int (at nl (codes "lastModified")) ≡ true
  unfolding locked_field
  locked_field-date h =
      let (now, p, e) = >>=-eq-ok (get nl (codes "lastModified")) _ h in
      rw (sym (get-find nl (codes "lastModified") p)) (
        no_complaint _ _ (
          ok-injective (
            rw
              (
                ==_of_ne date-ne-rev,
                ==_of_ne date-ne-hash,
                ==_self (codes "lastModified"),
                locked_value,
                complain_unless,
              )
              at e)))

  locked_field-frozen :
      (key : Text)
      → locked_field name ol nl key ≡ ok []
      → key ≢ codes "rev"
      → key ≢ codes "narHash"
      → key ≢ codes "lastModified"
      → ((fs : Fields) × (ol ≡ obj fs)) × (py_eq (at ol key) (at nl key) ≡ true)
  unfolding locked_field complain_unless
  locked_field-frozen key h p q r =
      let (now, m, e) = >>=-eq-ok (get nl key) _ h in
      let e' = rw (==_of_ne p, ==_of_ne q, ==_of_ne r, locked_value) at e in
      let (was, l, e₂) = >>=-eq-ok (get ol key) _ e' in
      let same = no_complaint _ _ (ok-injective e₂) in
      (get-obj ol key l, rw (sym (get-find ol key l), sym (get-find nl key m)) same)

pub locked_move-moved :
    (name : Text) (ol nl : Value)
    → locked_move name ol nl ≡ ok []
    → ((fs : Fields) × (ol ≡ obj fs))
      × ((gs : Fields) × (nl ≡ obj gs))
      × (py_eq (at ol (codes "rev")) (at nl (codes "rev")) ≡ true → py_eq ol nl ≡ true)
      × (py_eq (at ol (codes "rev")) (at nl (codes "rev")) ≡ false
          → py_eq (at ol (codes "type")) (str (codes "github")) ≡ true)
unfolding locked_move
locked_move-moved name ol nl h =
    let (a, p, h₁) = >>=-eq-ok (get ol (codes "rev")) _ h in
    let (b, q, h₂) = >>=-eq-ok (get nl (codes "rev")) _ h₁ in
    let h₃ = rw (get-find ol _ p, get-find nl _ q) at h₂ in
    (
      get-obj ol _ p,
      get-obj nl _ q,
      λ same. no_complaint _ _ (ok-injective (rw same at h₃)),
      λ other.
          let (c, r, e) = >>=-eq-ok (get ol (codes "type")) _ (rw other at h₃) in
          rw (sym (get-find ol _ r)) (no_complaint _ _ (ok-injective e)),
    )

-- What the rounds and the test at the end say together
pub LockedOk-from :
    (name : Text) (ol nl : Value) {olds news : List Text}
    → members ol ≡ ok olds
    → members nl ≡ ok news
    → same_set olds news ≡ true
    → All (λ key. locked_field name ol nl key ≡ ok []) (union olds news)
    → locked_move name ol nl ≡ ok []
    → LockedOk ol nl
LockedOk-from name ol nl {olds} {news} ho hn same rounds move =
    let (old_dict, new_dict, unmoved, moved) = locked_move-moved name ol nl move in
    record {
      fields = same_fields old_dict new_dict;
      frozen = λ key p q r. frozen-from ol nl key (same_fields old_dict new_dict) (λ v h.
          (locked_field-frozen name ol nl key
            (All-union ol nl ho hn _ key rounds (inl (members-find ol key ho h))) p q r).1);
      rev_format = λ v h. rw (sym (ap or_null h)) (locked_field-rev name ol nl (round_of _ v h));
      hash_format = λ v h. rw (sym (ap or_null h)) (locked_field-hash name ol nl (round_of _ v h));
      date_format = λ v h. rw (sym (ap or_null h)) (locked_field-date name ol nl (round_of _ v h));
      unmoved = unmoved;
      moved = moved;
    }
  where
    round_of : (key : Text) (v : Value) → find nl key ≡ some v → locked_field name ol nl key ≡ ok []
    round_of key v h = All-union ol nl ho hn _ key rounds (inr (members-find nl key hn h))

    same_fields : (fs : Fields) × (ol ≡ obj fs) → (gs : Fields) × (nl ≡ obj gs) → SameFields ol nl
    same_fields old_dict new_dict =
        SameFields-from ol nl (λ key v. find-transfer ol nl ho hn key v same new_dict)
          (λ key v. find-transfer nl ol hn ho key v (same_set_sym _ _ same) old_dict)

-- `locked_problems` reports nothing of a node only if what the locks hold for it may change so.
pub locked_problems-LockedOk :
    (name : Text) (o n : Value)
    → locked_problems name o n ≡ ok []
    → ((gs : Fields) × (n ≡ obj gs))
      × ((ol : Value) × (index o (codes "locked") ≡ ok ol)
          × LockedOk ol (or_default (find n (codes "locked")) (obj end)))
unfolding locked_problems
locked_problems-LockedOk name o n h =
    let (ol, p, h₁) = >>=-eq-ok (index o (codes "locked")) _ h in
    let (written, q, h₂) = >>=-eq-ok (get n (codes "locked")) _ h₁ in
    let (olds, r, h₃) = >>=-eq-ok (members ol) _ h₂ in
    let (news, s, h₄) = >>=-eq-ok (members (or_default written (obj end))) _ h₃ in
    let (rounds, t, h₅) = >>=-eq-ok (for_each (locked_field name ol _) (union olds news)) _ h₄ in
    let (move, u, e) = >>=-eq-ok (locked_move name ol _) _ h₅ in
    let (same, rest) = append-eq-nil _ _ (ok-injective e) in
    let (no_rounds, no_move) = append-eq-nil rounds move rest in
    let fine =
      LockedOk-from name ol _ r s (no_complaint _ _ same) (for_each-nil _ _ (t ∙ ap ok no_rounds))
        (u ∙ ap ok no_move) in
    (
      get-obj n _ q,
      (ol, p, subst (λ w. LockedOk ol (or_default w (obj end))) (get-find n _ q) fine),
    )
