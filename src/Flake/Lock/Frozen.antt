-- ===== src/Flake/Lock/Frozen.antt =====
-- What `lock_problems` of scripts/flake_update.py promises of a lock without problems.
use nixos_homeserver.Base.{
  Bool, true, false, some, List, [], nat_eq, list_eq, contains, Text, codes, ok, >>=-eq-ok,
  ok-injective, for_each, ◌≡◌, subst, sym, ap, ◌∙◌, ◌≢◌, inl, inr, arith, ==_of_ne,
}
use nixos_homeserver.Base.Lists.{
  All, All_at, append-eq-nil, same_set, same_set_at, union, select, contains-select,
}
use nixos_homeserver.Base.Sort.{sorted, contains-sorted, leb_text}
use nixos_homeserver.Base.Value.{Value, obj, Fields, py_eq, get, index, or_default, end}
use nixos_homeserver.Base.Value.Access.{
  find, at, members, is_in, get-find, index-find, members-find, indexed-find, get-obj, is_in-find,
}
use nixos_homeserver.Flake.Lock.{
  top_level, node_field, locked_problems, node_problems, lock_problems,
}
use nixos_homeserver.Base.Loops.{for_each-nil, no_complaint}
use nixos_homeserver.Flake.Lock.Keys.{
  SameFields, SameFields-from, find-transfer, same_set_sym, All-union, frozen-from,
}
use nixos_homeserver.Flake.Lock.Locked.{LockedOk, locked_problems-LockedOk}

pub record NodeOk (o n : Value) : Type 0 where
  pub fields : SameFields o n
  pub frozen : (key : Text) → key ≢ codes "locked" → py_eq (at o key) (at n key) ≡ true
  pub locked :
      (ol : Value)
      → find o (codes "locked") ≡ some ol
      → (nl : Value) × (find n (codes "locked") ≡ some nl) × LockedOk ol nl

-- The nodes of a lock, as `lock.get("nodes", {})` gives them.
abbrev pub nodes_of : Value → Value
nodes_of lock = or_default (find lock (codes "nodes")) (obj end)

-- The new lock differs from the old one in the revs, hashes and dates of the locked inputs only.
pub record LockOk (old new : Value) : Type 0 where
  pub top : (a b : Value) × (top_level old ≡ ok a) × (top_level new ≡ ok b) × (py_eq a b ≡ true)
  pub kept :
      (name : Text) (o : Value)
      → find (nodes_of old) name ≡ some o
      → (n : Value) × (find (nodes_of new) name ≡ some n) × NodeOk o n
  pub no_other :
      (name : Text) (n : Value)
      → find (nodes_of new) name ≡ some n
      → (o : Value) × (find (nodes_of old) name ≡ some o) × NodeOk o n

-- A round of the loop over the fields of a node that reports nothing
node_field-frozen :
    (name : Text) (o n : Value) (key : Text)
    → node_field name o n key ≡ ok []
    → key ≢ codes "locked"
    → ((fs : Fields) × (o ≡ obj fs))
      × ((gs : Fields) × (n ≡ obj gs))
      × (py_eq (at o key) (at n key) ≡ true)
unfolding node_field
node_field-frozen name o n key h p =
    let (a, q, h₁) = >>=-eq-ok (get o key) _ (rw (==_of_ne p, node_field) at h) in
    let (b, r, e) = >>=-eq-ok (get n key) _ h₁ in
    let same = no_complaint _ _ (ok-injective e) in
    (get-obj o key q, get-obj n key r, rw (sym (get-find o key q), sym (get-find n key r)) same)

pub same_value : {v w : Value} → some v ≡ some w → v ≡ w
same_value e = cc

-- A member `locked` that can be read is a field.
locked-find :
    (v : Value) {ks : List Text} {has : Bool}
    → members v ≡ ok ks
    → contains ks (codes "locked") ≡ true
    → is_in (codes "locked") v ≡ ok has
    → (has ≡ true → (w : Value) × (index v (codes "locked") ≡ ok w))
    → (w : Value) × (find v (codes "locked") ≡ some w)
unfolding codes
locked-find v = indexed-find v b'l' b'o' (codes "cked")

-- What holds of a key that a node has, in each of the two locks
module _ (name : Text) (o n : Value) {olds news : List Text} {has : Bool} (ho : members o ≡ ok olds)
    (hn : members n ≡ ok news) (same : same_set olds news ≡ true)
    (rounds : All (λ key. node_field name o n key ≡ ok []) (union olds news))
    (hi : is_in (codes "locked") o ≡ ok has)
    (hl : has ≡ true → locked_problems name o n ≡ ok []) where
  still_there : (key : Text) (v : Value) → find o key ≡ some v → (w : Value) × (find n key ≡ some w)
  still_there key v h = elim (list_eq.dec key (codes "locked")) [
    | yes e ↦
        let fine = hl (is_in-find o (codes "locked") hi (ap (find o) (sym e) ∙ h)) in
        find-transfer o n ho hn key v same (locked_problems-LockedOk name o n fine).0 h
    | no p ↦
        let round = All-union o n ho hn _ key rounds (inl (members-find o key ho h)) in
        find-transfer o n ho hn key v same (node_field-frozen name o n key round p).1 h
  ]

  not_new : (key : Text) (w : Value) → find n key ≡ some w → (v : Value) × (find o key ≡ some v)
  not_new key w h = elim (list_eq.dec key (codes "locked")) [
    | yes e ↦
        let m = same_set_at olds news key same ∙ members-find n key hn h in
        let (v, q) =
          locked-find o ho (ap (contains olds) (sym e) ∙ m) hi
            (λ t. let (ol, p, _) = (locked_problems-LockedOk name o n (hl t)).1 in (ol, p)) in
        (v, ap (find o) e ∙ q)
    | no p ↦
        let round = All-union o n ho hn _ key rounds (inr (members-find n key hn h)) in
        find-transfer n o hn ho key w (same_set_sym _ _ same)
          (node_field-frozen name o n key round p).0 h
  ]

  NodeOk-from : NodeOk o n
  NodeOk-from = record {
    fields = SameFields-from o n still_there not_new;
    frozen = λ key p. frozen-from o n key (SameFields-from o n still_there not_new) (λ v h.
        (node_field-frozen name o n key
          (All-union o n ho hn _ key rounds (inl (members-find o key ho h))) p).2);
    locked = locked_kept;
  }
    where
      locked_kept :
          (ol : Value)
          → find o (codes "locked") ≡ some ol
          → (nl : Value) × (find n (codes "locked") ≡ some nl) × LockedOk ol nl
      locked_kept ol h =
          let (nl, q) = still_there (codes "locked") ol h in
          let (_, (was, p, fine)) =
            locked_problems-LockedOk name o n (hl (is_in-find o (codes "locked") hi h)) in
          let same_old = same_value (sym (index-find o (codes "locked") p) ∙ h) in
          (
            nl,
            q,
            subst (λ l. LockedOk l nl) same_old
                (subst (λ w. LockedOk was (or_default w (obj end))) q fine),
          )

-- A round of the loop over the nodes that reports nothing
node_problems-NodeOk :
    (old_nodes new_nodes : Value) (name : Text)
    → node_problems old_nodes new_nodes name ≡ ok []
    → (o n : Value) × (find old_nodes name ≡ some o) × (find new_nodes name ≡ some n) × NodeOk o n
unfolding node_problems
node_problems-NodeOk old_nodes new_nodes name h =
    let (o, p, h₁) = >>=-eq-ok (index old_nodes name) _ h in
    let (n, q, h₂) = >>=-eq-ok (index new_nodes name) _ h₁ in
    let (olds, r, h₃) = >>=-eq-ok (members o) _ h₂ in
    let (news, s, h₄) = >>=-eq-ok (members n) _ h₃ in
    let (rounds, t, h₅) = >>=-eq-ok (for_each (node_field name o n) (union olds news)) _ h₄ in
    let (has, i, h₆) = >>=-eq-ok (is_in (codes "locked") o) _ h₅ in
    let (locked, l, e) =
      >>=-eq-ok (elim has [ true ↦ locked_problems name o n | false ↦ ok [] ]) _ h₆ in
    let (same, rest) = append-eq-nil _ _ (ok-injective e) in
    let (no_rounds, no_locked) = append-eq-nil rounds locked rest in
    (
      o,
      n,
      index-find old_nodes name p,
      index-find new_nodes name q,
      NodeOk-from name o n r s (no_complaint _ _ same) (for_each-nil _ _ (t ∙ ap ok no_rounds)) i
          (λ t. rw t at (l ∙ ap ok no_locked)),
    )

-- The loop over the nodes that both locks have, when it reports nothing
module _ (old_nodes new_nodes : Value) {olds news : List Text} (ho : members old_nodes ≡ ok olds)
    (hn : members new_nodes ≡ ok news) (same : same_set olds news ≡ true)
    (rounds : All
      (λ name. node_problems old_nodes new_nodes name ≡ ok [])
      (sorted leb_text (select (contains news) olds))) where
  round_at :
      (name : Text)
      → contains olds name ≡ true
      → (o n : Value) × (find old_nodes name ≡ some o) × (find new_nodes name ≡ some n) × NodeOk o n
  round_at name m = node_problems-NodeOk old_nodes new_nodes name (
      All_at _ _ name rounds (
        contains-sorted leb_text _ name
        ∙ ground
            (arith, contains-select (contains news) olds name, same_set_at olds news name same)))

  node_kept :
      (name : Text) (o : Value)
      → find old_nodes name ≡ some o
      → (n : Value) × (find new_nodes name ≡ some n) × NodeOk o n
  node_kept name o h =
      let (was, n, p, q, fine) = round_at name (members-find old_nodes name ho h) in
      (n, q, subst (λ v. NodeOk v n) (same_value (sym p ∙ h)) fine)

  node_not_new :
      (name : Text) (n : Value)
      → find new_nodes name ≡ some n
      → (o : Value) × (find old_nodes name ≡ some o) × NodeOk o n
  node_not_new name n h =
      let m = same_set_at olds news name same ∙ members-find new_nodes name hn h in
      let (o, is, p, q, fine) = round_at name m in
      (o, p, subst (NodeOk o) (same_value (sym q ∙ h)) fine)

-- A lock without problems moves the revs, the hashes and the dates of locked inputs only, and a
-- rev that moves is one of GitHub's.
pub lock_problems-LockOk : (old new : Value) → lock_problems old new ≡ ok [] → LockOk old new
unfolding lock_problems
lock_problems-LockOk old new h =
    let (a, p, h₁) = >>=-eq-ok (get old (codes "nodes")) _ h in
    let (b, q, h₂) = >>=-eq-ok (get new (codes "nodes")) _ h₁ in
    let (old_top, r, h₃) = >>=-eq-ok (top_level old) _ h₂ in
    let (new_top, s, h₄) = >>=-eq-ok (top_level new) _ h₃ in
    let (olds, t, h₅) = >>=-eq-ok (members (or_default a (obj end))) _ h₄ in
    let (news, u, h₆) = >>=-eq-ok (members (or_default b (obj end))) _ h₅ in
    let (nodes, v, e) = >>=-eq-ok (for_each (node_problems _ _) _) _ h₆ in
    let (no_top, rest) = append-eq-nil _ _ (ok-injective e) in
    let (no_names, no_nodes) = append-eq-nil _ _ rest in
    let same = no_complaint _ _ no_names in
    let rounds = for_each-nil _ _ (v ∙ ap ok no_nodes) in
    let old_is : or_default a (obj end) ≡ nodes_of old =
      ap (λ o. or_default o (obj end)) (get-find old _ p) in
    let new_is : or_default b (obj end) ≡ nodes_of new =
      ap (λ o. or_default o (obj end)) (get-find new _ q) in
    record {
      top = (old_top, new_top, r, s, no_complaint _ _ no_top);
      kept = rw (sym old_is, sym new_is) (node_kept _ _ t u same rounds);
      no_other = rw (sym old_is, sym new_is) (node_not_new _ _ t u same rounds);
    }
