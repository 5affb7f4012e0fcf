-- ===== src/Flake/Lock/Allowed.antt =====
-- What `lock_problems` of scripts/flake_update.py lets through: everything that an update may change.
use nixos_homeserver.Base.{
  true, false, none, some, [], nat_eq, list_eq, contains, Text, codes, ok, ◌≡◌, ◌≢◌, ◌↔◌, refl, sym,
  ap, ◌∙◌, subst, inl, inr, arith, ==_iff, ==_of_ne, Bool-cases, Option-cases,
}
use nixos_homeserver.Base.Lists.{All-from, union, select, contains-select}
use nixos_homeserver.Base.Dict.{keys, contains-keys}
use nixos_homeserver.Base.Sort.{sorted, contains-sorted, leb_text}
use nixos_homeserver.Base.Value.{Value, obj, Fields, entries, get, index}
use nixos_homeserver.Base.Value.Access.{find, is_in}
use nixos_homeserver.Flake.Lock.{node_field, node_problems, lock_problems}
use nixos_homeserver.Flake.Lock.Keys.{SameFields, SameFields-from}
use nixos_homeserver.Flake.Lock.Locked.{LockedOk}
use nixos_homeserver.Flake.Lock.Frozen.{NodeOk, LockOk, nodes_of, lock_problems-LockOk}
use nixos_homeserver.Flake.Lock.Quiet.{
  for_each-quiet, found_of, get-obj_at, index-some, key_set, locked_problems-fine, members-obj,
  same_keys,
}

-- Of a node that has changed as an update may change it
module _ (name : Text) (os ns : Fields) (fine : NodeOk (obj os) (obj ns)) where
  node_field-fine : (key : Text) → node_field name (obj os) (obj ns) key ≡ ok []
  unfolding node_field
  node_field-fine key = elim (list_eq.dec key (codes "locked")) [
    | yes e ↦ rw ((==_iff key (codes "locked")).1 e, node_field) refl
    | no p ↦
        rw (==_of_ne p, node_field, get-obj_at os key, get-obj_at ns key, fine.frozen key p) refl
  ]

  is_in-some :
      (v : Value)
      → find (obj os) (codes "locked") ≡ some v
      → is_in (codes "locked") (obj os) ≡ ok true
  unfolding is_in find
  is_in-some v h = ap ok ((contains-keys (entries os) (codes "locked")).1 (λ e. two (sym h ∙ e)))
    where
      two : {w : Value} → some w ≢ none
      two = λ e. cc

  is_in-none : find (obj os) (codes "locked") ≡ none → is_in (codes "locked") (obj os) ≡ ok false
  unfolding is_in find
  is_in-none h = elim (Bool-cases (contains (keys (entries os)) (codes "locked"))) [
    | inl m ↦ absurd ((contains-keys (entries os) (codes "locked")).0 m h)
    | inr m ↦ ap ok m
  ]

  node_problems-fine :
      (old_nodes new_nodes : Value)
      → index old_nodes name ≡ ok (obj os)
      → index new_nodes name ≡ ok (obj ns)
      → ((l : Value) → find (obj os) (codes "locked") ≡ some l → (ls : Fields) × (l ≡ obj ls))
      → ((l : Value) → find (obj ns) (codes "locked") ≡ some l → (ls : Fields) × (l ≡ obj ls))
      → node_problems old_nodes new_nodes name ≡ ok []
  unfolding node_problems
  node_problems-fine old_nodes new_nodes h k old_shape new_shape =
      let rounds =
        for_each-quiet (node_field name (obj os) (obj ns)) (union (key_set os) (key_set ns)) (
          All-from (λ key. node_field name (obj os) (obj ns) key ≡ ok [])
            (union (key_set os) (key_set ns)) (λ key m. node_field-fine key)) in
      elim (Option-cases (find (obj os) (codes "locked"))) [
        | inl absent ↦
            rw
              (
                h,
                k,
                node_problems,
                members-obj os,
                members-obj ns,
                rounds,
                is_in-none absent,
                same_keys os ns fine.fields,
              )
              refl
        | inr (ol, p) ↦
            let (nl, q, locked) = fine.locked ol p in
            let (fs, ol_is) = old_shape ol p in
            let (gs, nl_is) = new_shape nl q in
            rw
              (
                h,
                k,
                node_problems,
                members-obj os,
                members-obj ns,
                rounds,
                is_in-some ol p,
                same_keys os ns fine.fields,
                locked_problems-fine name os ns fs gs (p ∙ ap some ol_is) (q ∙ ap some nl_is)
                    (subst (λ l. LockedOk l (obj gs)) ol_is (subst (LockedOk ol) nl_is locked)),
              )
              refl
      ]

-- A lock that is made of dicts, as Nix writes it
pub record Shaped (lock : Value) : Type 0 where
  pub top : Fields
  pub lock_is : lock ≡ obj top
  pub nodes : Fields
  pub nodes_is : nodes_of lock ≡ obj nodes
  pub node_is :
      (name : Text) (v : Value) → find (obj nodes) name ≡ some v → (fs : Fields) × (v ≡ obj fs)
  pub locked_is :
      (name : Text) (v l : Value)
      → find (obj nodes) name ≡ some v
      → find v (codes "locked") ≡ some l
      → (fs : Fields) × (l ≡ obj fs)

module _ (old new : Value) (old_shape : Shaped old) (new_shape : Shaped new)
    (fine : LockOk old new) where
  node_kept :
      (name : Text) (o : Value)
      → find (obj old_shape.nodes) name ≡ some o
      → (n : Value) × (find (obj new_shape.nodes) name ≡ some n) × NodeOk o n
  node_kept name o h =
      let (n, q, kept) = fine.kept name o (ap (λ l. find l name) old_shape.nodes_is ∙ h) in
      (n, sym (ap (λ l. find l name) new_shape.nodes_is) ∙ q, kept)

  node_not_new :
      (name : Text) (n : Value)
      → find (obj new_shape.nodes) name ≡ some n
      → (o : Value) × (find (obj old_shape.nodes) name ≡ some o)
  node_not_new name n h =
      let (o, p, kept) = fine.no_other name n (ap (λ l. find l name) new_shape.nodes_is ∙ h) in
      (o, sym (ap (λ l. find l name) old_shape.nodes_is) ∙ p)

  same_nodes : SameFields (obj old_shape.nodes) (obj new_shape.nodes)
  same_nodes =
      SameFields-from _ _ (λ name o h. let (n, q, kept) = node_kept name o h in (n, q)) node_not_new

  round-fine :
      (name : Text)
      → contains (key_set old_shape.nodes) name ≡ true
      → node_problems (obj old_shape.nodes) (obj new_shape.nodes) name ≡ ok []
  round-fine name m =
      let (o, p) = found_of old_shape.nodes name m in
      let (n, q, kept) = node_kept name o p in
      let (os, o_is) = old_shape.node_is name o p in
      let (ns, n_is) = new_shape.node_is name n q in
      node_problems-fine name os ns
        (subst (λ v. NodeOk v (obj ns)) o_is (subst (NodeOk o) n_is kept)) (obj old_shape.nodes)
        (obj new_shape.nodes) (index-some old_shape.nodes name (p ∙ ap some o_is))
        (index-some new_shape.nodes name (q ∙ ap some n_is))
        (λ l h. old_shape.locked_is name o l p (ap (λ v. find v (codes "locked")) o_is ∙ h))
        (λ l h. new_shape.locked_is name n l q (ap (λ v. find v (codes "locked")) n_is ∙ h))

  get-nodes :
      (lock : Value) (shape : Shaped lock)
      → get lock (codes "nodes") ≡ ok (find lock (codes "nodes"))
  get-nodes lock shape =
      ap (λ l. get l (codes "nodes")) shape.lock_is
      ∙ (get-obj_at shape.top (codes "nodes")
          ∙ ap (λ l. ok (find l (codes "nodes"))) (sym shape.lock_is))

  lock_problems-fine : lock_problems old new ≡ ok []
  unfolding lock_problems
  lock_problems-fine =
      let (a, b, p, q, same_top) = fine.top in
      let names =
        sorted leb_text (select (contains (key_set new_shape.nodes)) (key_set old_shape.nodes)) in
      let rounds =
        for_each-quiet (node_problems (obj old_shape.nodes) (obj new_shape.nodes)) names (
          All-from (λ name. node_problems (obj old_shape.nodes) (obj new_shape.nodes) name ≡ ok [])
            names
            (λ name m. round-fine name (
              ground (
                arith,
                contains-sorted leb_text
                    (select (contains (key_set new_shape.nodes)) (key_set old_shape.nodes)) name,
                contains-select (contains (key_set new_shape.nodes)) (key_set old_shape.nodes) name,
              )))) in
      rw
        (
          get-nodes old old_shape,
          get-nodes new new_shape,
          lock_problems,
          p,
          q,
          old_shape.nodes_is,
          new_shape.nodes_is,
          members-obj old_shape.nodes,
          members-obj new_shape.nodes,
          rounds,
          same_top,
          same_keys old_shape.nodes new_shape.nodes same_nodes,
        )
        refl

-- On two locks that are made of dicts, `lock_problems` finds nothing exactly when the new one differs from the
-- old one as an update may change it.
pub lock_problems_iff :
    (old new : Value) → Shaped old → Shaped new → (lock_problems old new ≡ ok []) ↔ LockOk old new
lock_problems_iff old new old_shape new_shape =
    (lock_problems-LockOk old new, lock_problems-fine old new old_shape new_shape)
