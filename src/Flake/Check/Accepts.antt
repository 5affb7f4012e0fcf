-- ===== src/Flake/Check/Accepts.antt =====
-- `cmd_check` of scripts/flake_update.py as a whole: the inputs that it finds moved, and its verdict.
use nixos_homeserver.Base.{
  Bool, true, false, not, some, List, [], ◌∷◌, if◌then◌else◌, nat_eq, list_eq, Text, codes, ℤ,
  Exception, Result, ok, ◌>>=◌, >>=-eq-ok, ok-injective, for_each, ◌≡◌, refl, sym, ap, ap₂, subst,
  ◌∙◌,
}
use nixos_homeserver.Base.Lists.{All, All_at, All-append_left, All-append_right}
use nixos_homeserver.Base.Sort.{sorted, leb_text, contains-sorted}
use nixos_homeserver.Base.Value.{Value, obj, end, or_default, py_eq, truthy, get, index, or_null}
use nixos_homeserver.Base.Value.Access.{find, at, members, members-find, index-find, get-find}
use nixos_homeserver.Flake.Lock.{lock_problems}
use nixos_homeserver.Base.Loops.{for_each-nil}
use nixos_homeserver.Flake.Lock.Frozen.{LockOk, nodes_of, same_value, lock_problems-LockOk}
use nixos_homeserver.Flake.Check.{
  Moved, rev_moved, moved_input, Verdict, refused, written, check_moved, conclude, moved_inputs,
  after_lock, cmd_check,
}
use nixos_homeserver.Flake.Check.Vetted.{Vetted, check_moved-Vetted}

module _ (github : Text → Result Value) (pushed_at : Value → Result ℤ) (cutoff : Text → ℤ)
    (days : ℤ) (describe : Exception → Text) (date_cell : Value → Result Text) where
  refusal : {l : List Text} {t : Text} → Path (Result Verdict) (ok (refused l)) (ok (written t)) → ⊥
  refusal e = cc

  conclude-nil :
      (new : Value) (moved : List Moved) (report : Text) (found : List Text) {t : Text}
      → conclude github pushed_at cutoff days describe date_cell new moved report found
        ≡ ok (written t)
      → found ≡ []
  unfolding conclude
  conclude-nil new moved report [] h = refl
  conclude-nil new moved report (p ∷ found) h = absurd (refusal h)

All-for_each {ℓ κ} :
    {A : Type ℓ} {B : Type κ} (P : B → Type 0) (f : A → Result (List B)) (xs : List A) {ys : List B}
    → for_each f xs ≡ ok ys
    → All P ys
    → All (λ x. (zs : List B) × (f x ≡ ok zs) × All P zs) xs
unfolding for_each
All-for_each P f [] h a = tt
All-for_each P f (x ∷ xs) h a =
    let (here, p, h₁) = >>=-eq-ok (f x) _ h in
    let (rest, q, e) = >>=-eq-ok (for_each f xs) _ h₁ in
    let both = subst (All P) (sym (ok-injective e)) a in
    (
      (here, p, All-append_left P here rest both),
      All-for_each P f xs q (All-append_right P here rest both),
    )

rev_moved-true :
    (ol nl : Value) {differs : Bool}
    → rev_moved ol nl ≡ ok differs
    → truthy ol ≡ true
    → py_eq (at ol (codes "rev")) (at nl (codes "rev")) ≡ false
    → differs ≡ true
unfolding rev_moved
rev_moved-true ol nl {differs} h locked apart =
    let (a, p, h₁) = >>=-eq-ok (get ol (codes "rev")) _ (rw (locked, rev_moved) at h) in
    let (b, q, e) = >>=-eq-ok (get nl (codes "rev")) _ h₁ in
    sym (ok-injective e)
    ∙ ap not
        (ap₂ (λ x y. py_eq (or_null x) (or_null y)) (get-find ol _ p) (get-find nl _ q) ∙ apart)

-- The nodes that `lock["nodes"]` reads are those of `lock.get("nodes", {})`.
nodes_are :
    (lock : Value) {nodes : Value} → index lock (codes "nodes") ≡ ok nodes → nodes_of lock ≡ nodes
nodes_are lock h = ap (λ o. or_default o (obj end)) (index-find lock (codes "nodes") h)

moved_record :
    (name : Text) (ol nl : Value) {a b : Value} {ms : List Moved}
    → ol ≡ a
    → nl ≡ b
    → (rev_moved ol nl >>= λ differs.
        ok (if differs then record { name = name; ol = ol; nl = nl } ∷ [] else []))
      ≡ ok ms
    → truthy a ≡ true
    → py_eq (at a (codes "rev")) (at b (codes "rev")) ≡ false
    → ms ≡ record { name = name; ol = a; nl = b } ∷ []
moved_record name ol nl p q h locked apart =
    let (differs, t, e) = >>=-eq-ok (rev_moved ol nl) _ h in
    let moved = rev_moved-true ol nl t (rw p locked) (rw (p, q) apart) in
    sym (ok-injective (rw moved at e))
    ∙ ap₂ (λ x y. record { name = name; ol = x; nl = y } ∷ []) p q

-- A node whose rev moved is among the inputs to check.
moved_input-moved :
    (old_nodes new_nodes : Value) (name : Text) (o n : Value) {ms : List Moved}
    → find old_nodes name ≡ some o
    → find new_nodes name ≡ some n
    → truthy (at o (codes "locked")) ≡ true
    → py_eq (at (at o (codes "locked")) (codes "rev")) (at (at n (codes "locked")) (codes "rev"))
      ≡ false
    → moved_input old_nodes new_nodes name ≡ ok ms
    → ms ≡ record { name = name; ol = at o (codes "locked"); nl = at n (codes "locked") } ∷ []
unfolding moved_input
moved_input-moved old_nodes new_nodes name o n fo fn locked apart h =
    let (o', p, h₁) = >>=-eq-ok (index old_nodes name) _ h in
    let (ol, q, h₂) = >>=-eq-ok (get o' (codes "locked")) _ h₁ in
    let (n', r, h₃) = >>=-eq-ok (index new_nodes name) _ h₂ in
    let (nl, s, h₄) = >>=-eq-ok (get n' (codes "locked")) _ h₃ in
    let same_o = same_value (sym (index-find old_nodes name p) ∙ fo) in
    let same_n = same_value (sym (index-find new_nodes name r) ∙ fn) in
    moved_record name (or_null ol) (or_null nl)
      (ap or_null (get-find o' _ q) ∙ ap (λ v. at v (codes "locked")) same_o)
      (ap or_null (get-find n' _ s) ∙ ap (λ v. at v (codes "locked")) same_n) h₄ locked apart

module _ (github : Text → Result Value) (pushed_at : Value → Result ℤ) (cutoff : Text → ℤ)
    (days : ℤ) (describe : Exception → Text) (date_cell : Value → Result Text) where
  -- What the inputs that moved have passed, when none has a reason against it
  moved_inputs-Vetted :
      (old new : Value) {moved : List Moved}
      → moved_inputs github pushed_at cutoff days describe date_cell old new ≡ ok moved
      → All (λ m. check_moved github pushed_at cutoff days describe old m ≡ ok []) moved
      → (name : Text) (o n : Value) → find (nodes_of old) name ≡ some o
      → find (nodes_of new) name ≡ some n
      → truthy (at o (codes "locked")) ≡ true
      → py_eq (at (at o (codes "locked")) (codes "rev")) (at (at n (codes "locked")) (codes "rev"))
        ≡ false
      → Vetted github pushed_at cutoff days describe name
          (at o (codes "original"))
          (at o (codes "locked"))
          (at n (codes "locked"))
  unfolding moved_inputs
  moved_inputs-Vetted old new h fine name o n fo fn locked apart =
      let (old_nodes, p, h₁) = >>=-eq-ok (index old (codes "nodes")) _ h in
      let (names, q, h₂) = >>=-eq-ok (members old_nodes) _ h₁ in
      let (new_nodes, r, h₃) = >>=-eq-ok (index new (codes "nodes")) _ h₂ in
      let old_is = nodes_are old p in
      let fo' = ap (λ v. find v name) (sym old_is) ∙ fo in
      let fn' = ap (λ v. find v name) (sym (nodes_are new r)) ∙ fn in
      let rounds =
        All-for_each _ (moved_input old_nodes new_nodes) (sorted leb_text names) h₃ fine in
      let listed = contains-sorted leb_text names name ∙ members-find old_nodes name q fo' in
      let (ms, s, passed) = All_at _ _ name rounds listed in
      let is = moved_input-moved old_nodes new_nodes name o n fo' fn' locked apart s in
      let (nodes, o', original, t, u, v, vetted) =
        check_moved-Vetted github pushed_at cutoff days describe old _ (rw is at passed).0 in
      let same_nodes = sym (nodes_are old t) ∙ nodes_are old p in
      let same_o =
        same_value (sym (index-find nodes name u) ∙ (ap (λ x. find x name) same_nodes ∙ fo')) in
      let original_is =
        sym (ap or_null (index-find o' (codes "original") v))
        ∙ ap (λ w. at w (codes "original")) same_o in
      subst
        (λ x.
          Vetted github pushed_at cutoff days describe name x (at o (codes "locked"))
            (at n (codes "locked")))
        original_is vetted

  after_lock-Vetted :
      (old new : Value) (report text : Text) (problems : List Text)
      → after_lock github pushed_at cutoff days describe date_cell old new report problems
        ≡ ok (written text)
      → (problems ≡ [])
        × ((moved : List Moved) × (moved_inputs github pushed_at cutoff days describe date_cell old
                new
              ≡ ok moved)
            × All (λ m. check_moved github pushed_at cutoff days describe old m ≡ ok []) moved)
  unfolding after_lock
  after_lock-Vetted old new report text (p ∷ problems) h = absurd (
      no_text (
        conclude-nil github pushed_at cutoff days describe date_cell new [] report (p ∷ problems)
          h))
    where
      no_text : p ∷ problems ≡ [] → ⊥
      no_text e = cc
  after_lock-Vetted old new report text [] h =
      let (moved, p, h₁) =
        >>=-eq-ok (moved_inputs github pushed_at cutoff days describe date_cell old new) _ h in
      let (found, q, h₂) =
        >>=-eq-ok (for_each (check_moved github pushed_at cutoff days describe old) moved) _ h₁ in
      let none_found =
        conclude-nil github pushed_at cutoff days describe date_cell new moved report found h₂ in
      (refl, (moved, p, for_each-nil _ _ (q ∙ ap ok none_found)))

  -- `cmd_check` writes the pull request only for a lock without problems in which every locked input
  -- whose rev moved is vetted.
  pub cmd_check-Vetted :
      (old new : Value) (report text : Text)
      → cmd_check github pushed_at cutoff days describe date_cell old new report ≡ ok (written text)
      → LockOk old new
        × ((name : Text) (o n : Value)
            → find (nodes_of old) name ≡ some o
            → find (nodes_of new) name ≡ some n
            → truthy (at o (codes "locked")) ≡ true
            → py_eq
                (at (at o (codes "locked")) (codes "rev"))
                (at (at n (codes "locked")) (codes "rev"))
              ≡ false
            → Vetted github pushed_at cutoff days describe name
                (at o (codes "original"))
                (at o (codes "locked"))
                (at n (codes "locked")))
  unfolding cmd_check
  cmd_check-Vetted old new report text h =
      let (problems, p, h₁) = >>=-eq-ok (lock_problems old new) _ h in
      let (clean, (moved, q, fine)) = after_lock-Vetted old new report text problems h₁ in
      (lock_problems-LockOk old new (p ∙ ap ok clean), moved_inputs-Vetted old new q fine)
