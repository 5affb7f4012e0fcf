-- ===== src/Tests/Allowed.antt =====
-- `lock_problems` of scripts/flake_update.py on two locks of one input, before and after a move.
use nixos_homeserver.Base.{
  some, some-injective, [], ◌==◌, Text, codes, ok, ◌≡◌, ◌↔◌, refl, sym, subst, nat_eq, list_eq,
  Bool-cases, inl, inr,
}
use nixos_homeserver.Base.Lists.{All}
use nixos_homeserver.Base.Dict.{lookup}
use nixos_homeserver.Base.Value.{Value, obj, Fields, end, field, entries}
use nixos_homeserver.Base.Value.Access.{find}
use nixos_homeserver.Flake.Lock.{lock_problems}
use nixos_homeserver.Flake.Lock.Frozen.{LockOk}
use nixos_homeserver.Flake.Lock.Allowed.{Shaped, lock_problems_iff}
use nixos_homeserver.Tests.Locks.{text, original, lock_at, old_lock, new_lock}

lookup-All :
    (P : Value → Type 0) (fs : Fields) (name : Text) (v : Value)
    → All (λ e. P e.1) (entries fs)
    → find (obj fs) name ≡ some v
    → P v
unfolding find lookup
lookup-All P end name v h e = cc
lookup-All P (field k w fs) name v (p, h) e = elim (Bool-cases (name == k)) [
  | inl here ↦ subst P (some-injective _ _ (rw here at e)) p
  | inr later ↦ lookup-All P fs name v h (rw later at e)
]

-- A node that is a dict, and so is what it has locked
abbrev IsNode : Value → Type 0
IsNode v =
    ((fs : Fields) × (v ≡ obj fs))
    × ((l : Value) → find v (codes "locked") ≡ some l → (fs : Fields) × (l ≡ obj fs))

abbrev two_nodes : Fields → Fields
two_nodes locked =
    field (codes "impermanence")
      (obj (field (codes "original") original (field (codes "locked") (obj locked) end)))
      (field (codes "root")
        (obj (
          field (codes "inputs") (obj (field (codes "impermanence") (text "impermanence") end))
            end))
        end)

nodes_are : (locked : Fields) → All (λ e. IsNode e.1) (entries (two_nodes locked))
unfolding find lookup codes list_eq nat_eq
nodes_are locked =
    (((_, refl), λ l e. (locked, sym (some-injective _ _ e))), (((_, refl), λ l e. cc), tt))

shape : (locked : Fields) → Shaped (lock_at (obj locked))
unfolding find lookup codes list_eq nat_eq
shape locked = record {
  top = _;
  lock_is = refl;
  nodes = two_nodes locked;
  nodes_is = refl;
  node_is = λ name v h. (lookup-All IsNode (two_nodes locked) name v (nodes_are locked) h).0;
  locked_is = λ name v l h. (lookup-All IsNode (two_nodes locked) name v (nodes_are locked) h).1 l;
}

lock_problems_iff_example : (lock_problems old_lock new_lock ≡ ok []) ↔ LockOk old_lock new_lock
lock_problems_iff_example = lock_problems_iff old_lock new_lock (shape _) (shape _)
