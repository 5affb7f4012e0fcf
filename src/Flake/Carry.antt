-- ===== src/Flake/Carry.antt =====
-- `cmd_carry` of scripts/flake_update.py.
use nixos_homeserver.Flake.Check.{nixpkgs}
use nixos_homeserver.Base.{
  Bool, true, false, not, none, some, [], ◌∷◌, ◌==◌, nat_eq, list_eq, Text, codes, Result, ok,
  ◌>>=◌,
}
use nixos_homeserver.Base.Dict.{Dict, lookup}
use nixos_homeserver.Base.Value.{Value, py_eq, get, index, or_null}
use nixos_homeserver.Flake.Lock.{direct_inputs}

-- The test of the loop of `cmd_carry`: an input of both locks, other than nixpkgs, has another rev
carried : Dict Text Value → Text × Value → Result Bool
unfolding nixpkgs
carried pr_in (name, node) = elim (name == nixpkgs) [
  | true ↦ ok false
  | false ↦ elim (lookup name pr_in) [
    | none ↦ ok false
    | some other ↦ do
      a ← index node (codes "locked")
      r ← get a (codes "rev")
      b ← index other (codes "locked")
      s ← get b (codes "rev")
      ok (not (py_eq (or_null r) (or_null s)))
  ]
]

any_carried : Dict Text Value → Dict Text Value → Result Bool
unfolding carried
any_carried pr_in [] = ok false
any_carried pr_in (input ∷ main_in) =
    let rest = any_carried pr_in main_in in
    carried pr_in input >>= λ here. elim here [ true ↦ ok true | false ↦ rest ]

-- The exit status is 0 for `true` and 1 for `false`.
unfoldable pub cmd_carry : Value → Value → Result Bool
unfolding any_carried
cmd_carry main pr = do
  main_in ← direct_inputs main
  pr_in ← direct_inputs pr
  any_carried pr_in main_in
