-- ===== src/Compose/PortRules.antt =====
-- The rules of `check_file` (scripts/check_compose.py) on one `ports:` entry.
pub mod Collect
pub mod Accepts
use nixos_homeserver.Base.{
  Bool, true, false, ◌&&◌, ◌||◌, Option, none, some, List, [], ◌∷◌, ◌++◌, if◌then◌else◌, ◌==◌,
  nat_eq, list_eq, int_eq, contains, Text, codes, ℤ, show_int, Result, ok, err, value_error,
  type_error, Exception, ◌>>=◌,
}
use nixos_homeserver.Base.Lists.{any}
use nixos_homeserver.Base.Value.{Value, arr, obj, str, py_eq, repr, str_of}
use nixos_homeserver.Compose.Problem.{
  Problem, interpolated_port, no_address, ipv6_public, undeclared_public,
}
use nixos_homeserver.Compose.Port.{Port, parse_port}

-- What one round of a loop appends to `problems` and adds to `public`.
pub record Findings : Type 0 where
  pub problems : List Problem
  pub public : List (ℤ × Value)

abbrev pub nothing : Findings
nothing = record { problems = []; public = [] }

abbrev pub problem : Problem → Findings
problem p = record { problems = p ∷ []; public = [] }

abbrev pub both : Findings → Findings → Findings
both f g = record { problems = f.problems ++ g.problems; public = f.public ++ g.public }

-- A loop whose rounds find problems and public ports, in order. An exception ends it.
unfoldable pub collect {ℓ} : {A : Type ℓ} → (A → Result Findings) → List A → Result Findings
collect f [] = ok nothing
collect f (x ∷ xs) = do here ← f x; rest ← collect f xs; ok (both here rest)

-- A key of a set or a dict
abbrev pub hashable : Value → Bool
hashable (arr vs) = false
hashable (obj fs) = false
hashable _ = true

-- `(port, protocol) in declared`
unfoldable pub is_declared : List (ℤ × Text) → ℤ → Value → Bool
is_declared declared port protocol = any (λ (p, q). port == p && py_eq protocol (str q)) declared

module _ (name where_ : Text) (declared : List (ℤ × Text)) (entry : Value) where
  -- The start of each detail.
  describe : Text
  describe = where_ ++ codes " port " ++ repr entry

  unfoldable pub publish : Text → Value → ℤ → Result Findings
  publish ip protocol port =
      if hashable protocol
      then ok (record {
        problems =
            if is_declared declared port protocol
            then []
            else record {
              rule = undeclared_public;
              detail =
                  where_
                  ++ codes " publishes "
                  ++ show_int port
                  ++ codes "/"
                  ++ str_of protocol
                  ++ codes " on "
                  ++ ip
                  ++ codes ", not declared by stack "
                  ++ name;
            }
              ∷ [];
        public = (port, protocol) ∷ [];
      })
      else err type_error

  unfoldable pub judge_port : Port → Result Findings
  unfolding describe
  judge_port p =
      if p.host_ip == []
      then ok (
          problem
            (record { rule = no_address; detail = describe ++ codes " names no host address" }))
      else if contains (codes "::" ∷ codes "[::]" ∷ []) p.host_ip
      then ok (
          problem (record {
            rule = ipv6_public;
            detail = describe ++ codes " is public over IPv6 (ADR 0006: IPv4 only)";
          }))
      else if contains (codes "0.0.0.0" ∷ []) p.host_ip && p.published == []
      then ok (
          problem (record {
            rule = undeclared_public;
            detail = describe ++ codes " is public on a host port Docker picks";
          }))
      else if contains (codes "0.0.0.0" ∷ []) p.host_ip
      then collect (publish p.host_ip p.protocol) p.published
      else ok nothing

  -- The `try` catches a `ValueError` and nothing else.
  judge_parsed : Result Port → Result Findings
  unfolding judge_port
  judge_parsed (ok p) = judge_port p
  judge_parsed (err value_error) =
      ok (
        problem
          (record { rule = interpolated_port; detail = describe ++ codes " uses a variable" }))
  judge_parsed (err e) = err e

  unfoldable pub check_port : Result Findings
  unfolding judge_parsed
  check_port = judge_parsed (parse_port entry)
