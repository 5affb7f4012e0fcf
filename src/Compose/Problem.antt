-- ===== src/Compose/Problem.antt =====
-- The problems that scripts/check_compose.py reports, and what a stack declares in the manifest.
use nixos_homeserver.Base.{List, Option, Text, codes, ℤ}

pub data Rule : Type 0 where
  services_mismatch host_network interpolated_port no_address ipv6_public undeclared_public : Rule
  interpolated_volume docker_socket bind_outside_data host_binding_opt declared_unused : Rule

-- The name that is printed for a rule.
unfoldable pub rule_name : Rule → Text
rule_name services_mismatch = codes "services-mismatch"
rule_name host_network = codes "host-network"
rule_name interpolated_port = codes "interpolated-port"
rule_name no_address = codes "no-address"
rule_name ipv6_public = codes "ipv6-public"
rule_name undeclared_public = codes "undeclared-public"
rule_name interpolated_volume = codes "interpolated-volume"
rule_name docker_socket = codes "docker-socket"
rule_name bind_outside_data = codes "bind-outside-data"
rule_name host_binding_opt = codes "host-binding-opt"
rule_name declared_unused = codes "declared-unused"

pub record Problem : Type 0 where
  pub rule : Rule
  pub detail : Text

-- A stack of the manifest, which Nix writes: its options fix these fields and their types.
pub record Stack : Type 0 where
  pub services : List Text
  pub public_ports : List (ℤ × Text)
  pub data_dir : Option Text
  pub compose_file : Option Text
