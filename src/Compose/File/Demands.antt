-- ===== src/Compose/File/Demands.antt =====
-- What `check_file` demands of a service and of a network, and the ports that they open, as the source's rules say it.
use nixos_homeserver.Base.{
  false, Option, List, [], ◌∷◌, ◌++◌, ◌≡◌, nat_eq, list_eq, int_eq, pair_eq, Text, codes, ℤ, Result,
  ok, err,
}
use nixos_homeserver.Base.Lists.{All}
use nixos_homeserver.Base.Dict.{Dict}
use nixos_homeserver.Base.Value.{Value, str, or_else, or_null, get, py_eq}
use nixos_homeserver.Compose.Problem.{Stack}
use nixos_homeserver.Compose.PortRules.Accepts.{PortOk, opens}
use nixos_homeserver.Compose.VolumeRules.Accepts.{VolumeOk}
use nixos_homeserver.Compose.File.{empty_dict, listed, is_in}

-- A service does not use the host's network, and each of its ports and volumes is acceptable.
abbrev pub ServiceOk : Stack → Value → Type 0
ServiceOk stack written =
    let service = or_else written empty_dict in
    (mode : Option Value) × (ports : List Value) × (volumes : List Value) × (get service
        (codes "network_mode")
      ≡ ok mode)
    × (py_eq (or_null mode) (str (codes "host")) ≡ false)
    × (listed service (codes "ports") ≡ ok ports)
    × All (PortOk stack.public_ports) ports
    × (listed service (codes "volumes") ≡ ok volumes)
    × All (VolumeOk stack.data_dir) volumes

-- The ports that entries, a service, or services open on every IPv4 address.
abbrev pub opened_by_all : List Value → List (ℤ × Value)
opened_by_all [] = []
opened_by_all (entry ∷ rest) = opens entry ++ opened_by_all rest

abbrev listed_opens : Result (List Value) → List (ℤ × Value)
listed_opens (ok ports) = opened_by_all ports
listed_opens (err e) = []

abbrev pub opened_by : Value → List (ℤ × Value)
opened_by written = listed_opens (listed (or_else written empty_dict) (codes "ports"))

abbrev pub opened : Dict Text Value → List (ℤ × Value)
opened [] = []
opened ((service_name, written) ∷ services) = opened_by written ++ opened services

-- A network does not set its own address for published ports.
abbrev pub NetworkOk : Value → Type 0
NetworkOk network =
    (options : Option Value) × (get (or_else network empty_dict) (codes "driver_opts") ≡ ok options)
    × (is_in (codes "com.docker.network.bridge.host_binding_ipv4")
          (or_else (or_null options) empty_dict)
        ≡ ok false)
