-- ===== src/Compose/File.antt =====
-- `check_file` of scripts/check_compose.py.
-- `yaml.safe_load` is a parameter: the text of a file as a value, or the exception that it raises.
pub mod Services
pub mod Compliance
pub mod Demands
use nixos_homeserver.Base.{
  Bool, true, false, ◌&&◌, ◌||◌, not, Option, none, some, List, [], ◌∷◌, ◌++◌, map, if◌then◌else◌,
  ◌==◌, nat_eq, list_eq, int_eq, pair_eq, contains, Text, codes, starts_with, drop_prefix, join, ℤ,
  show_int, Result, ok, err, type_error, ◌>>=◌, for_each, ℕ,
}
use nixos_homeserver.Base.Lists.{any, select, same_set}
use nixos_homeserver.Base.Dict.{Dict, keys}
use nixos_homeserver.Base.Sort.{sorted, leb_text, leb_pair, to_set}
use nixos_homeserver.Base.Value.{
  Value, null, bool, num, str, arr, obj, Fields, end, items, Items, nil, entries, py_eq, or_else,
  or_null, get, iterate, dict_items, repr, cons,
}
use nixos_homeserver.Compose.Problem.{
  Problem, Stack, services_mismatch, host_network, host_binding_opt, declared_unused,
}
use nixos_homeserver.Compose.PortRules.{Findings, both, collect, check_port}
use nixos_homeserver.Compose.VolumeRules.{check_volume}

abbrev pub empty_dict : Value
empty_dict = obj end

-- `repr` of a list of texts
texts : List Text → Items
texts [] = nil
texts (t ∷ ts) = cons (str t) (texts ts)

unfoldable pub show_texts : List Text → Text
unfolding texts
show_texts ts = repr (arr (texts ts))

abbrev pub with_problems : List Problem → Findings → Findings
with_problems ps f = record { problems = ps ++ f.problems; public = f.public }

-- One round of the loop over a service's `volumes:`
abbrev pub volume_findings : Text → Option Text → Value → Result Findings
volume_findings where_ data_dir v =
    ok (record { problems = check_volume where_ data_dir v; public = [] })

-- `for x in service.get(key) or []`
unfoldable pub listed : Value → Text → Result (List Value)
listed service key = do written ← get service key; iterate (or_else (or_null written) (arr nil))

-- `(doc.get(key) or {}).items()`
unfoldable pub listed_dict : Value → Text → Result (Dict Text Value)
listed_dict doc key = do written ← get doc key; dict_items (or_else (or_null written) empty_dict)

-- `(port, protocol) in public`
unfoldable pub is_public : List (ℤ × Value) → ℤ × Text → Bool
is_public public (port, protocol) = any (λ (p, q). p == port && py_eq q (str protocol)) public

module _ (name : Text) (stack : Stack) where
  -- One round of the loop over the services
  unfoldable pub check_service : Text × Value → Result Findings
  check_service (service_name, written) =
      let service = or_else written empty_dict in
      let where_ = codes "service " ++ service_name in
      do
        mode ← get service (codes "network_mode")
        ports ← listed service (codes "ports")
        found ← collect (check_port name where_ stack.public_ports) ports
        volumes ← listed service (codes "volumes")
        mounts ← collect (volume_findings where_ stack.data_dir) volumes
        ok (
            with_problems
              (if py_eq (or_null mode) (str (codes "host"))
                then record {
                  rule = host_network;
                  detail = where_ ++ codes " uses network_mode: host";
                }
                  ∷ []
                else [])
              (both found mounts))

  unfoldable pub services_problems : List Text → List Problem
  services_problems services =
      if same_set services stack.services
      then []
      else record {
        rule = services_mismatch;
        detail =
            codes "file has "
            ++ show_texts (sorted leb_text services)
            ++ codes ", stack "
            ++ name
            ++ codes " declares "
            ++ show_texts (sorted leb_text stack.services);
      }
        ∷ []

  unused_problem : ℤ × Text → Problem
  unused_problem (port, protocol) = record {
    rule = declared_unused;
    detail =
        codes "stack "
        ++ name
        ++ codes " declares "
        ++ show_int port
        ++ codes "/"
        ++ protocol
        ++ codes ", which no service publishes on 0.0.0.0";
  }

  -- `sorted(declared - public)`, each as a problem
  unfoldable pub unused_problems : List (ℤ × Value) → List Problem
  unfolding unused_problem
  unused_problems public =
      map unused_problem
        (sorted leb_pair (select (λ d. not (is_public public d)) (to_set stack.public_ports)))

host_binding : Text
host_binding = codes "com.docker.network.bridge.host_binding_ipv4"

-- `needle in text`
is_substring : Text → Text → Bool
is_substring needle [] = needle == []
is_substring needle (c ∷ s) = starts_with (c ∷ s) needle || is_substring needle s

-- `key in v`
unfoldable pub is_in : Text → Value → Result Bool
unfolding is_substring
is_in key (obj fs) = ok (contains (keys (entries fs)) key)
is_in key (arr vs) = ok (any (λ v. py_eq v (str key)) (items vs))
is_in key (str s) = ok (is_substring key s)
is_in key _ = err type_error

-- One round of the loop over the networks
unfoldable pub check_network : Text × Value → Result (List Problem)
unfolding host_binding
check_network (network_name, network) = do
  options ← get (or_else network empty_dict) (codes "driver_opts")
  binds ← is_in host_binding (or_else (or_null options) empty_dict)
  ok (
      if binds
      then record {
        rule = host_binding_opt;
        detail = codes "network " ++ network_name ++ codes " sets " ++ host_binding;
      }
        ∷ []
      else [])

module _ (name : Text) (stack : Stack) where
  -- What is left of `check_file` once the document is read. (Where `services` or `networks` is no
  -- dict, Python raises some exception too, here always `AttributeError`.)
  unfoldable pub check_doc : Value → Result (List Problem)
  check_doc written =
      let doc = or_else written empty_dict in
      do
        services ← listed_dict doc (codes "services")
        found ← collect (check_service name stack) services
        networks ← listed_dict doc (codes "networks")
        bindings ← for_each check_network networks
        ok (
            services_problems name stack (keys services)
            ++ (found.problems ++ (bindings ++ unused_problems name stack found.public)))

  -- `safe_load` is `yaml.safe_load(path.read_text())`, of the file's bytes.
  unfoldable pub check_file : (List ℕ → Result Value) → List ℕ → Result (List Problem)
  check_file safe_load content = do doc ← safe_load content; check_doc doc
