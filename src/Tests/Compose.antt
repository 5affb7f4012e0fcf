-- ===== src/Tests/Compose.antt =====
-- Runs of the model of scripts/check_compose.py, and its theorems at concrete inputs. The compose
-- files are cut from tests/compose-check.
use nixos_homeserver.Base.{
  ℕ, ◌≤◌, true, false, Option, none, some, List, [], ◌∷◌, ◌++◌, ◌≡◌, ◌↔◌, refl, arith, Text, codes,
  pos, Result, ok, err, nat_eq, list_eq, int_eq, pair_eq, int, range_to, show, show_int,
  starts_with, partition, split, join, contains, for_each, rstrip, map, ◌⊎◌,
}
use nixos_homeserver.Base.Lists.{All, select, same_set}
use nixos_homeserver.Base.Dict.{keys, lookup}
use nixos_homeserver.Base.Sort.{sorted, leb_text, leb_pair, to_set}
use nixos_homeserver.Base.Value.{
  Value, num, str, arr, obj, Items, nil, cons, end, field, py_eq, repr, str_of, truthy, or_else,
  get, iterate, dict_items,
}
use nixos_homeserver.Compose.Problem.{
  Problem, Stack, Rule, undeclared_public, no_address, bind_outside_data, declared_unused,
}
use nixos_homeserver.Compose.Port.{
  parse_port, parse_text, parse_fields, port_range, has_variable, address_parts, host_ports,
}
use nixos_homeserver.Compose.Port.RoundTrip.{
  write_port, parse_port-write_port, contains-port_range, port_range-write_range,
}
use nixos_homeserver.Compose.Path.Components.{Proper}
use nixos_homeserver.Compose.Path.{normpath, components, initial_slashes}
use nixos_homeserver.Compose.Path.Inside.{Inside, in_data_dir-Inside}
use nixos_homeserver.Compose.Volume.{volume_source, Bind, bind_source, bind_of_text, bind_of_fields}
use nixos_homeserver.Compose.VolumeRules.{in_data_dir, normal_source, judge_bind, check_volume}
use nixos_homeserver.Compose.PortRules.{collect, is_declared, publish, judge_port, check_port}
use nixos_homeserver.Compose.PortRules.Collect.{Clean}
use nixos_homeserver.Compose.PortRules.Accepts.{PortOk, check_port_accepts}
use nixos_homeserver.Compose.VolumeRules.Contained.{check_volume-Inside}
use nixos_homeserver.Compose.File.{
  listed, listed_dict, check_service, services_problems, is_public, unused_problems, is_in,
  check_network, check_doc, check_file,
}
use nixos_homeserver.Compose.File.Compliance.{DocOk, check_doc-DocOk}
use nixos_homeserver.Compose.Run.{
  Manifest, FoundFile, compose_files, declared_file, is_listed, check_stacks, check_found,
  check_files, main,
}
use nixos_homeserver.Compose.Run.Status.{FileOk, main-status}

texts : List Text → Items
texts [] = nil
texts (t ∷ ts) = cons (str t) (texts ts)

game : Value
unfolding texts codes
game = obj (
    field (codes "ports")
      (arr (texts (codes "0.0.0.0:8211-8212:8211-8212/udp" ∷ codes "127.0.0.1:25575:25575" ∷ [])))
      (field (codes "volumes")
        (arr (texts (codes "/srv/data/good/world:/data" ∷ codes "cache:/cache" ∷ []))) end))

good_doc : Value
unfolding game
good_doc = obj (field (codes "services") (obj (field (codes "game") game end)) end)

good_stack : Stack
unfolding codes
good_stack = record {
  services = codes "game" ∷ [];
  public_ports = (pos 8211, codes "udp") ∷ (pos 8212, codes "udp") ∷ [];
  data_dir = some (codes "/srv/data/good");
  compose_file = none;
}

-- The model with everything open that it runs through.
check : Stack → Value → Result (List Problem)
unfolding check_doc listed listed_dict check_service services_problems is_public unused_problems
    is_in check_network collect is_declared publish judge_port check_port in_data_dir normal_source
    judge_bind check_volume volume_source bind_source bind_of_text bind_of_fields normpath
    components initial_slashes parse_port parse_text parse_fields port_range has_variable
    address_parts host_ports repr str_of truthy or_else get iterate dict_items py_eq sorted leb_text
    leb_pair to_set keys lookup for_each same_set rstrip pair_eq select int range_to starts_with
    partition split join show show_int codes nat_eq list_eq int_eq
check = check_doc (codes "good")

good_run : check good_stack good_doc ≡ ok []
unfolding check good_stack good_doc
good_run = refl

-- Two ports that are not declared, a directory beside the data directory, and a stack that
-- declares a port which is not published.
bad_doc : Value
unfolding codes
bad_doc = obj (
    field (codes "services")
      (obj (
        field (codes "game")
          (obj (
            field (codes "ports") (arr (texts (codes "0.0.0.0:80-81:80-81" ∷ codes "8080" ∷ [])))
              (field (codes "volumes") (arr (texts (codes "/srv/data/good2:/x" ∷ []))) end)))
          end))
      end)

rules : Result (List Problem) → List Rule
rules (ok problems) = map (λ p. p.rule) problems
rules (err e) = []

bad_run :
    rules (check good_stack bad_doc)
    ≡ undeclared_public ∷ undeclared_public ∷ no_address ∷ bind_outside_data ∷ declared_unused
      ∷ declared_unused ∷ []
unfolding rules check good_stack bad_doc texts
bad_run = refl

-- Every address that Docker binds on all IPv6 interfaces but for its spelling is accepted.
ipv6_spelled_out :
    Clean
      (check_port (codes "good") (codes "service game") [])
      (str (codes "[0:0:0:0:0:0:0:0]:80:80"))
unfolding check
ipv6_spelled_out = (record { problems = []; public = [] }, refl, refl)

check_port_accepts_example :
    Clean (check_port (codes "good") (codes "service game") []) (num (pos 80))
    ↔ PortOk [] (num (pos 80))
check_port_accepts_example =
    check_port_accepts (codes "good") (codes "service game") [] (num (pos 80))

check_doc-DocOk_example :
    (check_doc (codes "good") good_stack good_doc ≡ ok []) ↔ DocOk good_stack good_doc
check_doc-DocOk_example = check_doc-DocOk (codes "good") good_stack good_doc

abbrev found : List FoundFile
found =
    record {
      shown = codes "good/compose.yml";
      parent = codes "good";
      name = codes "compose.yml";
      content = codes "services: {game: {}}";
    }
    ∷ []

abbrev manifest : Manifest
manifest = (codes "good", good_stack) ∷ []

abbrev safe_load : List ℕ → Result Value
safe_load content = ok good_doc

abbrev no_file : Text → Option (List ℕ)
no_file path = none

main-status_example : ((main safe_load manifest no_file (codes "stacks") found).status ≡ 0) ↔ (
    All (λ s. is_listed no_file (compose_files found) s ≡ true) manifest
    × All (FileOk safe_load manifest) (compose_files found))
main-status_example = main-status safe_load manifest no_file (codes "stacks") found

main_run : (main safe_load manifest no_file (codes "stacks") found).status ≡ 0
unfolding main compose_files check_stacks is_listed declared_file check_files check_found check_file
    check good_stack good_doc
main_run = refl

data_comps : All Proper (codes "srv" ∷ codes "data" ∷ [])
unfolding codes
data_comps =
    ((λ e. cc, λ e. cc, λ e. cc, omega arith), ((λ e. cc, λ e. cc, λ e. cc, omega arith), tt))

in_data_dir-Inside_example :
    (in_data_dir
        (codes "/" ++ join (b'/' ∷ []) (codes "srv" ∷ codes "data" ∷ []))
        (normpath (codes "/srv/x/../data/y"))
      ≡ true)
    ↔ ((initial_slashes (codes "/srv/x/../data/y") ≡ codes "/")
        × Inside (codes "srv" ∷ codes "data" ∷ []) (components (codes "/srv/x/../data/y")))
in_data_dir-Inside_example =
    in_data_dir-Inside (codes "srv") (codes "data" ∷ []) data_comps (codes "/srv/x/../data/y")
      (unfold starts_with nat_eq codes in refl)

abbrev world : Value
world = str (codes "/srv/x/../data/y:/data")

abbrev world_bind : Bind
world_bind = record { source = codes "/srv/x/../data/y"; read_only = false }

check_volume-Inside_example :
    ((world_bind.read_only ≡ true)
      × ((normpath world_bind.source ≡ codes "/etc/localtime")
          ⊎ (normpath world_bind.source ≡ codes "/etc/timezone")))
    ⊎ Inside (codes "srv" ∷ codes "data" ∷ []) (components world_bind.source)
check_volume-Inside_example =
    check_volume-Inside (codes "service game") (codes "srv") (codes "data" ∷ []) world world_bind
      data_comps (unfold check in refl) (unfold check in refl)

parse_port-write_port_example :
    parse_port (str (write_port (codes "0.0.0.0") 8211 8212 (codes "8211-8212") (codes "udp")))
    ≡ ok (record {
      host_ip = codes "0.0.0.0";
      published = range_to (pos 8211) (pos 8212);
      protocol = str (codes "udp");
    })
parse_port-write_port_example =
    parse_port-write_port (codes "0.0.0.0") 8211 8212 (codes "8211-8212") (codes "udp")
      (unfold codes in omega arith) (unfold starts_with nat_eq codes in refl)
      (unfold codes in omega arith) (unfold codes in omega arith) (unfold codes in λ e. cc)

contains-port_range_example :
    (contains (range_to (pos 8211) (pos 8220)) (pos 8215) ≡ true) ↔ ((8211 ≤ 8215) × (8215 ≤ 8220))
contains-port_range_example = contains-port_range 8211 8220 8215 (port_range-write_range 8211 8220)
