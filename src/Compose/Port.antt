-- ===== src/Compose/Port.antt =====
-- `port_range` and `parse_port` of scripts/check_compose.py.
pub mod RoundTrip
use nixos_homeserver.Base.{
  ℕ, ◌+◌, ◌-◌, Bool, true, false, ◌&&◌, ◌||◌, not, Option, none, some, List, [], ◌∷◌, ◌++◌, ltb,
  if◌then◌else◌, ◌==◌, nat_eq, list_eq, contains, Text, codes, starts_with, partition, split, join,
  ℤ, int, range_to, Result, ok, err, value_error, ◌>>=◌,
}
use nixos_homeserver.Base.Lists.{length, take, drop, any}
use nixos_homeserver.Base.Dict.{lookup}
use nixos_homeserver.Base.Value.{
  Value, null, bool, num, str, arr, obj, Items, Fields, entries, py_eq, or_null, or_default, str_of,
}

pub record Port : Type 0 where
  pub host_ip : Text
  pub published : List ℤ
  pub protocol : Value

unfoldable pub port_range : Text → Result (List ℤ)
port_range text =
    let (first, last) = partition text (codes "-") in
    do low ← int first; high ← int (if last == [] then first else last); ok (range_to low high)

-- `"$" in str(v)`
unfoldable pub has_variable : Text → Bool
has_variable text = contains text b'$'

no_address : Port
unfolding codes
no_address = record { host_ip = []; published = []; protocol = str (codes "tcp") }

unfoldable pub parse_fields : Fields → Result Port
unfolding has_variable
parse_fields fs =
    if any (λ (_, v). has_variable (str_of v)) (entries fs) then err value_error else do
      let published = or_null (lookup (codes "published") (entries fs))
      ports ←
          (if py_eq published null || py_eq published (str [])
            then ok []
            else port_range (str_of published))
      ok (record {
        host_ip = str_of (or_default (lookup (codes "host_ip") (entries fs)) (str []));
        published = ports;
        protocol = or_default (lookup (codes "protocol") (entries fs)) (str (codes "tcp"));
      })

-- The address and the other parts of the text before `/`.
unfoldable pub address_parts : Text → Text × List Text
address_parts text =
    if starts_with text (codes "[")
    then (let (ip, rest) = partition (drop 1 text) (codes "]:") in
        (codes "[" ++ ip ++ codes "]", split rest b':'))
    else (let parts = split text b':' in
        let extra = length parts - 2 in
        (
          if ltb 2 (length parts) then join (codes ":") (take extra parts) else [],
          drop extra parts,
        ))

-- The ports of the host, if the parts are two and the first is not empty.
unfoldable pub host_ports : List Text → Result (List ℤ)
host_ports (host ∷ container ∷ []) = if host == [] then ok [] else port_range host
host_ports _ = ok []

unfoldable pub parse_text : Text → Result Port
unfolding has_variable
parse_text text = if has_variable text then err value_error else do
  let (before, protocol) = partition text (codes "/")
  let (ip, parts) = address_parts before
  ports ← host_ports parts
  ok (record {
    host_ip = ip;
    published = ports;
    protocol = str (if protocol == [] then codes "tcp" else protocol);
  })

unfoldable pub parse_port : Value → Result Port
unfolding no_address
parse_port (num n) = ok no_address
parse_port (bool b) = ok no_address
parse_port (obj fs) = parse_fields fs
parse_port (str s) = parse_text s
parse_port null = parse_text (str_of null)
parse_port (arr vs) = parse_text (str_of (arr vs))
