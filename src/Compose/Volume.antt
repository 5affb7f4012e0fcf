-- ===== src/Compose/Volume.antt =====
-- `volume_source` and `bind_source` of scripts/check_compose.py.
use nixos_homeserver.Base.{
  Bool, ◌&&◌, ◌||◌, not, Option, none, some, List, [], ◌∷◌, if◌then◌else◌, ◌==◌, nat_eq, list_eq,
  contains, Text, codes, starts_with, partition, split,
}
use nixos_homeserver.Base.Dict.{lookup}
use nixos_homeserver.Base.Value.{
  Value, null, bool, num, str, arr, obj, Fields, entries, py_eq, truthy, or_null, or_default,
  str_of,
}

source_of_text : Text → Value
source_of_text text =
    let (source, rest) = partition text (codes ":") in if rest == [] then null else str source

-- `None` is `null`.
unfoldable pub volume_source : Value → Value
unfolding source_of_text
volume_source (obj fs) = or_null (lookup (codes "source") (entries fs))
volume_source (str s) = source_of_text s
volume_source null = source_of_text (str_of null)
volume_source (bool b) = source_of_text (str_of (bool b))
volume_source (num n) = source_of_text (str_of (num n))
volume_source (arr vs) = source_of_text (str_of (arr vs))

-- A bind mount's host path as written, and whether the mount is read-only.
pub record Bind : Type 0 where
  pub source : Text
  pub read_only : Bool

abbrev last_or : Text → List Text → Text
last_or d [] = d
last_or d (p ∷ ps) = last_or p ps

unfoldable pub bind_of_text : Text → Option Bind
bind_of_text text =
    let (source, rest) = partition text (codes ":") in
    if rest == []
      || not (
          starts_with source (codes "/")
          || starts_with source (codes ".")
          || starts_with source (codes "~"))
    then none
    else some (record {
      source = source;
      read_only = contains rest b':' && last_or [] (split rest b':') == codes "ro";
    })

unfoldable pub bind_of_fields : Fields → Option Bind
bind_of_fields fs =
    if not (py_eq (or_null (lookup (codes "type") (entries fs))) (str (codes "bind")))
    then none
    else some (record {
      source = str_of (or_default (lookup (codes "source") (entries fs)) (str []));
      read_only = truthy (or_null (lookup (codes "read_only") (entries fs)));
    })

unfoldable pub bind_source : Value → Option Bind
bind_source (obj fs) = bind_of_fields fs
bind_source (str s) = bind_of_text s
bind_source null = bind_of_text (str_of null)
bind_source (bool b) = bind_of_text (str_of (bool b))
bind_source (num n) = bind_of_text (str_of (num n))
bind_source (arr vs) = bind_of_text (str_of (arr vs))
