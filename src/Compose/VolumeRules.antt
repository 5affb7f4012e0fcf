-- ===== src/Compose/VolumeRules.antt =====
-- The rules of `check_file` (scripts/check_compose.py) on one `volumes:` entry.
pub mod Accepts
pub mod Contained
use nixos_homeserver.Base.{
  Bool, true, false, ◌&&◌, ◌||◌, not, Option, none, some, List, [], ◌∷◌, ◌++◌, if◌then◌else◌, ◌==◌,
  nat_eq, list_eq, contains, Text, codes, starts_with, rstrip,
}
use nixos_homeserver.Base.Value.{Value, str, or_else, repr, str_of}
use nixos_homeserver.Compose.Problem.{
  Problem, interpolated_volume, docker_socket, bind_outside_data,
}
use nixos_homeserver.Compose.Port.{has_variable}
use nixos_homeserver.Compose.Path.{normpath}
use nixos_homeserver.Compose.Volume.{volume_source, Bind, bind_source}

-- `normal == data_dir or normal.startswith(data_dir.rstrip("/") + "/")`
unfoldable pub in_data_dir : Text → Text → Bool
in_data_dir data_dir normal =
    normal == data_dir || starts_with normal (rstrip data_dir b'/' ++ codes "/")

abbrev in_some_data_dir : Option Text → Text → Bool
in_some_data_dir none normal = false
in_some_data_dir (some dir) normal = in_data_dir dir normal

abbrev show_dir : Option Text → Text
show_dir none = codes "None"
show_dir (some dir) = dir

-- The path that a bind mount's source names.
unfoldable pub normal_source : Text → Text
normal_source source = if starts_with source (codes "/") then normpath source else source

module _ (where_ : Text) (data_dir : Option Text) where
  unfoldable pub judge_bind : Bind → List Problem
  judge_bind b =
      let normal = normal_source b.source in
      if contains (codes "/var/run/docker.sock" ∷ codes "/run/docker.sock" ∷ []) normal
      then record {
        rule = docker_socket;
        detail = where_ ++ codes " mounts the Docker socket " ++ b.source;
      }
        ∷ []
      else if not (starts_with normal (codes "/"))
      then record {
        rule = bind_outside_data;
        detail = where_ ++ codes " mounts relative path " ++ b.source;
      }
        ∷ []
      else if b.read_only && contains (codes "/etc/localtime" ∷ codes "/etc/timezone" ∷ []) normal
      then []
      else if not (in_some_data_dir data_dir normal)
      then record {
        rule = bind_outside_data;
        detail =
            where_
            ++ codes " mounts "
            ++ b.source
            ++ codes ", outside data directory "
            ++ show_dir data_dir;
      }
        ∷ []
      else []

  judge_source : Option Bind → List Problem
  judge_source none = []
  judge_source (some b) = judge_bind b

  unfoldable pub check_volume : Value → List Problem
  unfolding judge_source
  check_volume volume =
      if has_variable (str_of (or_else (volume_source volume) (str [])))
      then record {
        rule = interpolated_volume;
        detail = where_ ++ codes " mount " ++ repr volume ++ codes " uses a variable";
      }
        ∷ []
      else judge_source (bind_source volume)
