-- ===== src/Compose/VolumeRules/Contained.antt =====
-- What an accepted bind mount can reach (scripts/check_compose.py).
use nixos_homeserver.Base.{
  true, some, List, [], ◌∷◌, ◌++◌, ◌≡◌, ◌⊎◌, inl, inr, Text, codes, some-injective, sym, subst,
}
use nixos_homeserver.Base.Lists.{All}
use nixos_homeserver.Base.Value.{Value}
use nixos_homeserver.Base.Texts.{join}
use nixos_homeserver.Compose.Path.{normpath, components}
use nixos_homeserver.Compose.Path.Components.{Proper}
use nixos_homeserver.Compose.Path.Inside.{Inside, in_data_dir-Inside}
use nixos_homeserver.Compose.Volume.{Bind, bind_source}
use nixos_homeserver.Compose.VolumeRules.{in_data_dir, check_volume}
use nixos_homeserver.Compose.VolumeRules.Accepts.{BindOk, check_volume-VolumeOk}

-- If the stack's data directory is written as a normal path with the components `d ∷ ds`, and no
-- problem is found in a volume, then what it binds is one of the two time zone files, read-only, or
-- lies in the data directory, however its path is written.
pub check_volume-Inside :
    (where_ : Text) (d : Text) (ds : List Text) (v : Value) (b : Bind)
    → All Proper (d ∷ ds)
    → check_volume where_ (some (codes "/" ++ join (b'/' ∷ []) (d ∷ ds))) v ≡ []
    → bind_source v ≡ some b
    → ((b.read_only ≡ true)
        × ((normpath b.source ≡ codes "/etc/localtime")
            ⊎ (normpath b.source ≡ codes "/etc/timezone")))
      ⊎ Inside (d ∷ ds) (components b.source)
check_volume-Inside where_ d ds v b proper clean bound =
    let dir = codes "/" ++ join (b'/' ∷ []) (d ∷ ds) in
    place (((check_volume-VolumeOk where_ (some dir) v).0 clean).1 b bound)
  where
    place :
        BindOk (some (codes "/" ++ join (b'/' ∷ []) (d ∷ ds))) b
        → ((b.read_only ≡ true)
            × ((normpath b.source ≡ codes "/etc/localtime")
                ⊎ (normpath b.source ≡ codes "/etc/timezone")))
          ⊎ Inside (d ∷ ds) (components b.source)
    place (rooted, s, s', inl zone) = inl zone
    place (rooted, s, s', inr (dir', e, inside)) =
        inr
          ((in_data_dir-Inside d ds proper b.source rooted).0 (
            subst (λ t. in_data_dir t (normpath b.source) ≡ true) (sym (some-injective _ _ e))
              inside)).1
