-- ===== src/Compose/VolumeRules/Accepts.antt =====
-- Which `volumes:` entries `check_file` accepts.
use nixos_homeserver.Base.{
  true, false, Option, none, some, [], ◌++◌, ◌≡◌, ◌≢◌, ◌↔◌, ◌⊎◌, inl, inr, refl, arith, Bool-cases,
  nat_eq, list_eq, Text, codes, starts_with,
}
use nixos_homeserver.Base.Value.{Value, str, or_else, str_of}
use nixos_homeserver.Compose.Port.{has_variable}
use nixos_homeserver.Compose.Path.{initial_slashes, normpath}
use nixos_homeserver.Compose.Path.Normal.{Root, Root-initial_slashes, normpath_of_Root}
use nixos_homeserver.Compose.Volume.{volume_source, Bind, bind_source}
use nixos_homeserver.Compose.VolumeRules.{
  in_data_dir, normal_source, judge_bind, judge_source, check_volume,
}

-- The bind mount names a rooted path that is not the Docker socket, and either the read-only time
-- zone file, or a path in the stack's data directory.
abbrev pub BindOk : Option Text → Bind → Type 0
BindOk data_dir b =
    (starts_with b.source (codes "/") ≡ true)
    × (normpath b.source ≢ codes "/var/run/docker.sock")
    × (normpath b.source ≢ codes "/run/docker.sock")
    × (((b.read_only ≡ true)
          × ((normpath b.source ≡ codes "/etc/localtime")
              ⊎ (normpath b.source ≡ codes "/etc/timezone")))
        ⊎ ((dir : Text) × (data_dir ≡ some dir) × (in_data_dir dir (normpath b.source) ≡ true)))

-- The source names no variable, and a bind mount is as above.
abbrev pub VolumeOk : Option Text → Value → Type 0
VolumeOk data_dir v =
    (has_variable (str_of (or_else (volume_source v) (str []))) ≡ false)
    × ((b : Bind) → bind_source v ≡ some b → BindOk data_dir b)

starts_with-normpath :
    (path : Text)
    → starts_with path (codes "/") ≡ true
    → starts_with (normpath path) (codes "/") ≡ true
starts_with-normpath path h =
    rw (normpath_of_Root path (Root-initial_slashes path h))
      (begins (initial_slashes path) _ (Root-initial_slashes path h))
  where
    begins : (r s : Text) → Root r → starts_with (r ++ s) (codes "/") ≡ true
    begins r s (inl e) = rw e (unfold starts_with codes in ground arith)
    begins r s (inr e) = rw e (unfold starts_with codes in ground arith)

module _ (where_ : Text) where
  rooted_of_judge_bind :
      (data_dir : Option Text) (b : Bind)
      → judge_bind where_ data_dir b ≡ []
      → starts_with b.source (codes "/") ≡ true
  unfolding judge_bind normal_source
  rooted_of_judge_bind data_dir b h = ground arith

  place_of_judge_bind :
      (data_dir : Option Text) (b : Bind)
      → judge_bind where_ data_dir b ≡ []
      → starts_with b.source (codes "/") ≡ true
      → ((b.read_only ≡ true)
          × ((normpath b.source ≡ codes "/etc/localtime")
              ⊎ (normpath b.source ≡ codes "/etc/timezone")))
        ⊎ ((dir : Text) × (data_dir ≡ some dir) × (in_data_dir dir (normpath b.source) ≡ true))
  unfolding judge_bind normal_source
  place_of_judge_bind none b h rooted = ground (arith, starts_with-normpath b.source)
  place_of_judge_bind (some dir) b h rooted =
      elim (Bool-cases (in_data_dir dir (normpath b.source))) [
        | inl inside ↦ inr (dir, refl, inside)
        | inr outside ↦ inl (
          ground (arith, starts_with-normpath b.source),
          ground (arith, starts_with-normpath b.source),
        )
      ]

  judge_bind-BindOk :
      (data_dir : Option Text) (b : Bind) → judge_bind where_ data_dir b ≡ [] → BindOk data_dir b
  unfolding judge_bind normal_source
  judge_bind-BindOk data_dir b h =
      let rooted = rooted_of_judge_bind data_dir b h in
      (rooted, ground arith, ground arith, place_of_judge_bind data_dir b h rooted)

  BindOk-judge_bind :
      (data_dir : Option Text) (b : Bind) → BindOk data_dir b → judge_bind where_ data_dir b ≡ []
  unfolding judge_bind normal_source
  BindOk-judge_bind data_dir b (rooted, s, s', inl ok_file) =
      ground (arith, starts_with-normpath b.source)
  BindOk-judge_bind data_dir b (rooted, s, s', inr (dir, e, inside)) =
      ground (arith, starts_with-normpath b.source)

  -- No problem is found in a volume exactly when it meets `VolumeOk`.
  pub check_volume-VolumeOk :
      (data_dir : Option Text) (v : Value)
      → (check_volume where_ data_dir v ≡ []) ↔ VolumeOk data_dir v
  unfolding check_volume
  check_volume-VolumeOk data_dir v = (
    λ h. (ground arith, λ b e. judge_bind-BindOk data_dir b (ground arith)),
    λ (plain, binds). rw plain (finish (bind_source v) refl binds),
  )
    where
      finish :
          (o : Option Bind)
          → bind_source v ≡ o
          → ((b : Bind) → bind_source v ≡ some b → BindOk data_dir b)
          → judge_source where_ data_dir o ≡ []
      finish none e binds = unfold judge_source in refl
      finish (some b) e binds = unfold judge_source in BindOk-judge_bind data_dir b (binds b e)
