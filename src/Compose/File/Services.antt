-- ===== src/Compose/File/Services.antt =====
-- The rounds of `check_file` over the services, against what it demands of a service (File/Demands).
use nixos_homeserver.Base.{
  false, Option, List, [], ◌∷◌, ◌++◌, append-nil, ◌≡◌, refl, sym, ap, ap₂, ◌∙◌, arith,
  if◌then◌else◌, nat_eq, list_eq, int_eq, pair_eq, Text, codes, ok, >>=-eq-ok, ok-injective,
}
use nixos_homeserver.Base.Lists.{All, append-eq-nil}
use nixos_homeserver.Base.Value.{Value, str, or_else, or_null, get, py_eq}
use nixos_homeserver.Compose.Problem.{Stack, host_network}
use nixos_homeserver.Compose.PortRules.{Findings, both, collect, check_port}
use nixos_homeserver.Compose.PortRules.Collect.{
  Clean, collect-Clean, Clean-collect, public-collect, all_public,
}
use nixos_homeserver.Compose.PortRules.Accepts.{
  PortOk, check_port-PortOk, PortOk-check_port, public-check_port,
}
use nixos_homeserver.Compose.VolumeRules.Accepts.{VolumeOk, check_volume-VolumeOk}
use nixos_homeserver.Compose.File.{
  empty_dict, with_problems, volume_findings, listed, check_service,
}
use nixos_homeserver.Compose.File.Demands.{ServiceOk, opened_by, opened_by_all}

module _ (name : Text) (stack : Stack) where
  volumes-Clean :
      (where_ : Text) (vs : List Value)
      → All (VolumeOk stack.data_dir) vs
      → All (Clean (volume_findings where_ stack.data_dir)) vs
  volumes-Clean where_ [] h = tt
  volumes-Clean where_ (v ∷ vs) (p, h) =
      ((_, refl, (check_volume-VolumeOk where_ stack.data_dir v).1 p), volumes-Clean where_ vs h)

  Clean-volumes :
      (where_ : Text) (vs : List Value)
      → All (Clean (volume_findings where_ stack.data_dir)) vs
      → All (VolumeOk stack.data_dir) vs
  Clean-volumes where_ [] h = tt
  Clean-volumes where_ (v ∷ vs) ((g, p, e), h) =
      ((check_volume-VolumeOk where_ stack.data_dir v).0 (ground arith), Clean-volumes where_ vs h)

  ports-Clean :
      (where_ : Text) (vs : List Value)
      → All (PortOk stack.public_ports) vs
      → All (Clean (check_port name where_ stack.public_ports)) vs
  ports-Clean where_ [] h = tt
  ports-Clean where_ (v ∷ vs) (p, h) =
      (PortOk-check_port name where_ stack.public_ports v p, ports-Clean where_ vs h)

  Clean-ports :
      (where_ : Text) (vs : List Value)
      → All (Clean (check_port name where_ stack.public_ports)) vs
      → All (PortOk stack.public_ports) vs
  Clean-ports where_ [] h = tt
  Clean-ports where_ (v ∷ vs) (p, h) =
      (check_port-PortOk name where_ stack.public_ports v p, Clean-ports where_ vs h)

  -- The last step of a service's round.
  finish_service : Text → Option Value → Findings → Findings → Findings
  finish_service where_ mode found mounts =
      with_problems
        (if py_eq (or_null mode) (str (codes "host"))
          then record { rule = host_network; detail = where_ ++ codes " uses network_mode: host" }
            ∷ []
          else [])
        (both found mounts)

  finish_service-problems :
      (where_ : Text) (mode : Option Value) (found mounts : Findings)
      → (finish_service where_ mode found mounts).problems ≡ []
      → (py_eq (or_null mode) (str (codes "host")) ≡ false)
        × (found.problems ≡ [])
        × (mounts.problems ≡ [])
  unfolding finish_service
  finish_service-problems where_ mode found mounts e = (
    ground arith,
    (append-eq-nil found.problems mounts.problems (ground arith)).0,
    (append-eq-nil found.problems mounts.problems (ground arith)).1,
  )

  public-finish_service :
      (where_ : Text) (mode : Option Value) (found mounts : Findings)
      → (finish_service where_ mode found mounts).public ≡ found.public ++ mounts.public
  unfolding finish_service
  public-finish_service where_ mode found mounts = refl

  -- What a service's round has read and found when it ends without an exception.
  Round : Text → Value → Findings → Type 0
  Round n written g =
      (mode : Option Value) × (ports : List Value) × (found : Findings) × (volumes : List Value)
      × (mounts : Findings) × (get (or_else written empty_dict) (codes "network_mode") ≡ ok mode)
      × (listed (or_else written empty_dict) (codes "ports") ≡ ok ports)
      × (collect (check_port name (codes "service " ++ n) stack.public_ports) ports ≡ ok found)
      × (listed (or_else written empty_dict) (codes "volumes") ≡ ok volumes)
      × (collect (volume_findings (codes "service " ++ n) stack.data_dir) volumes ≡ ok mounts)
      × (finish_service (codes "service " ++ n) mode found mounts ≡ g)

  Round-check_service :
      (n : Text) (written : Value) (g : Findings)
      → check_service name stack (n, written) ≡ ok g
      → Round n written g
  unfolding check_service Round finish_service
  Round-check_service n written g h =
      let (mode, h_mode, h₁) =
        >>=-eq-ok (get (or_else written empty_dict) (codes "network_mode")) _ h in
      let (ports, h_ports, h₂) =
        >>=-eq-ok (listed (or_else written empty_dict) (codes "ports")) _ h₁ in
      let (found, h_found, h₃) =
        >>=-eq-ok (collect (check_port name (codes "service " ++ n) stack.public_ports) ports) _
          h₂ in
      let (volumes, h_volumes, h₄) =
        >>=-eq-ok (listed (or_else written empty_dict) (codes "volumes")) _ h₃ in
      let (mounts, h_mounts, h₅) =
        >>=-eq-ok (collect (volume_findings (codes "service " ++ n) stack.data_dir) volumes) _ h₄ in
      (
        mode,
        ports,
        found,
        volumes,
        mounts,
        h_mode,
        h_ports,
        h_found,
        h_volumes,
        h_mounts,
        ok-injective h₅,
      )

  -- A service in which no problem is found is acceptable.
  pub check_service-ServiceOk :
      (s : Text × Value) → Clean (check_service name stack) s → ServiceOk stack s.1
  unfolding Round
  check_service-ServiceOk (n, written) (g, h, e) = of_round (Round-check_service n written g h)
    where
      of_round : Round n written g → ServiceOk stack written
      of_round
            (
              mode, ports, found, volumes, mounts, h_mode, h_ports, h_found, h_volumes, h_mounts, r,
            ) =
          let (bridge, none_found, none_mounts) =
            finish_service-problems (codes "service " ++ n) mode found mounts (rw r e) in
          (
            mode,
            ports,
            volumes,
            h_mode,
            bridge,
            h_ports,
            Clean-ports (codes "service " ++ n) ports
                (collect-Clean _ ports found h_found none_found),
            h_volumes,
            Clean-volumes (codes "service " ++ n) volumes
                (collect-Clean _ volumes mounts h_mounts none_mounts),
          )

  pub ServiceOk-check_service :
      (s : Text × Value) → ServiceOk stack s.1 → Clean (check_service name stack) s
  unfolding check_service
  ServiceOk-check_service (n, written)
        (mode, ports, volumes, h_mode, bridge, h_ports, ports_ok, h_volumes, volumes_ok) =
      let where_ = codes "service " ++ n in
      let (found, q, none_found) = Clean-collect _ ports (ports-Clean where_ ports ports_ok) in
      let (mounts, r, none_mounts) =
        Clean-collect _ volumes (volumes-Clean where_ volumes volumes_ok) in
      (
        both found mounts,
        rw (h_mode, h_ports, q, h_volumes, r, bridge),
        rw (none_found, none_mounts),
      )

  public-mounts :
      (where_ : Text) (vs : List Value) (r : Findings)
      → collect (volume_findings where_ stack.data_dir) vs ≡ ok r
      → r.public ≡ []
  public-mounts where_ vs r h =
      public-collect (volume_findings where_ stack.data_dir) vs r h ∙ none_public vs
    where
      none_public : (vs : List Value) → all_public (volume_findings where_ stack.data_dir) vs ≡ []
      none_public [] = refl
      none_public (v ∷ vs) = none_public vs

  public-ports :
      (where_ : Text) (vs : List Value)
      → All (Clean (check_port name where_ stack.public_ports)) vs
      → all_public (check_port name where_ stack.public_ports) vs ≡ opened_by_all vs
  public-ports where_ [] h = refl
  public-ports where_ (v ∷ vs) ((g, p, e), h) =
      rw (p, public-check_port name where_ stack.public_ports v g p, public-ports where_ vs h)

  -- The public ports that a service adds, if no problem is found in it, are those that it opens.
  pub public-check_service :
      (s : Text × Value) (g : Findings)
      → check_service name stack s ≡ ok g
      → g.problems ≡ []
      → g.public ≡ opened_by s.1
  unfolding Round
  public-check_service (n, written) g h e = of_round (Round-check_service n written g h)
    where
      of_round : Round n written g → g.public ≡ opened_by written
      of_round
            (
              mode, ports, found, volumes, mounts, h_mode, h_ports, h_found, h_volumes, h_mounts, r,
            ) =
          let (bridge, none_found, none_mounts) =
            finish_service-problems (codes "service " ++ n) mode found mounts (rw r e) in
          let checker = check_port name (codes "service " ++ n) stack.public_ports in
          let found_public : found.public ≡ opened_by_all ports =
            public-collect checker ports found h_found
            ∙ public-ports (codes "service " ++ n) ports
                (collect-Clean checker ports found h_found none_found) in
          let mounts_public : mounts.public ≡ [] =
            public-mounts (codes "service " ++ n) volumes mounts h_mounts in
          let of_ports : opened_by written ≡ opened_by_all ports = rw h_ports in
          ap (λ f. f.public) (sym r)
          ∙ public-finish_service (codes "service " ++ n) mode found mounts
          ∙ ap₂ (λ a b. a ++ b) found_public mounts_public
          ∙ append-nil (opened_by_all ports)
          ∙ sym of_ports
