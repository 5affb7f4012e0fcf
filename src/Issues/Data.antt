-- ===== src/Issues/Data.antt =====
-- scripts/tickets.py: the milestones, the labels and the tickets.
pub mod Body
pub mod References
pub mod Phase0
pub mod Phase1
pub mod Phase2
pub mod Phase3
pub mod Phase4
pub mod Phase5
pub mod Phase6
pub mod Phase7
pub mod Phase8
use nixos_homeserver.Base.{List, [], ◌∷◌, ◌++◌, Text, codes}
use nixos_homeserver.Issues.Tickets.{Ticket}
use nixos_homeserver.Issues.Listings.{Label}
use nixos_homeserver.Issues.Data.Phase0.{phase_0}
use nixos_homeserver.Issues.Data.Phase1.{phase_1}
use nixos_homeserver.Issues.Data.Phase2.{phase_2}
use nixos_homeserver.Issues.Data.Phase3.{phase_3}
use nixos_homeserver.Issues.Data.Phase4.{phase_4}
use nixos_homeserver.Issues.Data.Phase5.{phase_5}
use nixos_homeserver.Issues.Data.Phase6.{phase_6}
use nixos_homeserver.Issues.Data.Phase7.{phase_7}
use nixos_homeserver.Issues.Data.Phase8.{phase_8}

-- MILESTONES: (title, description)
unfoldable pub milestones : List (Text × Text)
milestones =
    (
      codes "Phase 0: Workstation and repo foundations",
      codes
          "No hardware needed. Nix on WSL, flake skeleton, CI, sops bootstrap, ADRs, task runner. Do in order 0.1 to 0.7.",
    )
    ∷ (
      codes "Phase 1: Bare-metal install and base OS",
      codes
          "disko layout, base module, network, Tailscale, nixos-anywhere install, host age key, reinstall runbook.",
    )
    ∷ (
      codes "Phase 2: GitOps, updates, rollback",
      codes
          "comin pull deploys, weekly flake.lock PRs, maintenance-window reboots, rollback drill, failure notifications, README.",
    )
    ∷ (
      codes "Phase 3: Container platform, observability, backups",
      codes
          "Docker, reusable compose-stack module, data layout, Prometheus/Grafana, restic to <nas-host>, alerting.",
    )
    ∷ (
      codes "Phase 4: Game servers",
      codes
          "Minecraft, Palworld, Satisfactory stacks, port forwards, maintenance hooks, resource policy, new-server template.",
    )
    ∷ (
      codes "Phase 5: Local LLMs",
      codes "Ollama on CPU, Open WebUI, model storage budget, Intel iGPU and NPU trials.",
    )
    ∷ (
      codes "Phase 6: Development environment",
      codes
          "home-manager, Shopify dev shells, sops-backed tokens, VS Code Remote, scheduled scripts.",
    )
    ∷ (
      codes "Phase 7: Hardening, DR, write-up",
      codes "DR drill, security review, SMART/scrub, Secure Boot (stretch), CV write-up.",
    )
    ∷ (
      codes "Phase 8: Kubernetes (stretch)",
      codes "K3s ADR, single-node install, migrate one stack, go/no-go.",
    )
    ∷ []

-- LABELS: (name, color, description)
unfoldable pub labels : List Label
labels =
    record {
      name = codes "phase:0";
      color = codes "c5def5";
      description = codes "Phase 0 workstation and repo foundations";
    }
    ∷ record {
      name = codes "phase:1";
      color = codes "c5def5";
      description = codes "Phase 1 bare-metal install";
    }
    ∷ record {
      name = codes "phase:2";
      color = codes "c5def5";
      description = codes "Phase 2 GitOps and updates";
    }
    ∷ record {
      name = codes "phase:3";
      color = codes "c5def5";
      description = codes "Phase 3 containers, observability, backups";
    }
    ∷ record {
      name = codes "phase:4";
      color = codes "c5def5";
      description = codes "Phase 4 game servers";
    }
    ∷ record {
      name = codes "phase:5";
      color = codes "c5def5";
      description = codes "Phase 5 local LLMs";
    }
    ∷ record {
      name = codes "phase:6";
      color = codes "c5def5";
      description = codes "Phase 6 dev environment";
    }
    ∷ record {
      name = codes "phase:7";
      color = codes "c5def5";
      description = codes "Phase 7 hardening and DR";
    }
    ∷ record {
      name = codes "phase:8";
      color = codes "c5def5";
      description = codes "Phase 8 Kubernetes";
    }
    ∷ record {
      name = codes "area:nix";
      color = codes "5319e7";
      description = codes "Nix flake and NixOS modules";
    }
    ∷ record {
      name = codes "area:ci";
      color = codes "0e8a16";
      description = codes "GitHub Actions";
    }
    ∷ record {
      name = codes "area:install";
      color = codes "d93f0b";
      description = codes "Bare-metal install and hardware";
    }
    ∷ record {
      name = codes "area:network";
      color = codes "1d76db";
      description = codes "Networking, Tailscale, firewall";
    }
    ∷ record {
      name = codes "area:containers";
      color = codes "fbca04";
      description = codes "Docker and compose stacks";
    }
    ∷ record {
      name = codes "area:games";
      color = codes "e99695";
      description = codes "Game servers";
    }
    ∷ record {
      name = codes "area:llm";
      color = codes "bfd4f2";
      description = codes "Local LLM hosting";
    }
    ∷ record {
      name = codes "area:dev";
      color = codes "c2e0c6";
      description = codes "Development environment";
    }
    ∷ record {
      name = codes "area:backup";
      color = codes "f9d0c4";
      description = codes "Backups and restore";
    }
    ∷ record {
      name = codes "area:security";
      color = codes "b60205";
      description = codes "Security hardening";
    }
    ∷ record {
      name = codes "area:docs";
      color = codes "0052cc";
      description = codes "Documentation, ADRs, runbooks";
    }
    ∷ record {
      name = codes "area:observability";
      color = codes "006b75";
      description = codes "Monitoring and alerting";
    }
    ∷ record {
      name = codes "stretch";
      color = codes "ededed";
      description = codes "Optional, do after the core is stable";
    }
    ∷ []

-- TICKETS
unfoldable pub tickets : List Ticket
unfolding phase_0 phase_1 phase_2 phase_3 phase_4 phase_5 phase_6 phase_7 phase_8
tickets =
    phase_0
    ++ (phase_1
        ++ (phase_2 ++ (phase_3 ++ (phase_4 ++ (phase_5 ++ (phase_6 ++ (phase_7 ++ (phase_8))))))))
