-- ===== src/Issues/Data/Phase3.antt =====
-- The tickets of phase 3 in scripts/tickets.py.
use nixos_homeserver.Base.{List, [], ◌∷◌, codes}
use nixos_homeserver.Issues.Tickets.{Ticket}
use nixos_homeserver.Issues.Data.Body.{ticket}

unfoldable pub phase_3 : List Ticket
phase_3 =
    ticket (codes "3.1") (codes "Docker module: data-root, log rotation, prune timer")
      (codes "area:containers" ∷ [])
      (codes
        "Container runtime configured declaratively. Decide Docker vs Podman in ADR 0006 first.")
      (codes
          "`virtualisation.docker.enable`, `daemon.settings`: `data-root = /var/lib/docker` (the `@docker` subvolume), `log-driver = journald` or json-file with rotation, `live-restore = true`"
        ∷ codes "`virtualisation.docker.autoPrune` weekly"
        ∷ codes "Add `ops` to the `docker` group"
        ∷ codes "`docker compose` plugin available (`pkgs.docker-compose`)"
        ∷ [])
      (codes "`docker run --rm hello-world` as `ops`"
        ∷ codes "`docker info` shows the data-root on the btrfs subvolume"
        ∷ codes "ADR 0006 marked accepted"
        ∷ [])
      (codes "[1.8], [0.6]")
    ∷ ticket (codes "3.2") (codes "Reusable compose-stack NixOS module")
        (codes "area:containers" ∷ codes "area:nix" ∷ [])
        (codes
          "One module turns a compose file plus a sops env file into a systemd service, so every stack deploys through comin identically.")
        (codes
            "`modules/containers/compose-stack.nix` with options: `name`, `composeFile`, `envSecret` (sops path), `dataDir`, `resources` (MemoryMax, CPUWeight), `after` extras"
          ∷ codes
              "Generated unit: `After=docker.service network-online.target`, `ExecStart=docker compose --project-directory /etc/stacks/<name> up -d --remove-orphans`, `ExecStop=... down`, `RemainAfterExit=yes`"
          ∷ codes "Restart the unit when the compose file or env changes (`restartTriggers`)"
          ∷ codes "Compose files installed to `/etc/stacks/<name>/` via `environment.etc`"
          ∷ codes "`OnFailure=` wired to the [2.5] notifier"
          ∷ codes "`stacks/hello/docker-compose.yml` as the example stack"
          ∷ [])
        (codes "`hello` stack deploys via comin and `systemctl status stack-hello` is active"
          ∷ codes "Editing the compose file and pushing restarts only that stack"
          ∷ [])
        (codes "[3.1]")
    ∷ ticket (codes "3.3") (codes "Data layout under /srv/data and ownership conventions")
        (codes "area:containers" ∷ codes "area:docs" ∷ [])
        (codes
          "Every stack's persistent state lives in one predictable place so backups and snapshots need no per-stack config.")
        (codes
            "`/srv/data/<stack>` per stack, created via `systemd.tmpfiles.rules` with a fixed uid/gid per stack"
          ∷ codes
              "Btrfs subvolume per stack under `@srv` (created by a small activation script or manually and documented)"
          ∷ codes
              "`docs/runbooks/data-layout.md`: path, owner, what is inside, what is excluded from backup"
          ∷ [])
        (codes "`hello` stack and the first real stack use the layout"
          ∷ codes "Runbook written"
          ∷ [])
        (codes "[3.2]")
    ∷ ticket (codes "3.4") (codes "Observability: Prometheus, node-exporter, cAdvisor, Grafana")
        (codes "area:observability" ∷ []) (codes "See host and container health over Tailscale.")
        (codes
            "`services.prometheus` + `exporters.node` as NixOS modules (not containers) so they survive Docker issues"
          ∷ codes
              "`stacks/obs/docker-compose.yml`: Grafana + cAdvisor; Grafana bound to the Tailscale IP only, admin password from sops"
          ∷ codes
              "Provision Grafana datasource and dashboards from files in the repo (node exporter full, cAdvisor)"
          ∷ codes
              "Placeholder per-game dashboards for [4.x] (player count via exporters where images expose them)"
          ∷ [])
        (codes "`http://nuc:3000` over Tailscale shows a populated host dashboard"
          ∷ codes "Grafana unreachable from LAN and WAN"
          ∷ [])
        (codes "[3.2], [3.3]")
    ∷ ticket (codes "3.5") (codes "restic backups to <nas-host> over SFTP")
        (codes "area:backup" ∷ [])
        (codes
          "Nightly, verified, alerting backups of everything under /srv/data to the existing NAS.")
        (codes
            "On <nas-host>: `<nas-backup-path>` owned by `<nas-user>`; add the nuc host key to `<nas-user>`' `authorized_keys` (restrict to sftp if possible)"
          ∷ codes
              "`services.restic.backups.nas`: repository `sftp:<nas-user>@<nas-host>:<nas-backup-path>`, `passwordFile` from sops, paths `/srv/data`, exclude caches and model blobs (see [5.3])"
          ∷ codes
              "Pre-backup: btrfs snapshot of `@srv` into `@snapshots`, back up the snapshot, delete after"
          ∷ codes
              "Retention `--keep-daily 7 --keep-weekly 4 --keep-monthly 6`; `restic check` weekly via a second timer"
          ∷ codes "`OnFailure=` to the [2.5] notifier"
          ∷ [])
        (codes "First backup completes; `restic snapshots` lists it"
          ∷ codes "Restore one file into `/tmp` and diff it"
          ∷ codes "Forcing a failure notifies"
          ∷ [])
        (codes "[3.3], [2.5]")
    ∷ ticket (codes "3.6") (codes "Alert rules: disk, backup age, failed units")
        (codes "area:observability" ∷ [])
        (codes "Turn dashboards into pages for the few things that matter.")
        (codes
            "Prometheus rules: root or `/srv` > 85 percent, `node_systemd_unit_state{state=\"failed\"} > 0`, restic last-success age > 36 h (expose via a textfile collector or `restic-exporter`)"
          ∷ codes "Alertmanager (NixOS module) or Grafana alerting to the [2.5] channel"
          ∷ codes "Test each rule by forcing the condition"
          ∷ [])
        (codes "Three rules present and each fired once in a test"
          ∷ codes "Alert noise reviewed after one week"
          ∷ [])
        (codes "[3.4], [3.5]")
    ∷ []
