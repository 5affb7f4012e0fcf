-- ===== src/Issues/Data/Phase4.antt =====
-- The tickets of phase 4 in scripts/tickets.py.
use nixos_homeserver.Base.{List, [], ◌∷◌, codes}
use nixos_homeserver.Issues.Tickets.{Ticket}
use nixos_homeserver.Issues.Data.Body.{ticket}

unfoldable pub phase_4 : List Ticket
phase_4 =
    ticket (codes "4.1") (codes "Minecraft stack (itzg/minecraft-server)") (codes "area:games" ∷ [])
      (codes "First real game server, reachable by friends from the internet.")
      (codes
          "`stacks/games/minecraft/docker-compose.yml` with `itzg/minecraft-server`: `EULA=TRUE`, `TYPE` (paper or vanilla), `MEMORY`, `ENABLE_RCON` with password from sops, `VERSION` pinned"
        ∷ codes "Data on `/srv/data/minecraft`; `MemoryMax` via the [3.2] module"
        ∷ codes "Router: forward TCP 25565 to nuc; `networking.firewall.allowedTCPPorts = [25565]`"
        ∷ codes
            "Pre-backup hook: `rcon-cli save-off; save-all` then `save-on` after (wire into [3.5] pre/post)"
        ∷ codes "Optional: `itzg/mc-monitor` exporter for Grafana"
        ∷ [])
      (codes "A friend connects from outside the LAN"
        ∷ codes "Backup includes a consistent world save"
        ∷ codes "Restart of the unit brings the server back with the same world"
        ∷ [])
      (codes "[3.2], [3.3], [3.5]")
    ∷ ticket (codes "4.2") (codes "Palworld stack (thijsvanloef/palworld-server-docker)")
        (codes "area:games" ∷ [])
        (codes "Palworld dedicated server with the leak-mitigating scheduled restart.")
        (codes
            "Compose stack with `thijsvanloef/palworld-server-docker`; `PLAYERS`, `SERVER_PASSWORD` and `ADMIN_PASSWORD` from sops, `RCON_ENABLED=true`"
          ∷ codes
              "Built-in `AUTO_REBOOT` cron at a quiet hour with `AUTO_REBOOT_WARN_MINUTES`; `BACKUP_ENABLED` to `/srv/data/palworld/backups`"
          ∷ codes "`MemoryMax` around 16 GB; note observed usage after a week"
          ∷ codes "Router: forward UDP 8211 (and 27015 if using the community list); firewall rule"
          ∷ [])
        (codes "External connection succeeds"
          ∷ codes "Scheduled restart observed and players warned"
          ∷ codes "Memory stays under the cap for a week"
          ∷ [])
        (codes "[3.2], [3.3]")
    ∷ ticket (codes "4.3") (codes "Satisfactory stack (wolveix/satisfactory-server)")
        (codes "area:games" ∷ []) (codes "Satisfactory dedicated server.")
        (codes
            "Compose stack with `wolveix/satisfactory-server`; `MAXPLAYERS`, `AUTOSAVEINTERVAL`, `STEAMBETA=false`"
          ∷ codes
              "Data on `/srv/data/satisfactory`; `MemoryMax` around 16 GB (Satisfactory grows with factory size)"
          ∷ codes "Router: forward TCP and UDP 7777; firewall rule"
          ∷ codes
              "Claim the server from the in-game client and store the admin password in the password manager"
          ∷ [])
        (codes "External connection succeeds" ∷ codes "Save survives a unit restart" ∷ [])
        (codes "[3.2], [3.3]")
    ∷ ticket (codes "4.4")
        (codes "Maintenance-window hooks: RCON broadcast before reboot, per-game backup hooks")
        (codes "area:games" ∷ codes "area:nix" ∷ [])
        (codes "Reboots and backups never surprise players.")
        (codes
            "Pre-reboot script called by the [2.3] timer: for each running game stack, RCON broadcast at T-5 min and T-1 min, then `docker compose stop` cleanly"
          ∷ codes
              "Per-game backup pre/post scripts registered with [3.5] (`backupPrepareCommand` / `backupCleanupCommand`)"
          ∷ codes
              "`docs/runbooks/game-ops.md`: how to broadcast, restart, restore a world from restic"
          ∷ [])
        (codes "Triggering the reboot timer manually fires broadcasts in Minecraft and Palworld"
          ∷ codes "A restic restore of a world is performed once and documented"
          ∷ [])
        (codes "[2.3], [4.1], [4.2], [3.5]")
    ∷ ticket (codes "4.5") (codes "Resource policy: MemoryMax and CPUWeight per stack")
        (codes "area:containers" ∷ codes "area:games" ∷ [])
        (codes
          "Game servers keep their tick rate when an LLM job runs. With 96 GB the constraint is CPU, not RAM.")
        (codes
            "Set `resources` in each stack: games `CPUWeight=1000`, LLM `CPUWeight=200`, observability `CPUWeight=100`"
          ∷ codes
              "`MemoryMax` per stack summing to under about 80 GB, leaving headroom for page cache"
          ∷ codes
              "Consider `AllowedCPUs` to pin LLM to E-cores and games to P-cores; benchmark before committing"
          ∷ codes "Document the numbers in `docs/runbooks/data-layout.md` or a new `resources.md`"
          ∷ [])
        (codes "`systemd-cgtop` shows the weights in effect"
          ∷ codes "Minecraft tick time stays under 50 ms while a 70B model generates"
          ∷ [])
        (codes "[4.1], [5.1]")
    ∷ ticket (codes "4.6") (codes "Template and runbook for adding a new game server")
        (codes "area:games" ∷ codes "area:docs" ∷ [])
        (codes "Adding the fourth game should take under an hour.")
        (codes "`stacks/games/_template/` with a compose file, env example, and README"
          ∷ codes
              "`docs/runbooks/new-game-server.md`: copy template, add ports to firewall and router, add to backup paths, add resource weights, add Grafana panel"
          ∷ codes "Try it on a fourth game (e.g. Valheim or Terraria) to validate"
          ∷ [])
        (codes "A fourth server is up within one hour following only the runbook" ∷ [])
        (codes "[4.4], [4.5]")
    ∷ []
