-- ===== src/Issues/Data/Phase2.antt =====
-- The tickets of phase 2 in scripts/tickets.py.
use nixos_homeserver.Base.{List, [], ◌∷◌, codes}
use nixos_homeserver.Issues.Tickets.{Ticket}
use nixos_homeserver.Issues.Data.Body.{ticket}

unfoldable pub phase_2 : List Ticket
phase_2 =
    ticket (codes "2.1") (codes "comin pull-based deployment from main")
      (codes "area:ci" ∷ codes "area:nix" ∷ [])
      (codes "The server deploys itself from `main`. See ADR 0003.")
      (codes
          "Add the `comin` NixOS module; remote = this repo (public HTTPS, no token needed), branch `main`, poll about 60 s"
        ∷ codes "Consider `comin` GPG commit verification and document why enabled or not"
        ∷ codes "Remove any temporary manual-deploy habit; `just deploy` stays for emergencies"
        ∷ codes "Add `comin` status to the smoke tests"
        ∷ [])
      (codes "Push a change to `users.motd`, see it on the host within 2 minutes without any SSH"
        ∷ codes "`systemctl status comin` healthy after reboot"
        ∷ [])
      (codes "[1.8], [0.4]")
    ∷ ticket (codes "2.2") (codes "Weekly flake.lock update pull requests") (codes "area:ci" ∷ [])
        (codes
          "Keep nixpkgs and inputs current with a reviewable PR each week, built by CI before merge.")
        (codes
            "`.github/workflows/update-flake-lock.yml` using `DeterminateSystems/update-flake-lock` on a weekly cron"
          ∷ codes
              "PRs labeled `dependencies`; CI from [0.4] runs on them. Note nixpkgs and home-manager track release branches while disko, sops-nix and comin track their default branches, so those three are the bumps that actually need a human"
          ∷ codes
              "After one month decide whether to enable auto-merge on green (record in ADR 0003 consequences)"
          ∷ [])
        (codes "First automated PR merged and deployed via comin"
          ∷ codes "Decision on auto-merge recorded"
          ∷ [])
        (codes "[2.1]")
    ∷ ticket (codes "2.3") (codes "Safe update policy: reboot window and generation limits")
        (codes "area:nix" ∷ codes "area:docs" ∷ [])
        (codes "Updates that change the kernel must not reboot game servers mid-session.")
        (codes "`system.autoUpgrade.enable = false` (comin owns deploys)"
          ∷ codes
              "A systemd timer (e.g. Tue 04:00) that reboots only if `/run/current-system` kernel differs from `/run/booted-system`"
          ∷ codes "Hook point for a pre-reboot game broadcast, wired in [4.4]"
          ∷ codes
              "`docs/runbooks/updates.md`: how updates flow, how to pause comin, how to force a deploy"
          ∷ [])
        (codes "A kernel bump waits for the window and reboots then"
          ∷ codes "A config-only change deploys immediately without reboot"
          ∷ codes "Runbook written"
          ∷ [])
        (codes "[2.1]")
    ∷ ticket (codes "2.4")
        (codes "Rollback drill: broken service, bootloader generation, git revert")
        (codes "area:nix" ∷ codes "area:docs" ∷ [])
        (codes "Prove both rollback paths before relying on them.")
        (codes
            "Merge a commit that breaks a systemd unit; confirm comin switches and the failure is visible but SSH survives"
          ∷ codes "Roll back via `git revert` and watch comin recover"
          ∷ codes
              "Merge a commit that breaks boot in the VM (e.g. bad `fileSystems`); confirm CI catches it; if it did not, boot the previous generation from systemd-boot"
          ∷ codes "Document both in `docs/runbooks/updates.md`"
          ∷ [])
        (codes "Both recovery paths performed and timed"
          ∷ codes "CI catches the boot-breaking example"
          ∷ [])
        (codes "[2.3]")
    ∷ ticket (codes "2.5") (codes "Deployment and unit failure notifications")
        (codes "area:observability" ∷ [])
        (codes "Know within minutes when a deploy or a unit fails.")
        (codes
            "Pick ntfy (self-hosted or ntfy.sh topic) or a Discord webhook; store the URL in sops"
          ∷ codes
              "`systemd` `OnFailure=` handler unit that posts the failing unit name and last 20 journal lines"
          ∷ codes
              "Attach the handler to `comin`, backup, and each compose stack unit (via the [3.2] module)"
          ∷ codes "Add a comin success notification with commit hash (optional, can be noisy)"
          ∷ [])
        (codes "Forcing a unit failure produces a notification on the phone"
          ∷ codes "Secret URL absent from the repo"
          ∷ [])
        (codes "[2.1], [1.7]")
    ∷ ticket (codes "2.6") (codes "README pipeline diagram and status badges")
        (codes "area:docs" ∷ [])
        (codes "Make the repo readable as portfolio evidence in one screen.")
        (codes
            "Mermaid diagram: PR to CI to merge to comin to nixos-rebuild; and the runtime layout (stacks, Tailscale, restic to NAS)"
          ∷ codes "Badges: CI, flake.lock update, license"
          ∷ codes "Short 'how to reproduce this' section pointing at `docs/runbooks/reinstall.md`"
          ∷ [])
        (codes "README renders the diagram on GitHub"
          ∷ codes "A reader unfamiliar with Nix understands the flow"
          ∷ [])
        (codes "[2.1]")
    ∷ []
