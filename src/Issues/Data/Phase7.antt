-- ===== src/Issues/Data/Phase7.antt =====
-- The tickets of phase 7 in scripts/tickets.py.
use nixos_homeserver.Base.{List, [], ◌∷◌, codes}
use nixos_homeserver.Issues.Tickets.{Ticket}
use nixos_homeserver.Issues.Data.Body.{ticket}

unfoldable pub phase_7 : List Ticket
phase_7 =
    ticket (codes "7.1")
      (codes "Disaster recovery drill: reinstall from flake and restore from restic")
      (codes "area:backup" ∷ codes "area:install" ∷ [])
      (codes "Prove the whole system can be recreated from the repo and the NAS in under an hour.")
      (codes "Announce downtime; stop game stacks"
        ∷ codes
            "Either wipe and reinstall the NVMe, or install onto a second NVMe in the free slot, following `docs/runbooks/reinstall.md`"
        ∷ codes "`restic restore latest --target /srv/data` for all stacks"
        ∷ codes "Bring stacks up, verify worlds and Grafana history, time the whole thing"
        ∷ [])
      (codes "Total time recorded, under 60 minutes"
        ∷ codes "Runbook corrections committed"
        ∷ codes "Players see their worlds intact"
        ∷ [])
      (codes "[1.8], [3.5], [4.x] complete")
    ∷ ticket (codes "7.2") (codes "Security review") (codes "area:security" ∷ [])
        (codes "Audit what is exposed and what runs as root.")
        (codes "Dump `nft list ruleset`; confirm only game ports are open on `eno1`"
          ∷ codes "Review `sshd -T`; Tailscale ACLs restrict SSH to the owner's devices"
          ∷ codes
              "Containers: run as non-root where the image supports it, `no-new-privileges`, read-only root fs where possible; Docker socket not mounted anywhere"
          ∷ codes "Revisit `wheelNeedsPassword = false` from [1.3]"
          ∷ codes
              "Record accepted risks in `docs/adr/0010-security-posture.md` (0007 is the Nix distribution policy, 0008 is reserved for K3s, 0009 for disk encryption)"
          ∷ [])
        (codes "Checklist complete, findings fixed or accepted in the ADR" ∷ [])
        (codes "[4.6], [5.2], [6.4]")
    ∷ ticket (codes "7.3") (codes "SMART, btrfs scrub, and thermal monitoring")
        (codes "area:observability" ∷ [])
        (codes "Catch disk and heat problems on a fanned mini PC running 24/7.")
        (codes
            "`services.smartd` with email or notifier hook; `smartctl` exporter or node-exporter textfile for Grafana"
          ∷ codes "`services.btrfs.autoScrub` monthly on the root pool"
          ∷ codes
              "Thermal: `lm_sensors`, CPU package temperature panel and alert above 90 C sustained"
          ∷ [])
        (codes "Scrub timer listed in `systemctl list-timers`"
          ∷ codes "A SMART test alert delivered"
          ∷ codes "Temperature panel populated"
          ∷ [])
        (codes "[3.6]")
    ∷ ticket (codes "7.4") (codes "Secure Boot with lanzaboote")
        (codes "area:security" ∷ codes "stretch" ∷ [])
        (codes "Optional hardening once everything else is stable.")
        (codes
            "Follow the lanzaboote quick start: `sbctl create-keys`, enroll, switch bootloader to lanzaboote"
          ∷ codes
              "Update [1.1] BIOS notes and `docs/runbooks/reinstall.md` with the enrollment steps"
          ∷ [])
        (codes "`bootctl status` shows Secure Boot enabled"
          ∷ codes "A reinstall still works following the runbook"
          ∷ [])
        (codes "[7.1]")
    ∷ ticket (codes "7.5") (codes "CV write-up") (codes "area:docs" ∷ [])
        (codes "A concise narrative of the system for a portfolio reader.")
        (codes
            "`docs/writeup.md`: problem, architecture, decisions (link ADRs), metrics (deploy latency, DR time, uptime), what went wrong and what was learned"
          ∷ codes "Link from README"
          ∷ [])
        (codes "Reviewed by a second reader" ∷ codes "Numbers match runbook records" ∷ [])
        (codes "[7.1], [2.6]")
    ∷ []
