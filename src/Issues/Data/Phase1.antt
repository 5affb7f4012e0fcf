-- ===== src/Issues/Data/Phase1.antt =====
-- The tickets of phase 1 in scripts/tickets.py.
use nixos_homeserver.Base.{List, [], ◌∷◌, codes}
use nixos_homeserver.Issues.Tickets.{Ticket}
use nixos_homeserver.Issues.Data.Body.{ticket}

unfoldable pub phase_1 : List Ticket
phase_1 =
    ticket (codes "1.1") (codes "Hardware prep and BIOS settings") (codes "area:install" ∷ [])
      (codes "Physically assemble the NUC and set BIOS options so it behaves as a headless server.")
      (codes "Seat both DDR5 SO-DIMMs (96 GB) and the 1 TB NVMe in the primary M.2 slot"
        ∷ codes
            "BIOS: restore power on AC loss = on, boot order USB first then NVMe, Secure Boot off (see [7.4]), VT-x and VT-d on, fan curve sensible for 24/7"
        ∷ codes
            "Record BIOS version, RAM part numbers, NVMe model and the `eno1` MAC in `docs/runbooks/hardware.md`"
        ∷ codes
            "Boot the NixOS 26.05 minimal ISO from USB and confirm `lspci` shows the Xe3 iGPU and two Intel 2.5GbE NICs, `free -g` shows about 94 GB"
        ∷ [])
      (codes "Runbook checklist complete" ∷ codes "Live ISO boots, both NICs get DHCP leases" ∷ [])
      (codes "Nothing.")
    ∷ ticket (codes "1.2") (codes "disko layout: GPT, ESP, btrfs subvolumes, swap")
        (codes "area:install" ∷ codes "area:nix" ∷ [])
        (codes
          "Declare the disk so a reinstall is bit-for-bit repeatable and data lives on snapshot-able subvolumes.")
        (codes "`hosts/nuc/disko.nix`: GPT, 1 GB ESP at `/boot`, rest btrfs"
          ∷ codes
              "Subvolumes: `@root` (/), `@nix` (/nix, noatime), `@home`, `@srv` (/srv, holds `/srv/data/<stack>`), `@docker` (/var/lib/docker), `@snapshots` (/.snapshots), `@swap`"
          ∷ codes
              "16 GB swapfile on `@swap` with `nodatacow`, or `zramSwap` if preferred; record the choice"
          ∷ codes "Compression `zstd:1` on data subvolumes, none on `@docker`"
          ∷ codes
              "Note the empty second M.2 slot as the future data disk in `docs/runbooks/hardware.md`"
          ∷ [])
        (codes "`nix build .#nixosConfigurations.nuc.config.system.build.diskoScript` succeeds"
          ∷ codes "Layout reviewed against the plan"
          ∷ [])
        (codes "[0.3]")
    ∷ ticket (codes "1.3") (codes "Base module: users, sshd, nix settings, kernel, GC")
        (codes "area:nix" ∷ codes "area:security" ∷ [])
        (codes "The minimum a fresh install needs to be safely reachable and self-maintaining.")
        (codes
            "User `ops`: `wheel`, `docker` (later), SSH public key from the workstation, no password"
          ∷ codes "`security.sudo.wheelNeedsPassword = false` (single-admin box; revisit in [7.2])"
          ∷ codes
              "`services.openssh`: `PasswordAuthentication = false`, `PermitRootLogin = \"no\"`, ed25519 host key only"
          ∷ codes
              "`nix.settings`: `experimental-features`, `trusted-users = [\"ops\"]`, `auto-optimise-store`; `nix.gc` weekly keep 14 days"
          ∷ codes
              "`boot.kernelPackages = pkgs.linuxPackages_latest`; `hardware.cpu.intel.updateMicrocode = true`; `hardware.enableRedistributableFirmware = true`"
          ∷ codes "`boot.loader.systemd-boot` with `configurationLimit = 10`"
          ∷ codes
              "Timezone Europe/London (adjust), locale, `programs.git`, `tmux` with the config ported from ansible-nas"
          ∷ [])
        (codes
            "`just vm` boots, `ssh ops@localhost -p <vm port>` works with the key and fails with a password"
          ∷ codes "`nixos-version` in the VM shows 26.05"
          ∷ [])
        (codes "[0.3], [1.2]")
    ∷ ticket (codes "1.4")
        (codes "LAN networking: DHCP reservation, hostname, firewall default deny")
        (codes "area:network" ∷ [])
        (codes "Give the server a stable LAN identity and a closed firewall before it goes online.")
        (codes "Router: DHCP reservation for the `eno1` MAC, name `nuc.home.arpa`"
          ∷ codes "`networking.useDHCP` on `eno1` only; second NIC left down and documented"
          ∷ codes
              "`networking.firewall.enable = true`, no open ports yet; SSH allowed only on the Tailscale interface after [1.5]. Temporarily allow 22 on LAN until Tailscale is confirmed"
          ∷ codes "`networking.nftables.enable = true`"
          ∷ [])
        (codes "From the LAN, `ping nuc.home.arpa` resolves to the reserved IP"
          ∷ codes "`nmap` from the LAN shows only 22 (until [1.5] closes it)"
          ∷ [])
        (codes "[1.3]")
    ∷ ticket (codes "1.5") (codes "Tailscale module with sops auth key")
        (codes "area:network" ∷ codes "area:security" ∷ [])
        (codes "All admin access goes over the tailnet. See ADR 0005.")
        (codes
            "`services.tailscale.enable`, `useRoutingFeatures = \"client\"`, `authKeyFile = config.sops.secrets.tailscale-authkey.path` (reusable, pre-authorized key from the Tailscale admin console)"
          ∷ codes
              "Enable MagicDNS and Tailscale SSH or keep sshd; either way sshd listens on the tailnet interface"
          ∷ codes
              "`networking.firewall.trustedInterfaces = [\"tailscale0\"]`; remove the temporary LAN port 22 rule"
          ∷ codes "Join the workstation (WSL) and phone to the tailnet"
          ∷ [])
        (codes
            "`ssh ops@nuc` from WSL works over Tailscale with the workstation on a different network (phone hotspot)"
          ∷ codes "`nmap` from the LAN shows no open ports"
          ∷ [])
        (codes "[1.3], [0.5]")
    ∷ ticket (codes "1.6") (codes "Install with nixos-anywhere from the live USB")
        (codes "area:install" ∷ [])
        (codes "First real install. After this the machine only ever changes through the repo.")
        (codes "Boot the NixOS minimal ISO, set a root password, note the DHCP IP"
          ∷ codes
              "From WSL: `nixos-anywhere --flake .#nuc --target-host root@<ip>` (uses disko from [1.2])"
          ∷ codes
              "Post-install: `nixos-generate-config --show-hardware-config` on the host, commit the real `hosts/nuc/hardware-configuration.nix`, push, rebuild"
          ∷ codes "Check `dmesg` for NIC (`igc`) and GPU (`xe`) errors; check `/dev/dri` exists"
          ∷ [])
        (codes "Reboots into NixOS 26.05 without USB"
          ∷ codes "`ssh ops@nuc.home.arpa` works"
          ∷ codes "`lspci -k` shows `xe` bound to the iGPU and `igc` to both NICs"
          ∷ codes "No firmware-missing errors in `dmesg`"
          ∷ [])
        (codes "[1.1], [1.2], [1.3], [1.4]")
    ∷ ticket (codes "1.7") (codes "Host age key and secret re-encryption")
        (codes "area:security" ∷ [])
        (codes
          "Let the server decrypt its own secrets from its SSH host key so no key material is copied by hand.")
        (codes
            "On the host: `ssh-to-age < /etc/ssh/ssh_host_ed25519_key.pub` and add the result to `.sops.yaml` as the `nuc` host"
          ∷ codes "`sops updatekeys secrets/*.yaml`, commit, push"
          ∷ codes "Verify `sops-nix` decrypts on the host at activation"
          ∷ codes "Add the Tailscale auth key ([1.5]) as the first real secret"
          ∷ [])
        (codes "`sudo cat /run/secrets/test` on nuc prints the plaintext"
          ∷ codes "Tailscale comes up on a fresh rebuild without manual `tailscale up`"
          ∷ [])
        (codes "[1.6], [0.5]")
    ∷ ticket (codes "1.8") (codes "Reinstall runbook and Phase 1 smoke tests")
        (codes "area:docs" ∷ codes "area:install" ∷ [])
        (codes
          "A wipe-and-reinstall must be a documented, under-one-hour procedure. This runbook is the DR baseline for [7.1].")
        (codes
            "`docs/runbooks/reinstall.md` covering [1.1] to [1.7] in order, with the exact commands"
          ∷ codes
              "Smoke test list: SSH over Tailscale, secrets decrypt, `nix flake check` on host, firewall closed on LAN, kernel is `linuxPackages_latest`"
          ∷ codes "Record time taken for the first install as the baseline"
          ∷ [])
        (codes "Runbook reviewed and followed once end-to-end" ∷ codes "All smoke tests pass" ∷ [])
        (codes "[1.7]")
    ∷ []
