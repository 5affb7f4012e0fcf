-- ===== src/Issues/Data/Phase6.antt =====
-- The tickets of phase 6 in scripts/tickets.py.
use nixos_homeserver.Base.{List, [], ◌∷◌, codes}
use nixos_homeserver.Issues.Tickets.{Ticket}
use nixos_homeserver.Issues.Data.Body.{ticket}

unfoldable pub phase_6 : List Ticket
phase_6 =
    ticket (codes "6.1") (codes "home-manager for the ops user")
      (codes "area:dev" ∷ codes "area:nix" ∷ [])
      (codes "A consistent shell on the server matching the workstation.")
      (codes
          "`home-manager` as a NixOS module for `ops`: zsh or bash, `starship`, `direnv`, `git` config, `tmux` (ported from the NAS repo), `eza`, `ripgrep`, `fd`, `htop`, `btop`"
        ∷ codes "Keep the same file usable on WSL via a `homeConfigurations` output (optional)"
        ∷ [])
      (codes "Login shell on nuc has the expected prompt and aliases"
        ∷ codes "`home-manager` generation listed in `nixos-rebuild` output"
        ∷ [])
      (codes "[1.8]")
    ∷ ticket (codes "6.2") (codes "Dev shells: shopify, python, scripting")
        (codes "area:dev" ∷ codes "area:nix" ∷ [])
        (codes "Reproducible toolchains for Shopify admin scripting without polluting the host.")
        (codes
            "`dev/shopify.nix`: Node LTS, `@shopify/cli` (via `nodePackages` or an npm wrapper), `jq`, `graphql` tooling"
          ∷ codes "`dev/python.nix`: Python 3.13, `uv`, `ruff`"
          ∷ codes "`dev/scripting.nix`: `just`, `httpie`, `yq`"
          ∷ codes
              "Expose as `devShells.{shopify,python,scripting}`; `.envrc` examples in `dev/README.md`"
          ∷ [])
        (codes "`nix develop .#shopify` on nuc gives a working `shopify version`"
          ∷ codes "Each shell enters in under 5 s once cached"
          ∷ [])
        (codes "[6.1]")
    ∷ ticket (codes "6.3") (codes "Shopify API tokens via sops in dev shells only")
        (codes "area:dev" ∷ codes "area:security" ∷ [])
        (codes
          "Tokens reach the shell environment from `/run/secrets`, never from the repo or a compose file.")
        (codes "`sops.secrets.shopify-admin-token` with `owner = ops`, mode 0400"
          ∷ codes
              "`shellHook` in the shopify dev shell exports `SHOPIFY_ADMIN_TOKEN=$(cat /run/secrets/shopify-admin-token)` when the file exists"
          ∷ codes "Add a pre-commit or CI grep for `shpat_` patterns as a safety net"
          ∷ [])
        (codes "Token available inside the shell, absent from `git log -p`"
          ∷ codes "CI fails on a deliberately committed fake token"
          ∷ [])
        (codes "[6.2], [1.7]")
    ∷ ticket (codes "6.4") (codes "VS Code Remote-SSH over Tailscale and nix-ld")
        (codes "area:dev" ∷ []) (codes "Edit and run on the server from the workstation.")
        (codes "`programs.nix-ld.enable` so the VS Code server binary runs"
          ∷ codes
              "SSH config entry `Host nuc` via the Tailscale name in `~/.ssh/config` on the workstation"
          ∷ codes "Open the repo on nuc in VS Code, confirm the Nix and direnv extensions work"
          ∷ [])
        (codes "Remote window opens, terminal has the dev shell via direnv" ∷ []) (codes "[6.2]")
    ∷ ticket (codes "6.5") (codes "Scheduled scripts as Nix-declared systemd timers")
        (codes "area:dev" ∷ codes "area:nix" ∷ codes "stretch" ∷ [])
        (codes "Run recurring Shopify jobs on the server with the same dev shell toolchain.")
        (codes
            "A `modules/services/jobs.nix` pattern: one systemd service plus timer per script, running as `ops`, env from sops"
          ∷ codes
              "Example: nightly hello job writing to `/srv/data/jobs/`; `OnFailure=` to the notifier"
          ∷ [])
        (codes "Timer runs on schedule, output visible in `journalctl -u job-hello`" ∷ [])
        (codes "[6.3], [2.5]")
    ∷ []
