-- ===== src/Issues/Data/Phase0.antt =====
-- The tickets of phase 0 in scripts/tickets.py.
use nixos_homeserver.Base.{List, [], ◌∷◌, codes}
use nixos_homeserver.Issues.Tickets.{Ticket}
use nixos_homeserver.Issues.Data.Body.{ticket}

unfoldable pub phase_0 : List Ticket
phase_0 =
    ticket (codes "0.1") (codes "Install Nix and direnv on the WSL workstation")
      (codes "area:nix" ∷ [])
      (codes
        "Get a flakes-enabled Nix on the Ubuntu 24.04 WSL workstation so every later ticket can be built and checked locally before it reaches the server.")
      (codes "Install Nix with the Determinate installer (flakes and nix-command on by default)"
        ∷ codes "Install `direnv` and `nix-direnv`, hook into the shell"
        ∷ codes "Confirm `nix.conf` has `experimental-features = nix-command flakes`"
        ∷ codes "Record the install method and any WSL quirks in `docs/runbooks/workstation.md`"
        ∷ [])
      (codes "`nix flake --version` prints a version"
        ∷ codes "`nix run nixpkgs#hello` prints Hello, world!"
        ∷ codes "A test `.envrc` with `use flake` loads via direnv"
        ∷ [])
      (codes "Nothing.")
    ∷ ticket (codes "0.2")
        (codes "Repo hygiene: gitignore, editorconfig, CODEOWNERS, issue templates")
        (codes "area:docs" ∷ [])
        (codes
          "Make the public repo tidy and consistent before code lands. (Repo, README, license and PLAN.md already exist.)")
        (codes "Add `.gitignore` (result symlinks, `.direnv/`, `*.qcow2`, `.pre-commit-cache`)"
          ∷ codes "Add `.editorconfig` (2-space nix/yaml, LF, trailing newline)"
          ∷ codes
              "Add `.github/ISSUE_TEMPLATE/ticket.md` matching the Goal/Tasks/AC/Depends-on layout used here"
          ∷ codes
              "Add `.github/pull_request_template.md` with a checklist: `nix flake check` passed locally, ADR updated if a decision changed"
          ∷ [])
        (codes "All four files on `main`"
          ∷ codes "Opening a new issue offers the ticket template"
          ∷ [])
        (codes "Nothing.")
    ∷ ticket (codes "0.3") (codes "Flake skeleton with a stub nixosConfigurations.nuc")
        (codes "area:nix" ∷ [])
        (codes
          "Create the flake that everything else hangs off, with a system that evaluates and builds even before hardware exists.")
        (codes
            "`flake.nix` with inputs: `nixpkgs` (nixos-26.05), `disko`, `sops-nix`, `home-manager` (release-26.05), `comin`"
          ∷ codes
              "`hosts/nuc/default.nix` importing `modules/base`, with a placeholder `hardware-configuration.nix` and `fileSystems` so the closure builds"
          ∷ codes
              "`modules/base/default.nix` for shared policy only. Host identity (`networking.hostName`, `system.stateVersion`, `nixpkgs.hostPlatform`) belongs in `hosts/nuc/`: two modules defining one option is an evaluation conflict, so a shared module must not claim per-host values"
          ∷ codes
              "`formatter` = nixfmt (or alejandra) and a `checks` output that builds the toplevel"
          ∷ codes "`flake.lock` committed"
          ∷ [])
        (codes "`nix flake check` passes locally"
          ∷ codes "`nix build .#nixosConfigurations.nuc.config.system.build.toplevel` succeeds"
          ∷ [])
        (codes "[0.1]")
    ∷ ticket (codes "0.4") (codes "GitHub Actions CI: flake check, build closure, format check")
        (codes "area:ci" ∷ [])
        (codes
          "Every pull request and push to `main` is validated on GitHub-hosted runners so `main` is always deployable.")
        (codes "`.github/workflows/ci.yml` triggered on `pull_request` and `push` to `main`"
          ∷ codes
              "Use `DeterminateSystems/nix-installer-action` and `DeterminateSystems/magic-nix-cache-action`"
          ∷ codes
              "Steps: call `just check` from the flake's devShell, which runs `nix flake check`, builds the closure, and runs `nix fmt -- --ci`. Keep the workflow calling the target rather than restating the commands, so the two cannot drift"
          ∷ codes "Add a status badge to README"
          ∷ codes "Enable branch protection on `main`: require the CI check, no force pushes"
          ∷ [])
        (codes "A pull request shows a green CI check"
          ∷ codes "A pull request with a syntax error in a `.nix` file shows red"
          ∷ [])
        (codes "[0.3]")
    ∷ ticket (codes "0.5") (codes "Secrets bootstrap with sops-nix and age")
        (codes "area:security" ∷ codes "area:nix" ∷ [])
        (codes
          "Establish encrypted secrets in the public repo before any real secret is needed. See ADR 0004.")
        (codes
            "Generate a workstation age key (`age-keygen`), store at `~/.config/sops/age/keys.txt`, back it up to the NAS"
          ∷ codes "Create `.sops.yaml` with the workstation key and a placeholder host key entry"
          ∷ codes "Add `secrets/test.yaml` containing one dummy secret, encrypted"
          ∷ codes
              "Wire `sops-nix` into `modules/base` with `sops.defaultSopsFile` and `sops.secrets.test`"
          ∷ codes
              "Confirm decryption in a local NixOS VM (`nixos-rebuild build-vm`) using the workstation key"
          ∷ [])
        (codes "`sops -d secrets/test.yaml` prints plaintext on the workstation"
          ∷ codes "Inside the VM, `/run/secrets/test` has the expected content"
          ∷ codes "`git log -p` and a secret scan show only ciphertext"
          ∷ [])
        (codes "[0.3]")
    ∷ ticket (codes "0.6") (codes "Architecture decision records for the six locked decisions")
        (codes "area:docs" ∷ [])
        (codes
          "ADRs 0001 to 0005 already exist. Review them and add ADR 0006 for the container runtime choice.")
        (codes "Re-read ADRs 0001-0005, fix anything that no longer matches the plan"
          ∷ codes
              "Write `docs/adr/0006-docker-vs-podman.md`: Docker (default) vs Podman with docker compat. Decide before [3.1]"
          ∷ codes "Add `docs/adr/README.md` index with a one-line summary per ADR"
          ∷ [])
        (codes "Six ADRs, each with Context, Decision, Consequences"
          ∷ codes "Index lists all six"
          ∷ [])
        (codes "Nothing.")
    ∷ ticket (codes "0.7") (codes "Task runner: just targets for fmt, check, build, vm, deploy")
        (codes "area:nix" ∷ [])
        (codes
          "Give the repo the same one-word ergonomics the NAS project had with `pixi run`, using `just` inside a dev shell.")
        (codes
            "Add `devShells.default` with `just`, `sops`, `age`, `nixfmt`, `nixos-anywhere`, `nixos-rebuild`"
          ∷ codes
              "`justfile` targets: `fmt`, `check`, `build`, `vm` (builds and runs a QEMU VM of `nuc`), `deploy` (manual `nixos-rebuild switch --flake .#nuc --target-host ops@nuc --elevate sudo`; nixos-rebuild-ng replaced --use-remote-sudo with --elevate), `secrets-edit <file>`"
          ∷ codes "`.envrc` with `use flake` so the dev shell loads automatically"
          ∷ codes "Document the targets in README"
          ∷ [])
        (codes "`just vm` boots the config and reaches a login prompt"
          ∷ codes "`just check` equals what CI runs"
          ∷ [])
        (codes "[0.3], [0.5]")
    ∷ []
