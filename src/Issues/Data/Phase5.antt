-- ===== src/Issues/Data/Phase5.antt =====
-- The tickets of phase 5 in scripts/tickets.py.
use nixos_homeserver.Base.{List, [], ◌∷◌, codes}
use nixos_homeserver.Issues.Tickets.{Ticket}
use nixos_homeserver.Issues.Data.Body.{ticket}

unfoldable pub phase_5 : List Ticket
phase_5 =
    ticket (codes "5.1") (codes "Ollama stack on CPU") (codes "area:llm" ∷ [])
      (codes
        "An OpenAI-compatible local LLM API using the 96 GB RAM pool. Intel GPU comes later ([5.4]).")
      (codes
          "`stacks/ai/docker-compose.yml` with `ollama/ollama`, models on `/srv/data/ollama`, bound to the Tailscale IP on 11434"
        ∷ codes
            "Env: `OLLAMA_NUM_PARALLEL=1`, `OLLAMA_MAX_LOADED_MODELS=1`, `OLLAMA_KEEP_ALIVE=30m`; threads left default then tuned (4P+8E+4LPE, try 12)"
        ∷ codes
            "Pull a small model (e.g. 8B Q4) and one large (70B Q4) and record tokens/s for each"
        ∷ codes "`MemoryMax` about 60 GB, low `CPUWeight` per [4.5]"
        ∷ [])
      (codes "`curl http://nuc:11434/api/generate` over Tailscale returns text"
        ∷ codes "tokens/s recorded in `docs/llm-benchmarks.md` for two model sizes"
        ∷ [])
      (codes "[3.2], [3.3]")
    ∷ ticket (codes "5.2") (codes "Open WebUI behind Tailscale") (codes "area:llm" ∷ [])
        (codes "Chat UI for phone and laptop on the tailnet.")
        (codes
            "Add `ghcr.io/open-webui/open-webui` to the `ai` stack, `OLLAMA_BASE_URL` pointing at the ollama service, `WEBUI_SECRET_KEY` from sops"
          ∷ codes "Bind to the Tailscale IP only; enable auth, create the admin user on first login"
          ∷ codes "Data on `/srv/data/open-webui`, included in backups"
          ∷ [])
        (codes "Chat works from the phone over Tailscale"
          ∷ codes "Unreachable from LAN and WAN"
          ∷ [])
        (codes "[5.1]")
    ∷ ticket (codes "5.3") (codes "Model storage budget and NVMe planning")
        (codes "area:llm" ∷ codes "area:backup" ∷ [])
        (codes
          "1 TB is shared between games, models and the Nix store. Decide what is allowed to grow.")
        (codes
            "Set a model quota (e.g. 200 GB) via a btrfs qgroup on the ollama subvolume or a Prometheus alert on directory size"
          ∷ codes
              "Exclude `/srv/data/ollama/models/blobs` from restic (re-pullable); include the manifests"
          ∷ codes
              "Document candidates for the second M.2 slot (2 TB NVMe for `/srv/data`) and the migration steps"
          ∷ [])
        (codes "Alert fires when the quota is exceeded in a test"
          ∷ codes "Backup size drops after the exclusion"
          ∷ [])
        (codes "[5.1], [3.5], [3.6]")
    ∷ ticket (codes "5.4")
        (codes "Intel Xe3 iGPU acceleration trial (IPEX-LLM or llama.cpp SYCL/Vulkan)")
        (codes "area:llm" ∷ codes "stretch" ∷ [])
        (codes
          "Find out whether the Arc B390 iGPU beats CPU inference on this box. Known blocker: Level Zero init crashes on Panther Lake (intel/compute-runtime issues 918 and 920); check status first.")
        (codes
            "`hardware.graphics.enable` with `intel-compute-runtime`, `level-zero`, `intel-media-driver`; confirm `clinfo` and `sycl-ls` see the GPU"
          ∷ codes
              "Pass `/dev/dri` into a trial container: IPEX-LLM Ollama image, or upstream Ollama/llama.cpp built with SYCL or Vulkan"
          ∷ codes
              "Benchmark the same two models as [5.1]; record tokens/s, first-load compile time, and stability over an hour"
          ∷ codes
              "Go/no-go: promote to the `ai` stack or close with findings in `docs/llm-benchmarks.md`"
          ∷ [])
        (codes "Benchmark table with CPU vs GPU numbers" ∷ codes "Decision recorded" ∷ [])
        (codes "[5.1]")
    ∷ ticket (codes "5.5") (codes "Intel NPU trial") (codes "area:llm" ∷ codes "stretch" ∷ [])
        (codes
          "Check whether the NPU is usable from NixOS for anything practical (OpenVINO, small models, Whisper).")
        (codes
            "Check `intel-npu-driver` and `openvino` availability in nixpkgs 26.05 and whether `/dev/accel/accel0` appears with the latest kernel"
          ∷ codes "Run one OpenVINO sample on the NPU if the stack loads"
          ∷ codes "Record go/no-go in `docs/llm-benchmarks.md`"
          ∷ [])
        (codes "A one-paragraph finding, positive or negative" ∷ []) (codes "[5.4]")
    ∷ []
