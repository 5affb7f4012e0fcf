-- ===== src/Issues/Data/Phase8.antt =====
-- The tickets of phase 8 in scripts/tickets.py.
use nixos_homeserver.Base.{List, [], ◌∷◌, codes}
use nixos_homeserver.Issues.Tickets.{Ticket}
use nixos_homeserver.Issues.Data.Body.{ticket}

unfoldable pub phase_8 : List Ticket
phase_8 =
    ticket (codes "8.1") (codes "ADR: K3s versus staying on compose")
      (codes "area:docs" ∷ codes "stretch" ∷ []) (codes "Decide with evidence, not enthusiasm.")
      (codes
          "`docs/adr/0008-k3s.md`: what K3s would add on one node, what it costs (RAM, complexity, learning), and the trigger conditions that would justify it (second node, need for rolling updates, portfolio value)"
        ∷ [])
      (codes "ADR written with an explicit decision" ∷ []) (codes "[7.5]")
    ∷ ticket (codes "8.2") (codes "Single-node K3s alongside Docker with Flux pointed at this repo")
        (codes "area:containers" ∷ codes "stretch" ∷ []) (codes "Only if [8.1] says go.")
        (codes
            "`services.k3s` with `--docker` or containerd; decide whether it coexists with the Docker stacks"
          ∷ codes "Flux or Argo CD bootstrapped from a `k8s/` directory in this repo"
          ∷ codes "Resource reservation so K3s components stay under 2 GB"
          ∷ [])
        (codes "`kubectl get nodes` Ready"
          ∷ codes "Flux reconciles a hello deployment from the repo"
          ∷ [])
        (codes "[8.1]")
    ∷ ticket (codes "8.3") (codes "Migrate the observability stack to Helm")
        (codes "area:containers" ∷ codes "area:observability" ∷ codes "stretch" ∷ [])
        (codes "Lowest-risk stack to move first.")
        (codes
            "kube-prometheus-stack via Helm through Flux; keep node-exporter as the NixOS service"
          ∷ codes "Compare: lines of config, upgrade steps, memory, time to change a dashboard"
          ∷ [])
        (codes "Comparison table in the ADR" ∷ []) (codes "[8.2]")
    ∷ ticket (codes "8.4") (codes "Decide: migrate games and LLM, or stop")
        (codes "area:docs" ∷ codes "stretch" ∷ []) (codes "Close the loop.")
        (codes "Update ADR 0008 with the outcome of [8.3] and the decision for the remaining stacks"
          ∷ [])
        (codes "Decision recorded; either a migration plan or K3s removed" ∷ []) (codes "[8.3]")
    ∷ []
