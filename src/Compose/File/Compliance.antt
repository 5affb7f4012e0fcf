-- ===== src/Compose/File/Compliance.antt =====
-- What `check_file` demands of a whole compose file, without its loops, and that it finds no
-- problem exactly when these demands are met.
use nixos_homeserver.Base.{
  Bool, true, false, not, List, [], ◌∷◌, map, ◌≡◌, ◌↔◌, refl, sym, ap, ◌∙◌, arith, nat_eq, list_eq,
  int_eq, pair_eq, contains, Text, codes, ℤ, ok, >>=-eq-ok, ok-injective, for_each,
}
use nixos_homeserver.Base.Lists.{
  All, All_at, All-from, append-eq-nil, select-eq-nil, select-nil_of_All, same_set_at,
  same_set_from,
}
use nixos_homeserver.Base.Dict.{Dict, keys}
use nixos_homeserver.Base.Sort.{leb_pair, to_set, contains-to_set, sorted-eq-nil}
use nixos_homeserver.Base.Value.{Value, or_else, or_null, get}
use nixos_homeserver.Compose.Problem.{Stack}
use nixos_homeserver.Compose.PortRules.{collect}
use nixos_homeserver.Compose.PortRules.Collect.{
  Clean, collect-Clean, Clean-collect, public-collect, all_public,
}
use nixos_homeserver.Compose.File.{
  empty_dict, listed_dict, check_service, services_problems, is_public, unused_problem,
  unused_problems, is_in, host_binding, check_network, check_doc,
}
use nixos_homeserver.Compose.File.Services.{
  check_service-ServiceOk, ServiceOk-check_service, public-check_service,
}
use nixos_homeserver.Compose.File.Demands.{ServiceOk, NetworkOk, opened}

-- The services are those that the stack declares, each service and network is acceptable, and each
-- declared port is opened by some service.
abbrev pub DocOk : Stack → Value → Type 0
DocOk stack written =
    let doc = or_else written empty_dict in
    (services : Dict Text Value) × (networks : Dict Text Value) × (listed_dict doc
        (codes "services")
      ≡ ok services)
    × ((n : Text) → contains (keys services) n ≡ contains stack.services n)
    × All (λ s. ServiceOk stack s.1) services
    × (listed_dict doc (codes "networks") ≡ ok networks)
    × All (λ s. NetworkOk s.1) networks
    × ((d : ℤ × Text) → contains stack.public_ports d ≡ true → is_public (opened services) d ≡ true)

module _ (s : Text × Value) where
  check_network-NetworkOk : check_network s ≡ ok [] → NetworkOk s.1
  unfolding check_network
  check_network-NetworkOk h =
      let (options, p, h₁) = >>=-eq-ok (get (or_else s.1 empty_dict) (codes "driver_opts")) _ h in
      let (binds, q, h₂) =
        >>=-eq-ok (is_in host_binding (or_else (or_null options) empty_dict)) _ h₁ in
      (options, p, unfold host_binding in q ∙ ap ok (ground arith))

  NetworkOk-check_network : NetworkOk s.1 → check_network s ≡ ok []
  unfolding check_network host_binding
  NetworkOk-check_network (options, p, q) = rw (p, q)

check_networks-All :
    (ns : Dict Text Value) → for_each check_network ns ≡ ok [] → All (λ s. NetworkOk s.1) ns
unfolding for_each
check_networks-All [] h = tt
check_networks-All (n ∷ ns) h =
    let (here, p, h₁) = >>=-eq-ok (check_network n) _ h in
    let (rest, q, h₂) = >>=-eq-ok (for_each check_network ns) _ h₁ in
    let (e, e') = append-eq-nil here rest (ok-injective h₂) in
    (check_network-NetworkOk n (p ∙ ap ok e), check_networks-All ns (q ∙ ap ok e'))

All-check_networks :
    (ns : Dict Text Value) → All (λ s. NetworkOk s.1) ns → for_each check_network ns ≡ ok []
unfolding for_each
All-check_networks [] h = refl
All-check_networks (n ∷ ns) (p, h) = rw (NetworkOk-check_network n p, All-check_networks ns h)

map-eq-nil {ℓ κ} : {A : Type ℓ} {B : Type κ} (f : A → B) (xs : List A) → map f xs ≡ [] → xs ≡ []
map-eq-nil f [] h = refl
map-eq-nil f (x ∷ xs) h = cc

module _ (name : Text) (stack : Stack) where
  All-services :
      (services : Dict Text Value)
      → All (λ s. ServiceOk stack s.1) services
      → All (Clean (check_service name stack)) services
  All-services [] h = tt
  All-services (s ∷ services) (p, h) =
      (ServiceOk-check_service name stack s p, All-services services h)

  services_All :
      (services : Dict Text Value)
      → All (Clean (check_service name stack)) services
      → All (λ s. ServiceOk stack s.1) services
  services_All [] h = tt
  services_All (s ∷ services) (p, h) =
      (check_service-ServiceOk name stack s p, services_All services h)

  all_public-opened :
      (services : Dict Text Value)
      → All (Clean (check_service name stack)) services
      → all_public (check_service name stack) services ≡ opened services
  all_public-opened [] h = refl
  all_public-opened ((n, written) ∷ services) ((g, p, e), h) =
      rw (p, public-check_service name stack (n, written) g p e, all_public-opened services h)

  services_problems-eq-nil :
      (services : List Text)
      → (services_problems name stack services ≡ [])
        ↔ ((n : Text) → contains services n ≡ contains stack.services n)
  unfolding services_problems
  services_problems-eq-nil services = (
    λ h n. same_set_at services stack.services n (ground arith),
    λ h. rw (same_set_from services stack.services h),
  )

  unused_problems-eq-nil :
      (public : List (ℤ × Value))
      → (unused_problems name stack public ≡ [])
        ↔ ((d : ℤ × Text) → contains stack.public_ports d ≡ true → is_public public d ≡ true)
  unfolding unused_problems
  unused_problems-eq-nil public = (
    λ h d declared. not_false (
        All_at (λ d. not (is_public public d) ≡ false) (to_set stack.public_ports) d
          (select-eq-nil _ (to_set stack.public_ports)
            ((sorted-eq-nil leb_pair _).0 (map-eq-nil _ _ h)))
          (contains-to_set stack.public_ports d ∙ declared)),
    λ h. ap (map (unused_problem name stack)) (
        (sorted-eq-nil leb_pair _).1 (
          select-nil_of_All _ (to_set stack.public_ports) (
            All-from (λ d. not (is_public public d) ≡ false) (to_set stack.public_ports)
              (λ d m. ap not (h d (sym (contains-to_set stack.public_ports d) ∙ m)))))),
  )
    where
      not_false : {b : Bool} → not b ≡ false → b ≡ true
      not_false {b = true} e = refl
      not_false {b = false} e = cc

  -- `check_file` finds no problem in a document exactly when it meets `DocOk`. In particular it
  -- ends without an exception then.
  pub check_doc-DocOk :
      (written : Value) → (check_doc name stack written ≡ ok []) ↔ DocOk stack written
  unfolding check_doc
  check_doc-DocOk written = (forth, back)
    where
      doc : Value
      doc = or_else written empty_dict

      forth : check_doc name stack written ≡ ok [] → DocOk stack written
      forth h =
          let (services, p, h₁) = >>=-eq-ok (listed_dict doc (codes "services")) _ h in
          let (found, r, h₂) = >>=-eq-ok (collect (check_service name stack) services) _ h₁ in
          let (networks, q, h₃) = >>=-eq-ok (listed_dict doc (codes "networks")) _ h₂ in
          let (bindings, t, h₄) = >>=-eq-ok (for_each check_network networks) _ h₃ in
          let (names, e₁) =
            append-eq-nil (services_problems name stack (keys services)) _ (ok-injective h₄) in
          let (none_found, e₂) = append-eq-nil found.problems _ e₁ in
          let (none_bound, e₃) =
            append-eq-nil bindings (unused_problems name stack found.public) e₂ in
          let clean = collect-Clean (check_service name stack) services found r none_found in
          (
            services,
            networks,
            p,
            (services_problems-eq-nil (keys services)).0 names,
            services_All services clean,
            q,
            check_networks-All networks (t ∙ ap ok none_bound),
            λ d declared.
                rw
                  (
                    ← all_public-opened services clean,
                    ← public-collect (check_service name stack) services found r,
                  )
                  ((unused_problems-eq-nil found.public).0 e₃ d declared),
          )

      back : DocOk stack written → check_doc name stack written ≡ ok []
      back (services, networks, p, names, services_ok, q, networks_ok, used) =
          let (found, r, none_found) =
            Clean-collect (check_service name stack) services (All-services services services_ok) in
          rw
            (
              p,
              r,
              q,
              All-check_networks networks networks_ok,
              none_found,
              (services_problems-eq-nil (keys services)).1 names,
            )
            (ap ok (
              (unused_problems-eq-nil found.public).1 λ d declared.
                rw
                  (
                    public-collect (check_service name stack) services found r,
                    all_public-opened services (All-services services services_ok),
                  )
                  (used d declared)))
