-- ===== src/Flake/Cves/Ids.antt =====
-- The ids of a scan, of which `cve_diff` of scripts/flake_update.py makes sets.
use nixos_homeserver.Base.{
  Bool, not, ◌&&◌, [], ◌∷◌, nat_eq, list_eq, contains, Text, ◌≡◌, refl, ◌∙◌, arith,
}
use nixos_homeserver.Base.Lists.{any, difference, contains-append, contains-difference}
use nixos_homeserver.Base.Sort.{leb_text, contains-sorted, contains-to_set}
use nixos_homeserver.Flake.Cves.{Packages, all_ids, ids_of, only_in}

-- A package of the scan has the id.
abbrev pub reported : Packages → Text → Bool
reported packages id = any (λ p. contains p.1 id) packages

contains-all_ids :
    (packages : Packages) (id : Text) → contains (all_ids packages) id ≡ reported packages id
unfolding all_ids
contains-all_ids [] id = refl
contains-all_ids ((name, ids) ∷ packages) id =
    ground (arith, contains-append ids (all_ids packages) id, contains-all_ids packages id)

pub contains-ids_of :
    (packages : Packages) (id : Text) → contains (ids_of packages) id ≡ reported packages id
unfolding ids_of
contains-ids_of packages id = contains-to_set (all_ids packages) id ∙ contains-all_ids packages id

-- An id is among those that only one of two scans has exactly when a package of that scan has it and no
-- package of the other one does.
pub contains-only_in :
    (scan other : Packages) (id : Text)
    → contains (only_in scan other) id ≡ (reported scan id && not (reported other id))
unfolding only_in
contains-only_in scan other id = ground (
  arith,
  contains-sorted leb_text (difference (ids_of scan) (ids_of other)) id,
  contains-difference (ids_of scan) (ids_of other) id,
  contains-ids_of scan id,
  contains-ids_of other id,
)
