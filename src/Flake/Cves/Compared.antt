-- ===== src/Flake/Cves/Compared.antt =====
-- What `cve_diff` of scripts/flake_update.py writes of two scans, described package by package.
use nixos_homeserver.Base.{
  ℕ, Bool, true, false, not, ◌&&◌, some, List, [], ◌∷◌, ◌++◌, if◌then◌else◌, ◌==◌, ==_iff, ==_of_ne,
  nat_eq, list_eq, contains, Text, codes, show, join, ◌≡◌, refl, sym, ap, ◌∙◌, arith, inl, inr,
  Bool-cases,
}
use nixos_homeserver.Base.Lists.{All, length, select, difference, contains-select}
use nixos_homeserver.Base.Sort.{sorted, leb_text, All-sorted, sorted-eq-nil, length-sorted}
use nixos_homeserver.Flake.Cves.{Packages, ids_of, only_in, package_lines, section_lines, cve_diff}
use nixos_homeserver.Flake.Cves.Ids.{reported, contains-ids_of, contains-only_in}

-- The packages in order, each with those of its ids that the other scan does not report, if there are any
abbrev pub lines_of : Packages → List (Text × List Text) → List Text
lines_of other [] = []
lines_of other ((pkg, ids) ∷ rest) =
    let hit = sorted leb_text (select (λ id. not (reported other id)) ids) in
    let lines = lines_of other rest in
    if hit == []
    then lines
    else (codes "- `" ++ pkg ++ codes "`: " ++ join (codes ", ") hit) ∷ lines

by_name : Packages → List (Text × List Text)
by_name scan = sorted (λ a b. leb_text a.0 b.0) scan

-- A title and these lines, or nothing
abbrev pub section : Text → Packages → Packages → List Text
unfolding by_name
section title scan other =
    let lines = lines_of other (by_name scan) in
    if lines == [] then [] else (codes "**" ++ title ++ codes ":**") ∷ [] ∷ (lines ++ [] ∷ [])

-- How many different ids a scan has that the other does not report
abbrev pub count_of : Packages → Packages → ℕ
count_of scan other = length (select (λ id. not (reported other id)) (ids_of scan))

-- All ids of a package are ids of this scan.
abbrev Has : (Text → Bool) → Text × List Text → Type 0
Has test p = (id : Text) → contains p.1 id ≡ true → test id ≡ true

later :
    (scan : Packages) (p : Text × List Text) (ps : List (Text × List Text))
    → All (Has (reported scan)) ps
    → All (Has (reported (p ∷ scan))) ps
later scan p [] h = tt
later scan p (q ∷ ps) (k, h) = ((λ id e. ground (arith, k id e)), later scan p ps h)

own_packages : (scan : Packages) → All (Has (reported scan)) scan
own_packages [] = tt
own_packages (p ∷ scan) = ((λ id e. ground arith), later scan p scan (own_packages scan))

select-same :
    (f g : Text → Bool) (xs : List Text)
    → ((x : Text) → contains xs x ≡ true → f x ≡ g x)
    → select f xs ≡ select g xs
unfolding select
select-same f g [] h = refl
select-same f g (x ∷ xs) h =
    let here : f x ≡ g x = h x (ground arith) in
    let there : select f xs ≡ select g xs = select-same f g xs (λ y e. h y (ground arith)) in
    rw (here, there) refl

same_tests : (a b : Bool) → a ≡ true → (a && not b) ≡ not b
same_tests a b h = ground arith

package_lines-lines_of :
    (scan other : Packages) (rest : List (Text × List Text))
    → All (Has (reported scan)) rest
    → package_lines (only_in scan other) scan rest ≡ lines_of other rest
unfolding package_lines
package_lines-lines_of scan other [] h = refl
package_lines-lines_of scan other ((pkg, ids) ∷ rest) (k, h) =
    let hit =
      select-same (contains (only_in scan other)) (λ id. not (reported other id)) ids
        (λ id e. contains-only_in scan other id ∙ same_tests _ _ (k id e)) in
    rw (hit, package_lines-lines_of scan other rest h) refl

none_left :
    (other : Packages) (ids : List Text)
    → select (λ id. not (reported other id)) ids ≡ []
    → (id : Text) → contains ids id ≡ true
    → reported other id ≡ true
none_left other ids h id e =
    let empty : contains (select (λ i. not (reported other i)) ids) id ≡ false =
      ap (λ l. contains l id) h in
    let same = contains-select (λ i. not (reported other i)) ids id in
    ground (arith, empty, same, e)

-- If no line is written, then the other scan reports every id.
lines_of-nil :
    (other : Packages) (rest : List (Text × List Text))
    → lines_of other rest ≡ []
    → All (Has (reported other)) rest
lines_of-nil other [] h = tt
lines_of-nil other ((pkg, ids) ∷ rest) h =
    let hit = sorted leb_text (select (λ id. not (reported other id)) ids) in
    elim (Bool-cases (hit == [])) [
      | inl nothing ↦ (
        none_left other ids ((sorted-eq-nil leb_text _).0 ((==_iff hit []).0 nothing)),
        lines_of-nil other rest (rw (nothing, lines_of) at h),
      )
      | inr some_left ↦ absurd (not_empty (rw (some_left, lines_of) at h))
    ]
  where
    not_empty : {x : Text} {xs : List Text} → x ∷ xs ≡ [] → ⊥
    not_empty e = cc

reported_of_Has :
    (test : Text → Bool) (scan : Packages)
    → All (Has test) scan
    → (id : Text) → reported scan id ≡ true
    → test id ≡ true
reported_of_Has test [] h id e = cc
reported_of_Has test (p ∷ scan) (k, h) id e = elim (Bool-cases (contains p.1 id)) [
  | inl here ↦ k id here
  | inr elsewhere ↦ reported_of_Has test scan h id (ground arith)
]

-- No id is left of a scan exactly when no line is written.
only_in-nil : (scan other : Packages) → lines_of other (by_name scan) ≡ [] → only_in scan other ≡ []
unfolding by_name
only_in-nil scan other h =
    empty (only_in scan other) (λ id e. no_id id (ground (arith, contains-only_in scan other id)))
  where
    no_id : (id : Text) → (reported scan id && not (reported other id)) ≡ true → ⊥
    no_id id e =
        let gone =
          reported_of_Has (reported other) scan
            ((All-sorted _ (Has (reported other)) scan).0 (lines_of-nil other _ h)) id
            (ground arith) in
        ground (arith, gone, e)

    empty : (ids : List Text) → ((id : Text) → contains ids id ≡ true → ⊥) → ids ≡ []
    empty [] k = refl
    empty (x ∷ ids) k = absurd (k x (ground arith))

package_lines-nil :
    (scan : Packages) (rest : List (Text × List Text)) → package_lines [] scan rest ≡ []
unfolding package_lines select list_eq sorted
package_lines-nil scan [] = refl
package_lines-nil scan ((pkg, ids) ∷ rest) = rw (nothing ids, package_lines-nil scan rest) refl
  where
    nothing : (ids : List Text) → select (contains []) ids ≡ []
    nothing [] = refl
    nothing (x ∷ ids) = nothing ids

section_lines-section :
    (title : Text) (scan other : Packages)
    → section_lines title (only_in scan other) scan ≡ section title scan other
unfolding section_lines by_name list_eq
section_lines-section title scan other =
    let same =
      package_lines-lines_of scan other (by_name scan)
        ((All-sorted _ (Has (reported scan)) scan).1 (own_packages scan)) in
    elim (Bool-cases (only_in scan other == [])) [
      | inl nothing ↦
          let ids : only_in scan other ≡ [] = (==_iff (only_in scan other) []).0 nothing in
          let lines : lines_of other (by_name scan) ≡ [] =
            sym same
            ∙ ap (λ i. package_lines i scan (by_name scan)) ids
            ∙ package_lines-nil scan (by_name scan) in
          rw (nothing, lines) refl
      | inr left ↦
          let lines : (lines_of other (by_name scan) == []) ≡ false =
            ==_of_ne (λ e. is_left (only_in-nil scan other e) left) in
          rw (left, lines)
            (ap (λ l. (codes "**" ++ title ++ codes ":**") ∷ [] ∷ (l ++ [] ∷ [])) same)
    ]
  where
    is_left : {ids : List Text} → ids ≡ [] → (ids == []) ≡ false → ⊥
    is_left e h = ground arith

length-only_in : (scan other : Packages) → length (only_in scan other) ≡ count_of scan other
unfolding only_in difference
length-only_in scan other =
    length-sorted leb_text _
    ∙ ap length (
        select-same _ (λ id. not (reported other id)) (ids_of scan)
          (λ id e. tested (contains-ids_of other id)))
  where
    tested : {a b : Bool} → a ≡ b → (if a then false else true) ≡ not b
    tested h = ground arith

-- The report on two scans starts with how many ids each has and how many of them the other one has not. Then,
-- for the newly reported ids and for those no longer reported, it has the packages of the scan in the order of
-- their names, each with those of its ids that the other scan does not report, if there are any, under a title
-- if there is one such package.
pub cve_diff-section :
    (old new : Packages)
    → cve_diff (some old) (some new)
      ≡ (show (length (ids_of old))
          ++ codes " CVE ids before, "
          ++ show (length (ids_of new))
          ++ codes " after: "
          ++ show (count_of old new)
          ++ codes " no longer reported, "
          ++ show (count_of new old)
          ++ codes " newly reported.")
        ∷ []
        ∷ (section (codes "Newly reported") new old ++ section (codes "No longer reported") old new)
unfolding cve_diff
cve_diff-section old new =
    rw
      (
        sym (length-only_in old new),
        sym (length-only_in new old),
        sym (section_lines-section (codes "Newly reported") new old),
        sym (section_lines-section (codes "No longer reported") old new),
      )
      refl
