-- ===== src/Flake/Cves/Retried.antt =====
-- Which attempt `vulnix` of scripts/flake_update.py returns, and how long it waits between attempts.
use nixos_homeserver.Base.{
  ℕ, zero, suc, ◌+◌, ◌≤◌, ◌<◌, Option, none, some, nat_eq, Text, Result, ok, >>=-eq-ok,
  ok-injective, ◌≡◌, subst, ap, ◌∙◌, inl, inr, arith, Option-cases,
}
use nixos_homeserver.Base.Value.{Value}
use nixos_homeserver.Flake.Cves.{Packages, Scan, vulnix_once, Tries, vulnix_from, vulnix}

module _ (loads : Text → Result Value) (scans : ℕ → Scan) where
  -- The attempt `n` failed.
  pub Failed : ℕ → Type 0
  Failed n = vulnix_once loads (scans n) ≡ ok none

  -- What `vulnix_from` returns: the first result, after failures only, or nothing after failures of all
  pub FirstFrom : ℕ → ℕ → Option Packages → Type 0
  unfolding Failed
  FirstFrom attempt left none = (n : ℕ) → attempt ≤ n → n < attempt + left → Failed n
  FirstFrom attempt left (some packages) =
      (k : ℕ) × (attempt ≤ k)
      × (k < attempt + left)
      × (vulnix_once loads (scans k) ≡ ok (some packages))
      × ((n : ℕ) → attempt ≤ n → n < k → Failed n)

  FirstFrom-later :
      (attempt left : ℕ) (found : Option Packages)
      → Failed attempt
      → FirstFrom (suc attempt) left found
      → FirstFrom attempt (suc left) found
  unfolding FirstFrom Failed
  FirstFrom-later attempt left none fails h = λ n low high. elim (nat_eq.dec attempt n) [
    | yes e ↦ subst Failed e fails
    | no other ↦ h n (ground arith) (ground arith)
  ]
  FirstFrom-later attempt left (some packages) fails (k, low, high, is, before) = (
    k,
    ground arith,
    ground arith,
    is,
    λ n m l. elim (nat_eq.dec attempt n) [
      | yes e ↦ subst Failed e fails
      | no other ↦ before n (ground arith) l
    ],
  )

  none_yet : (attempt : ℕ) → FirstFrom attempt zero none
  unfolding FirstFrom Failed
  none_yet attempt n low high = absurd (ground arith)

  at_once :
      (attempt left : ℕ) (packages : Packages)
      → vulnix_once loads (scans attempt) ≡ ok (some packages)
      → FirstFrom attempt (suc left) (some packages)
  unfolding FirstFrom Failed
  at_once attempt left packages is =
      (attempt, ground arith, ground arith, is, λ n low high. absurd (ground arith))

  vulnix_from-FirstFrom :
      (attempt left : ℕ) {tries : Tries}
      → vulnix_from loads scans attempt left ≡ ok tries
      → FirstFrom attempt left tries.found
  unfolding vulnix_from Failed
  vulnix_from-FirstFrom attempt zero h =
      subst (FirstFrom attempt zero) (ap (λ t. t.found) (ok-injective h)) (none_yet attempt)
  vulnix_from-FirstFrom attempt (suc left) h =
      let (result, p, h₁) = >>=-eq-ok (vulnix_once loads (scans attempt)) _ h in
      elim (Option-cases result) [
        | inr (packages, e) ↦
            subst (FirstFrom attempt (suc left)) (ap (λ t. t.found) (ok-injective (rw e at h₁)))
              (at_once attempt left packages (p ∙ ap ok e))
        | inl e ↦
            let (later, q, h₂) =
              >>=-eq-ok (vulnix_from loads scans (suc attempt) left) _ (rw e at h₁) in
            subst (FirstFrom attempt (suc left)) (ap (λ t. t.found) (ok-injective h₂)) (
              FirstFrom-later attempt left later.found (p ∙ ap ok e)
                (vulnix_from-FirstFrom (suc attempt) left q))
      ]

  -- `vulnix` returns what the first attempt that gives a result gives, and None only if all of them fail.
  pub vulnix-FirstFrom :
      (attempts : ℕ) {tries : Tries}
      → vulnix loads scans attempts ≡ ok tries
      → FirstFrom 1 attempts tries.found
  unfolding vulnix
  vulnix-FirstFrom attempts h = vulnix_from-FirstFrom 1 attempts h
