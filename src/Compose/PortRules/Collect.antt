-- ===== src/Compose/PortRules/Collect.antt =====
-- What a loop of `check_file` finds, from what its rounds find.
use nixos_homeserver.Base.{List, [], ◌∷◌, ◌++◌, ◌≡◌, refl, ℤ, Result, ok, err, >>=-eq-ok, arith}
use nixos_homeserver.Base.Lists.{All, append-eq-nil}
use nixos_homeserver.Base.Value.{Value}
use nixos_homeserver.Compose.PortRules.{Findings, nothing, both, collect}

module _ {ℓ} {A : Type ℓ} (f : A → Result Findings) where
  -- A round that ends without an exception and finds no problem.
  abbrev pub Clean : A → Type 0
  Clean x = (g : Findings) × (f x ≡ ok g) × (g.problems ≡ [])

  abbrev pub public_of : Result Findings → List (ℤ × Value)
  public_of (ok g) = g.public
  public_of (err e) = []

  -- The public ports that the rounds add.
  abbrev pub all_public : List A → List (ℤ × Value)
  all_public [] = []
  all_public (x ∷ xs) = public_of (f x) ++ all_public xs

  pub collect-Clean :
      (xs : List A) (r : Findings) → collect f xs ≡ ok r → r.problems ≡ [] → All Clean xs
  unfolding collect
  collect-Clean [] r h e = tt
  collect-Clean (x ∷ xs) r h e =
      let (here, p, h') = >>=-eq-ok (f x) _ h in
      let (rest, q, h'') = >>=-eq-ok (collect f xs) _ h' in
      let joined : here.problems ++ rest.problems ≡ [] = ground arith in
      let (none_here, none_rest) = append-eq-nil here.problems rest.problems joined in
      ((here, p, none_here), collect-Clean xs rest q none_rest)

  pub Clean-collect :
      (xs : List A) → All Clean xs → (r : Findings) × (collect f xs ≡ ok r) × (r.problems ≡ [])
  unfolding collect
  Clean-collect [] h = (nothing, refl, refl)
  Clean-collect (x ∷ xs) ((g, p, e), h) =
      let (rest, q, e') = Clean-collect xs h in (both g rest, rw (p, q), rw (e, e'))

  pub public-collect : (xs : List A) (r : Findings) → collect f xs ≡ ok r → r.public ≡ all_public xs
  unfolding collect
  public-collect [] r h = ground arith
  public-collect (x ∷ xs) r h =
      let (here, p, h') = >>=-eq-ok (f x) _ h in
      let (rest, q, h'') = >>=-eq-ok (collect f xs) _ h' in
      rw p (ground (arith, public-collect xs rest q))
