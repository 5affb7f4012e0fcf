-- ===== src/Base/Loops.antt =====
-- Loops that report problems: what it means that one reports nothing.
use mathlib.Core.Path.{◌≡◌, refl, ap, ◌∙◌}
use mathlib.Core.Bool.{Bool, true, false}
use mathlib.Core.List.{List, [], ◌∷◌}
use nixos_homeserver.Base.Branching.{if◌then◌else◌}
use nixos_homeserver.Base.Exceptions.{Result, ok, >>=-eq-ok, ok-injective, for_each}
use nixos_homeserver.Base.Lists.{All, append-eq-nil}

pub for_each-nil {ℓ κ} :
    {A : Type ℓ} {B : Type κ} (f : A → Result (List B)) (xs : List A)
    → for_each f xs ≡ ok []
    → All (λ x. f x ≡ ok []) xs
unfolding for_each
for_each-nil f [] h = tt
for_each-nil f (x ∷ xs) h =
    let (here, p, h₁) = >>=-eq-ok (f x) _ h in
    let (rest, q, e) = >>=-eq-ok (for_each f xs) _ h₁ in
    let (a, b) = append-eq-nil here rest (ok-injective e) in
    (p ∙ ap ok a, for_each-nil f xs (q ∙ ap ok b))

-- A test that reports nothing succeeded.
pub no_complaint {ℓ} : {A : Type ℓ} (b : Bool) (x : A) → (if b then [] else x ∷ []) ≡ [] → b ≡ true
no_complaint true x h = refl
no_complaint false x h = cc
