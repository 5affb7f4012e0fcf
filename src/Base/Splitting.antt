-- ===== src/Base/Splitting.antt =====
-- `split` and `join` undo one another.
use Prim.Native.Nat.{ℕ}
use mathlib.Core.Path.{◌≡◌, refl, ap, ◌∙◌}
use mathlib.Core.Logic.{◌≢◌, if_pos, if_neg}
use mathlib.Core.Bool.{true, false}
use mathlib.Core.List.{List, [], ◌∷◌, ◌++◌, append_assoc}
use native.Mathlib.Omega.{arith}
use nixos_homeserver.Base.Equality.{nat_eq, list_eq, contains}
use nixos_homeserver.Base.Texts.{
  Text, split, join, cons_head, starts_with, drop_prefix, partition, rstrip,
}
use nixos_homeserver.Base.Lists.{All, append-eq-nil}

-- The character does not occur in the text.
abbrev pub Lacks : ℕ → Text → Type 0
Lacks c = All (λ d. d ≢ c)

pub split-ne-nil : (s : Text) (sep : ℕ) → split s sep ≢ []
unfolding split
split-ne-nil [] sep = λ e. cc
split-ne-nil (c ∷ s) sep = ground (arith, split-ne-nil s sep)

cons_head-Lacks :
    (c sep : ℕ) (ps : List Text) → c ≢ sep → All (Lacks sep) ps → All (Lacks sep) (cons_head c ps)
cons_head-Lacks c sep [] n h = ((n, tt), tt)
cons_head-Lacks c sep (p ∷ ps) n (hp, h) = ((n, hp), h)

-- No part of a split holds the separator.
pub split-Lacks : (s : Text) (sep : ℕ) → All (Lacks sep) (split s sep)
unfolding split
split-Lacks [] sep = (tt, tt)
split-Lacks (c ∷ s) sep = elim (nat_eq.dec c sep) [
  | yes e ↦ rw (if_pos _ e) (tt, split-Lacks s sep)
  | no n ↦ rw (if_neg _ n) (cons_head-Lacks c sep (split s sep) n (split-Lacks s sep))
]

pub split_at : (p s : Text) (sep : ℕ) → Lacks sep p → split (p ++ sep ∷ s) sep ≡ p ∷ split s sep
unfolding split
split_at [] s sep h = ground arith
split_at (c ∷ p) s sep (n, h) = rw (if_neg _ n, split_at p s sep h)

pub split_of_Lacks : (p : Text) (sep : ℕ) → Lacks sep p → split p sep ≡ p ∷ []
unfolding split
split_of_Lacks [] sep h = refl
split_of_Lacks (c ∷ p) sep (n, h) = rw (if_neg _ n, split_of_Lacks p sep h)

-- The parts of a join are those that were joined, if no part holds the separator.
pub split-join :
    (sep : ℕ) (p : Text) (ps : List Text)
    → All (Lacks sep) (p ∷ ps)
    → split (join (sep ∷ []) (p ∷ ps)) sep ≡ p ∷ ps
unfolding join
split-join sep p [] (h, _) = split_of_Lacks p sep h
split-join sep p (q ∷ ps) (h, hs) =
    split_at p _ sep h ∙ ap (λ rest. p ∷ rest) (split-join sep q ps hs)

pub split-append : (p s : Text) (sep : ℕ) → split (p ++ sep ∷ s) sep ≡ split p sep ++ split s sep
unfolding split
split-append [] s sep = ground arith
split-append (c ∷ p) s sep = elim (nat_eq.dec c sep) [
  | yes e ↦ rw (if_pos _ e, split-append p s sep)
  | no n ↦ rw (if_neg _ n, split-append p s sep) (heads (split p sep) (split-ne-nil p sep))
]
  where
    heads :
        (ps : List Text) → ps ≢ [] → cons_head c (ps ++ split s sep) ≡ cons_head c ps ++ split s sep
    heads [] n = absurd (n refl)
    heads (q ∷ ps) n = refl

pub join-append :
    (sep : Text) (p : Text) (ps : List Text) (q : Text) (qs : List Text)
    → join sep ((p ∷ ps) ++ q ∷ qs) ≡ join sep (p ∷ ps) ++ (sep ++ join sep (q ∷ qs))
unfolding join
join-append sep p [] q qs = refl
join-append sep p (r ∷ ps) q qs = rw (join-append sep r ps q qs, append_assoc, append_assoc)

-- A text with a prefix is that prefix and the rest.
pub starts_with-append : (p s : Text) → starts_with (p ++ s) p ≡ true
unfolding starts_with
starts_with-append [] s = starts_with_nil s
  where
    starts_with_nil : (s : Text) → starts_with s [] ≡ true
    starts_with_nil [] = refl
    starts_with_nil (c ∷ s) = refl
starts_with-append (c ∷ p) s = ground (arith, starts_with-append p s)

pub eq-append_of_starts_with : (s p : Text) → starts_with s p ≡ true → s ≡ p ++ drop_prefix s p
unfolding starts_with drop_prefix
eq-append_of_starts_with [] [] h = refl
eq-append_of_starts_with (c ∷ s) [] h = refl
eq-append_of_starts_with [] (d ∷ p) h = cc
eq-append_of_starts_with (c ∷ s) (d ∷ p) h = ground (arith, eq-append_of_starts_with s p)

pub rstrip_of_Lacks : (s : Text) (c : ℕ) → Lacks c s → rstrip s c ≡ s
unfolding rstrip
rstrip_of_Lacks [] c h = refl
rstrip_of_Lacks (d ∷ s) c (n, h) = ground (arith, rstrip_of_Lacks s c h)

pub rstrip-append : (s t : Text) (c : ℕ) → rstrip t c ≡ t → t ≢ [] → rstrip (s ++ t) c ≡ s ++ t
unfolding rstrip
rstrip-append [] t c h n = h
rstrip-append (d ∷ s) t c h n = ground (arith, rstrip-append s t c h n, append-eq-nil s t)

-- A join whose last part is not empty and lacks the character loses nothing at its end.
pub rstrip-join :
    (c : ℕ) (sep p : Text) (ps : List Text)
    → All (λ q. (q ≢ []) × Lacks c q) (p ∷ ps)
    → (rstrip (join sep (p ∷ ps)) c ≡ join sep (p ∷ ps)) × (join sep (p ∷ ps) ≢ [])
unfolding join
rstrip-join c sep p [] ((n, l), _) = (rstrip_of_Lacks p c l, n)
rstrip-join c sep p (q ∷ ps) (h, hs) =
    let (ih, filled) = rstrip-join c sep q ps hs in
    let tail_filled : sep ++ join sep (q ∷ ps) ≢ [] =
      λ e. filled (append-eq-nil sep (join sep (q ∷ ps)) e).1 in
    (
      rstrip-append p _ c (rstrip-append sep _ c ih filled) tail_filled,
      λ e. tail_filled (append-eq-nil p _ e).1,
    )

-- `partition` at a character that stands only behind the first part.
pub partition_at :
    (p s : Text) (sep : ℕ) → Lacks sep p → partition (p ++ sep ∷ s) (sep ∷ []) ≡ (p, s)
unfolding partition starts_with drop_prefix
partition_at [] s sep h = ground (arith, starts_with_nil s, drop_prefix_nil s)
  where
    starts_with_nil : (s : Text) → starts_with s [] ≡ true
    starts_with_nil [] = refl
    starts_with_nil (c ∷ s) = refl

    drop_prefix_nil : (s : Text) → drop_prefix s [] ≡ s
    drop_prefix_nil [] = refl
    drop_prefix_nil (c ∷ s) = refl
partition_at (c ∷ p) s sep (n, h) =
    let ih = partition_at p s sep h in ground (arith, ap (λ t. t.0) ih, ap (λ t. t.1) ih)

pub contains_of_Lacks : (c : ℕ) (s : Text) → Lacks c s → contains s c ≡ false
contains_of_Lacks c [] h = refl
contains_of_Lacks c (d ∷ s) (n, h) = ground (arith, contains_of_Lacks c s h)
