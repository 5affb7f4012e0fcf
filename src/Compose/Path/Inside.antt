-- ===== src/Compose/Path/Inside.antt =====
-- The prefix test of `check_file` on texts (scripts/check_compose.py), beside the containment of directories.
use nixos_homeserver.Base.{
  true, false, List, [], ◌∷◌, ◌++◌, append_assoc, append-nil, ◌≡◌, ◌≢◌, ◌⊎◌, inl, inr, ◌↔◌, refl,
  sym, ap, ◌∙◌, arith, ==_self, nat_eq, list_eq, Text, codes, starts_with, drop_prefix, split, join,
  rstrip,
}
use nixos_homeserver.Base.Lists.{All, append-eq-nil}
use nixos_homeserver.Base.Splitting.{
  Lacks, split-join, split-append, join-append, starts_with-append, eq-append_of_starts_with,
  rstrip-append, rstrip-join,
}
use nixos_homeserver.Compose.Path.{initial_slashes, components, normpath}
use nixos_homeserver.Compose.Path.Components.{Proper, components-Proper}
use nixos_homeserver.Compose.Path.Normal.{
  Root, Root-initial_slashes, Root-ne-nil, Proper-Lacks, starts_with-join, normpath_of_Root,
}
use nixos_homeserver.Compose.VolumeRules.{in_data_dir}

-- The directory with the components `cs` is that with the components `ds`, or lies below it.
abbrev pub Inside : List Text → List Text → Type 0
Inside ds cs = (rest : List Text) × (cs ≡ ds ++ rest)

abbrev joined : List Text → Text
joined cs = join (b'/' ∷ []) cs

slash_head : (u v w : Text) → starts_with u (codes "/") ≡ false → u ≢ [] → b'/' ∷ v ≡ u ++ w → ⊥
unfolding starts_with codes
slash_head [] v w h n e = n refl
slash_head (c ∷ u) v w h n e = ground arith

module _ (d : Text) (ds : List Text) (proper : All Proper (d ∷ ds)) where
  Proper-filled : (cs : List Text) → All Proper cs → All (λ q. (q ≢ []) × Lacks b'/' q) cs
  Proper-filled [] h = tt
  Proper-filled (c ∷ cs) (p, h) = ((p.0, p.3), Proper-filled cs h)

  joined-ends : (rstrip (joined (d ∷ ds)) b'/' ≡ joined (d ∷ ds)) × (joined (d ∷ ds) ≢ [])
  joined-ends = rstrip-join b'/' (b'/' ∷ []) d ds (Proper-filled (d ∷ ds) proper)

  joined_nil : joined [] ≡ []
  unfolding join
  joined_nil = refl

  join-injective : (cs : List Text) → All Proper cs → joined cs ≡ joined (d ∷ ds) → cs ≡ d ∷ ds
  join-injective [] h e = absurd (joined-ends.1 (sym e ∙ joined_nil))
  join-injective (c ∷ cs) h e =
      sym (split-join b'/' c cs (Proper-Lacks (c ∷ cs) h))
      ∙ ap (λ s. split s b'/') e
      ∙ split-join b'/' d ds (Proper-Lacks (d ∷ ds) proper)

  Inside-starts_with :
      (cs : List Text)
      → All Proper cs
      → starts_with (joined cs) (joined (d ∷ ds) ++ b'/' ∷ []) ≡ true
      → Inside (d ∷ ds) cs
  Inside-starts_with [] h e =
      let whole = eq-append_of_starts_with (joined []) (joined (d ∷ ds) ++ b'/' ∷ []) e in
      let front = (append-eq-nil (joined (d ∷ ds) ++ b'/' ∷ []) _ (sym whole ∙ joined_nil)).0 in
      absurd (joined-ends.1 (append-eq-nil (joined (d ∷ ds)) _ front).0)
  Inside-starts_with (c ∷ cs) h e =
      let t = drop_prefix (joined (c ∷ cs)) (joined (d ∷ ds) ++ b'/' ∷ []) in
      (
        split t b'/',
        sym (split-join b'/' c cs (Proper-Lacks (c ∷ cs) h))
            ∙ ap (λ s. split s b'/')
                (eq-append_of_starts_with _ _ e ∙ append_assoc (joined (d ∷ ds)) (b'/' ∷ []) t)
            ∙ split-append (joined (d ∷ ds)) t b'/'
            ∙ ap (λ l. l ++ split t b'/') (split-join b'/' d ds (Proper-Lacks (d ∷ ds) proper)),
      )

  starts_with-Inside :
      (q : Text) (qs : List Text)
      → starts_with (joined ((d ∷ ds) ++ q ∷ qs)) (joined (d ∷ ds) ++ b'/' ∷ []) ≡ true
  starts_with-Inside q qs =
      rw (join-append (b'/' ∷ []) d ds q qs, ← append_assoc)
        (starts_with-append (joined (d ∷ ds) ++ b'/' ∷ []) (joined (q ∷ qs)))

  -- The data directory as a text
  abbrev dir : Text
  dir = codes "/" ++ joined (d ∷ ds)

  dir-rstrip : rstrip dir b'/' ≡ dir
  unfolding codes
  dir-rstrip = rstrip-append (b'/' ∷ []) (joined (d ∷ ds)) b'/' joined-ends.0 joined-ends.1

  in_data_dir-cases :
      (n : Text) → in_data_dir dir n ≡ true → (n ≡ dir) ⊎ (starts_with n (dir ++ codes "/") ≡ true)
  unfolding in_data_dir
  in_data_dir-cases n t = ground (arith, dir-rstrip)

  after_slash :
      (cs : List Text)
      → All Proper cs
      → (b'/' ∷ joined cs ≡ dir) ⊎ (starts_with (b'/' ∷ joined cs) (dir ++ codes "/") ≡ true)
      → Inside (d ∷ ds) cs
  unfolding codes
  after_slash cs h (inl e) =
      let same : joined cs ≡ joined (d ∷ ds) = cc in
      ([], join-injective cs h same ∙ sym (append-nil (d ∷ ds)))
  after_slash cs h (inr s) = Inside-starts_with cs h (unfold starts_with in ground arith)

  two_slashes :
      (s : Text)
      → (b'/' ∷ b'/' ∷ s ≡ dir) ⊎ (starts_with (b'/' ∷ b'/' ∷ s) (dir ++ codes "/") ≡ true)
      → ⊥
  unfolding codes
  two_slashes s (inl e) =
      slash_head (joined (d ∷ ds)) s [] (starts_with-join (d ∷ ds) proper) joined-ends.1
        (tails e ∙ sym (append-nil (joined (d ∷ ds))))
    where
      tails : Path Text (b'/' ∷ b'/' ∷ s) (b'/' ∷ joined (d ∷ ds)) → b'/' ∷ s ≡ joined (d ∷ ds)
      tails e = cc
  two_slashes s (inr e) =
      let p = joined (d ∷ ds) ++ b'/' ∷ [] in
      let inner : starts_with (b'/' ∷ s) p ≡ true = unfold starts_with in ground arith in
      slash_head (joined (d ∷ ds)) s (b'/' ∷ drop_prefix (b'/' ∷ s) p)
        (starts_with-join (d ∷ ds) proper) joined-ends.1
        (eq-append_of_starts_with (b'/' ∷ s) p inner ∙ append_assoc (joined (d ∷ ds)) (b'/' ∷ []) _)

  -- For the texts of two normal paths
  in_data_dir-join :
      (r : Text) (cs : List Text)
      → Root r
      → All Proper cs
      → in_data_dir dir (r ++ joined cs) ≡ true
      → (r ≡ codes "/") × Inside (d ∷ ds) cs
  unfolding codes
  in_data_dir-join r cs (inl e) h t = (e, after_slash cs h (in_data_dir-cases _ (rw e at t)))
  in_data_dir-join r cs (inr e) h t =
      absurd (two_slashes (joined cs) (in_data_dir-cases _ (rw e at t)))

  Inside-in_data_dir :
      (cs : List Text) → Inside (d ∷ ds) cs → in_data_dir dir (codes "/" ++ joined cs) ≡ true
  unfolding in_data_dir codes
  Inside-in_data_dir cs ([], e) = rw (e, append-nil) (ground (arith, ==_self dir))
  Inside-in_data_dir cs (q ∷ qs, e) =
      rw e (ground (arith, dir-rstrip, unfold_prefix _ _ (starts_with-Inside q qs)))
    where
      unfold_prefix :
          (s t : Text) → starts_with s t ≡ true → starts_with (b'/' ∷ s) (b'/' ∷ t) ≡ true
      unfold_prefix s t h = unfold starts_with in ground arith

  -- For a data directory written as a normal path, the prefix test holds of what `normpath` makes of a
  -- rooted path exactly when the path begins with a single slash (or three and more) and lies in the
  -- directory.
  pub in_data_dir-Inside :
      (path : Text)
      → starts_with path (codes "/") ≡ true
      → (in_data_dir (codes "/" ++ join (b'/' ∷ []) (d ∷ ds)) (normpath path) ≡ true)
        ↔ ((initial_slashes path ≡ codes "/") × Inside (d ∷ ds) (components path))
  unfolding codes
  in_data_dir-Inside path h =
      let root = Root-initial_slashes path h in
      let cs_proper = components-Proper path (Root-ne-nil _ root) in
      rw (normpath_of_Root path root) (
        (λ t. in_data_dir-join (initial_slashes path) (components path) root cs_proper t),
        λ (single, inside). rw single (Inside-in_data_dir (components path) inside),
      )
