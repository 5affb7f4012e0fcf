-- ===== src/Compose/Run/Status.antt =====
-- The exit status of scripts/check_compose.py.
use nixos_homeserver.Base.{
  ℕ, true, false, Option, none, some, List, [], ◌∷◌, ◌++◌, ◌≡◌, ◌↔◌, refl, arith, nat_eq, list_eq,
  Text, codes, Result, ok, err, >>=-eq-ok, Result-cases, inl, inr,
}
use nixos_homeserver.Base.Lists.{All}
use nixos_homeserver.Base.Dict.{lookup}
use nixos_homeserver.Base.Sort.{sorted, leb_text, All-sorted}
use nixos_homeserver.Base.Value.{Value}
use nixos_homeserver.Compose.Problem.{Problem, Stack}
use nixos_homeserver.Compose.File.{check_file}
use nixos_homeserver.Compose.File.Compliance.{DocOk, check_doc-DocOk}
use nixos_homeserver.Compose.Run.{
  Manifest, FoundFile, Output, compose_files, is_listed, check_stacks, then_output, reported,
  check_known, check_found, check_files, main,
}

-- A file stands in the directory of a declared stack, is read, and meets what the stack demands.
abbrev pub FileOk : (List ℕ → Result Value) → Manifest → FoundFile → Type 0
FileOk safe_load manifest p =
    (stack : Stack) × (doc : Value) × (lookup p.parent manifest ≡ some stack)
    × (safe_load p.content ≡ ok doc)
    × DocOk stack doc

module _ (safe_load : List ℕ → Result Value) where
  check_file-DocOk :
      (name : Text) (stack : Stack) (content : List ℕ)
      → (check_file name stack safe_load content ≡ ok [])
        ↔ ((doc : Value) × (safe_load content ≡ ok doc) × DocOk stack doc)
  unfolding check_file
  check_file-DocOk name stack content = (
    λ h.
        let (doc, p, h') = >>=-eq-ok (safe_load content) _ h in
        (doc, p, (check_doc-DocOk name stack doc).0 h'),
    λ (doc, p, h). rw p ((check_doc-DocOk name stack doc).1 h),
  )

reported-ok_nil :
    (shown : Text) (r : Result (List Problem)) (out : Output)
    → reported shown r ≡ ok out
    → out.failed ≡ false
    → r ≡ ok []
unfolding reported
reported-ok_nil shown (ok []) out h f = refl
reported-ok_nil shown (ok (p ∷ ps)) out h f = ground arith
reported-ok_nil shown (err e) out h f = cc

module _ (safe_load : List ℕ → Result Value) (manifest : Manifest) where
  -- The round of a file ends without an exception and does not set `failed`.
  abbrev Passes : FoundFile → Type 0
  Passes p = (out : Output) × (check_found safe_load manifest p ≡ ok out) × (out.failed ≡ false)

  known-FileOk :
      (p : FoundFile) (o : Option Stack) (out : Output)
      → lookup p.parent manifest ≡ o
      → check_known safe_load manifest p o ≡ ok out
      → out.failed ≡ false
      → FileOk safe_load manifest p
  unfolding check_known
  known-FileOk p none out e h f = ground arith
  known-FileOk p (some stack) out e h f =
      let none_found =
        reported-ok_nil p.shown (check_file p.parent stack safe_load p.content) out h f in
      let (doc, read, good) = (check_file-DocOk safe_load p.parent stack p.content).0 none_found in
      (stack, doc, e, read, good)

  Passes-FileOk : (p : FoundFile) → Passes p → FileOk safe_load manifest p
  unfolding check_found
  Passes-FileOk p (out, h, f) = known-FileOk p (lookup p.parent manifest) out refl h f

  FileOk-Passes : (p : FoundFile) → FileOk safe_load manifest p → Passes p
  unfolding check_found check_known reported
  FileOk-Passes p (stack, doc, known, read, good) =
      let none_found = (check_file-DocOk safe_load p.parent stack p.content).1 (doc, read, good) in
      (
        record { lines = (p.shown ++ codes ": ok") ∷ []; failed = false },
        rw (known, none_found),
        refl,
      )

  check_files-status :
      (files : List FoundFile) (out : Output)
      → ((check_files safe_load manifest files out).status ≡ 0)
        ↔ ((out.failed ≡ false) × All (FileOk safe_load manifest) files)
  unfolding check_files
  check_files-status [] out = (λ h. (ground arith, tt), λ (f, _). rw f)
  check_files-status (p ∷ files) out = elim (Result-cases (check_found safe_load manifest p)) [
    | inl (here, h) ↦
        let ih = check_files-status files (then_output out here) in
        (
          λ e.
              let (f, rest) = ih.0 (rw (h, check_files) at e) in
              (ground arith, (Passes-FileOk p (here, h, ground arith), rest)),
          λ (f, (good, rest)).
              let (out', h', f') = FileOk-Passes p good in
              rw (h, check_files) (ih.1 (ground arith, rest)),
        )
    | inr (e, h) ↦ (
      λ z. absurd (one_ne_zero (rw (h, check_files) at z)),
      λ (f, (good, rest)). let (out', h', f') = FileOk-Passes p good in ground arith,
    )
  ]
    where
      one_ne_zero : ◌≡◌ {A = ℕ} 1 0 → ⊥
      one_ne_zero e = omega arith

  check_stacks-failed :
      (relative : Text → Option (List ℕ)) (root_name : Text) (files : List FoundFile)
      (stacks : List (Text × Stack))
      → ((check_stacks relative root_name files stacks).failed ≡ false)
        ↔ All (λ s. is_listed relative files s ≡ true) stacks
  unfolding check_stacks
  check_stacks-failed relative root_name files [] = (λ h. tt, λ h. refl)
  check_stacks-failed relative root_name files (s ∷ stacks) =
      let ih = check_stacks-failed relative root_name files stacks in
      (λ h. (ground arith, ih.0 (ground arith)), λ (l, h). rw l (ih.1 h))

  -- The program exits with status 0 exactly when every stack of the manifest that names a compose
  -- file has it among the files found, and every file found stands in the directory of a declared
  -- stack, is read, and meets what that stack demands.
  pub main-status :
      (relative : Text → Option (List ℕ)) (root_name : Text) (found : List FoundFile)
      → ((main safe_load manifest relative root_name found).status ≡ 0) ↔ (
          All (λ s. is_listed relative (compose_files found) s ≡ true) manifest
          × All (FileOk safe_load manifest) (compose_files found))
  unfolding main
  main-status relative root_name found =
      let files = compose_files found in
      let listed =
        All-sorted (λ (a b : Text × Stack). leb_text a.0 b.0)
          (λ s. is_listed relative files s ≡ true) manifest in
      let stacks =
        check_stacks-failed relative root_name files (sorted (λ a b. leb_text a.0 b.0) manifest) in
      let loop =
        check_files-status files
          (check_stacks relative root_name files (sorted (λ a b. leb_text a.0 b.0) manifest)) in
      (
        λ h. let (f, good) = loop.0 h in (listed.0 (stacks.0 f), good),
        λ (l, good). loop.1 (stacks.1 (listed.1 l), good),
      )
