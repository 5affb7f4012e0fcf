-- ===== src/Issues/Paged/Complete.antt =====
-- `paged` of scripts/file_issues.py collects every entry, whatever their number.
use nixos_homeserver.Base.{
  ℕ, zero, suc, ◌+◌, ◌-◌, ◌*◌, ◌<◌, ◌≤◌, true, false, Option, none, some, List, [], ◌∷◌, ◌++◌, ltb,
  nat_eq, list_eq, Text, codes, Result, ok, ◌≡◌, refl, sym, ap, ◌∙◌, inl, inr, arith, append_assoc,
  Bool-cases, ℤ, pos, int,
}
use nixos_homeserver.Base.Integers.Decimal.{int-show}
use nixos_homeserver.Base.Lists.{length, take, drop}
use nixos_homeserver.Base.Value.{Value, iterate}
use nixos_homeserver.Issues.Paged.{
  Ends, returns, Response, separator, page_path, expect, next_page, paged_from, paged,
}

module _ {ℓ} {A : Type ℓ} where
  take-append-drop : (n : ℕ) (xs : List A) → take n xs ++ drop n xs ≡ xs
  take-append-drop zero xs = refl
  take-append-drop (suc n) [] = refl
  take-append-drop (suc n) (x ∷ xs) = ap (λ l. x ∷ l) (take-append-drop n xs)

  drop-nil : (n : ℕ) → Path (List A) (drop n []) []
  drop-nil zero = refl
  drop-nil (suc n) = refl

  drop-drop : (m n j : ℕ) (xs : List A) → j ≡ n + m → drop m (drop n xs) ≡ drop j xs
  drop-drop m zero j xs e = ap (λ i. drop i xs) (omega arith)
  drop-drop m (suc n) zero xs e = absurd (omega arith)
  drop-drop m (suc n) (suc j) [] e = drop-nil m
  drop-drop m (suc n) (suc j) (x ∷ xs) e = drop-drop m n j xs (omega arith)

  length-drop : (n : ℕ) (xs : List A) → length (drop n xs) ≡ length xs - n
  length-drop zero xs = ground arith
  length-drop (suc n) [] = ground arith
  length-drop (suc n) (x ∷ xs) = ground (arith, length-drop n xs)

  length-take_short : (n : ℕ) (xs : List A) → length (take n xs) < n → take n xs ≡ xs
  length-take_short zero xs h = ground arith
  length-take_short (suc n) [] h = refl
  length-take_short (suc n) (x ∷ xs) h = ap (λ l. x ∷ l) (length-take_short n xs (ground arith))

  length-take_full : (n : ℕ) (xs : List A) → n ≤ length (take n xs) → n ≤ length xs
  length-take_full zero xs h = ground arith
  length-take_full (suc n) [] h = h
  length-take_full (suc n) (x ∷ xs) h = ground (arith, length-take_full n xs)

ltb-true : (a b : ℕ) → ltb a b ≡ true → a < b
ltb-true a b h = ground arith

ltb-false : (a b : ℕ) → ltb a b ≡ false → b ≤ a
ltb-false a b h = ground arith

expect-none :
    (response : Response) (what : Text)
    → response.status ≡ 200
    → expect (200 ∷ []) response what ≡ none
unfolding expect
expect-none response what h = ground arith

append_cancel : (s t u : Text) → s ++ t ≡ s ++ u → t ≡ u
append_cancel [] t u h = h
append_cancel (c ∷ s) t u h = append_cancel s t u (behind h)
  where
    behind : {x y : Text} → c ∷ x ≡ c ∷ y → x ≡ y
    behind e = cc

-- Two pages have two paths.
pub page_path-injective : (path : Text) (m n : ℕ) → page_path path m ≡ page_path path n → m ≡ n
unfolding page_path
page_path-injective path m n h =
    let digits = append_cancel (path ++ separator path ++ codes "per_page=100&page=") _ _ h in
    inside (sym (int-show m) ∙ (ap int digits ∙ int-show n))
  where
    inside : {a b : ℕ} → Path (Result ℤ) (ok (pos a)) (ok (pos b)) → a ≡ b
    inside e = cc

module _ (request : Text → Response) (path : Text) (entries : List Value) where
  -- GitHub serves the entries in pages of 100.
  abbrev pub Serves : Type 0
  Serves =
      (k : ℕ)
      → ((request (page_path path (suc k))).status ≡ 200)
        × (iterate (request (page_path path (suc k))).body ≡ ok (take 100 (drop (100 * k) entries)))

  next_page-short :
      (out body : List Value) (next : List Value → Option (Ends (List Value)))
      → ltb (length body) 100 ≡ true
      → next_page request path out (ok body) next ≡ some (returns (out ++ body))
  unfolding next_page
  next_page-short out body next h = rw (h, next_page) refl

  next_page-full :
      (out body : List Value) (next : List Value → Option (Ends (List Value)))
      → ltb (length body) 100 ≡ false
      → next_page request path out (ok body) next ≡ next (out ++ body)
  unfolding next_page
  next_page-full out body next h = rw (h, next_page) refl

  module _ (serves : Serves) where
    -- One round: the last page is short, and after a full one the loop goes on.
    paged_from-round :
        (fuel k : ℕ) (out : List Value)
        → paged_from request path (suc fuel) (suc k) out
          ≡ next_page request path out
              (ok (take 100 (drop (100 * k) entries)))
              (paged_from request path fuel (suc (suc k)))
    unfolding paged_from
    paged_from-round fuel k out =
        let (status, body) = serves k in
        rw
          (
            expect-none (request (page_path path (suc k))) (codes "GET " ++ path) status,
            body,
            paged_from,
          )
          refl

    paged_from-all :
        (fuel k : ℕ) (out : List Value)
        → length (drop (100 * k) entries) < 100 * fuel
        → paged_from request path fuel (suc k) out ≡ some (returns (out ++ drop (100 * k) entries))
    paged_from-all zero k out h = absurd (ground arith)
    paged_from-all (suc fuel) k out h =
        let left = drop (100 * k) entries in
        paged_from-round fuel k out ∙ elim (Bool-cases (ltb (length (take 100 left)) 100)) [
          | inl short ↦
              next_page-short out (take 100 left) _ short
              ∙ ap (λ l. some (returns (out ++ l)))
                  (length-take_short 100 left (ltb-true _ _ short))
          | inr full ↦
              let next : drop (100 * suc k) entries ≡ drop 100 left =
                sym (drop-drop 100 (100 * k) (100 * suc k) entries (omega arith)) in
              let less = shorter fuel left (length-take_full 100 left (ltb-false _ _ full)) h in
              next_page-full out (take 100 left) _ full
              ∙ (paged_from-all fuel (suc k) (out ++ take 100 left) (rw next less)
                  ∙ ap (λ l. some (returns l))
                      (append_assoc out (take 100 left) (drop (100 * suc k) entries)
                        ∙ ap (λ l. out ++ l)
                            (ap (λ l. take 100 left ++ l) next ∙ take-append-drop 100 left)))
        ]
      where
        shorter :
            (fuel : ℕ) (left : List Value)
            → 100 ≤ length left
            → length left < 100 * suc fuel
            → length (drop 100 left) < 100 * fuel
        shorter fuel left enough h = let l = length-drop 100 left in omega arith

    -- With one round for each full page and one more, the loop ends with all the entries, in order.
    pub paged-all :
        (fuel : ℕ) → length entries < 100 * fuel → paged request path fuel ≡ some (returns entries)
    unfolding paged
    paged-all fuel h = paged_from-all fuel 0 [] h
