-- ===== src/Issues/Rewriting/Match.antt =====
-- A match of the pattern `\[(\d\.\d+)\]` of scripts/file_issues.py: what the text looks like.
use nixos_homeserver.Base.{
  ℕ, Bool, true, false, ◌&&◌, none, some, [], ◌∷◌, ◌++◌, if◌then◌else◌, ltb, ◌==◌, list_eq, nat_eq,
  Text, ◌≡◌, refl, sym, ap, ap₂, ◌∙◌, inl, inr, Bool-cases, Option-cases, ==_iff,
}
use nixos_homeserver.Base.Lists.{length, all}
use nixos_homeserver.Issues.Tickets.{span, id_at, closing, reference_at}

-- A reference at the start of a text: its digits, and the text behind it
pub record Match (digit : ℕ → Bool) (id s : Text) : Type 0 where
  pub major : ℕ
  pub minor : Text
  pub rest : Text
  pub id_is : id ≡ major ∷ b'.' ∷ minor
  pub text_is : s ≡ b'[' ∷ (id ++ b']' ∷ rest)
  pub major_digit : digit major ≡ true
  pub minor_digits : all digit minor ≡ true
  pub not_empty : ltb 0 (length minor) ≡ true

span-append :
    (digit : ℕ → Bool) (s : Text)
    → (s ≡ (span digit s).0 ++ (span digit s).1) × (all digit (span digit s).0 ≡ true)
unfolding span
span-append digit [] = (refl, refl)
span-append digit (c ∷ s) = elim (Bool-cases (digit c)) [
  | inl h ↦ rw h (let (e, a) = span-append digit s in (ap (λ l. c ∷ l) e, rw h a))
  | inr h ↦ rw h (refl, refl)
]

both_true : (p q : Bool) → (p && q) ≡ true → (p ≡ true) × (q ≡ true)
both_true true q e = (refl, e)
both_true false q e = cc

-- The value of a conditional that has one branch
when {ℓ} :
    {A : Type ℓ} (b : Bool) {x y : A} → (if b then some x else none) ≡ some y → (b ≡ true) × (y ≡ x)
when true h = (refl, cc)
when false h = cc

pub no_match {ℓ κ} : {A : Type ℓ} {B : Type κ} {x : B} → none ≡ some x → A
no_match h = cc

span-digits :
    (digit : ℕ → Bool) (minor rest : Text) (c : ℕ)
    → all digit minor ≡ true
    → digit c ≡ false
    → span digit (minor ++ c ∷ rest) ≡ (minor, c ∷ rest)
unfolding span
span-digits digit [] rest c a h = rw h refl
span-digits digit (d ∷ minor) rest c a h =
    let (p, q) = both_true (digit d) (all digit minor) a in
    rw (p, span-digits digit minor rest c q h) refl

closing-some :
    (id t : Text) {found : Text}
    → closing id t ≡ some found
    → (rest : Text) × (t ≡ b']' ∷ rest) × (found ≡ id)
unfolding closing
closing-some id [] h = cc
closing-some id (d ∷ rest) h =
    let (e, same) = when _ h in (rest, ap (λ c. c ∷ rest) ((==_iff d b']').0 e), same)

id_at-some :
    (digit : ℕ → Bool) (s : Text) {id rest : Text}
    → id_at digit s ≡ some (id, rest)
    → (major : ℕ) × (minor : Text) × (id ≡ major ∷ b'.' ∷ minor)
      × (s ≡ id ++ rest)
      × (digit major ≡ true)
      × (all digit minor ≡ true)
      × (ltb 0 (length minor) ≡ true)
unfolding id_at
id_at-some digit [] h = cc
id_at-some digit (c ∷ []) h = cc
id_at-some digit (c ∷ d ∷ s) h =
    let (e, same) = when (digit c && d == b'.' && ltb 0 (length (span digit s).0)) h in
    let (e₁, full) = both_true _ _ e in
    let (major_digit, point) = both_true _ _ e₁ in
    let (text, digits) = span-append digit s in
    let is_point = (==_iff d b'.').0 point in
    let id_is = ap (λ m. m.0) same in
    let rest_is = ap (λ m. m.1) same in
    (
      c,
      (span digit s).0,
      id_is ∙ ap (λ p. c ∷ p ∷ (span digit s).0) is_point,
      ap (λ l. c ∷ d ∷ l) text ∙ sym (ap₂ (λ a b. a ++ b) id_is rest_is),
      major_digit,
      digits,
      full,
    )

pub reference_at-Match :
    (digit : ℕ → Bool) (s : Text) {id : Text} → reference_at digit s ≡ some id → Match digit id s
unfolding reference_at
reference_at-Match digit [] h = cc
reference_at-Match digit (c ∷ s) {id} h = elim (Bool-cases (c == b'[')) [
  | inr other ↦ no_match (rw (other, reference_at) at h)
  | inl bracket ↦ elim (Option-cases (id_at digit s)) [
    | inl nothing ↦ no_match (rw (bracket, nothing, reference_at) at h)
    | inr ((found, behind), e) ↦
        let (major, minor, id_is, text, p, q, r) = id_at-some digit s e in
        let (rest, closed, same) = closing-some found behind (rw (bracket, e, reference_at) at h) in
        record {
          major = major;
          minor = minor;
          rest = rest;
          id_is = same ∙ id_is;
          text_is =
              ap₂ (λ x l. x ∷ l) ((==_iff c b'[').0 bracket)
                (text ∙ ap₂ (λ a b. a ++ b) (sym same) closed);
          major_digit = p;
          minor_digits = q;
          not_empty = r;
        }
  ]
]

pub Match-reference_at :
    (digit : ℕ → Bool) (id s rest : Text)
    → digit b']' ≡ false
    → Match digit id s
    → reference_at digit (b'[' ∷ (id ++ b']' ∷ rest)) ≡ some id
unfolding reference_at id_at closing nat_eq
Match-reference_at digit id s rest no_close m =
    rw
      (
        m.id_is,
        m.major_digit,
        span-digits digit m.minor rest b']' m.minor_digits no_close,
        m.not_empty,
      )
      refl
