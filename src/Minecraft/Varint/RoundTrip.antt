-- ===== src/Minecraft/Varint/RoundTrip.antt =====
-- Reading back what `varint` of tests/fake-minecraft.py wrote.
use nixos_homeserver.Base.{
  ℕ, zero, suc, ◌+◌, ◌*◌, ◌/◌, ◌%◌, ◌^◌, ◌<◌, false, some, List, ◌∷◌, ◌++◌, ◌==◌, nat_eq, ◌≡◌, ap,
  ◌∙◌, arith, inl, inr, Bool-cases, ==_iff,
}
use native.Mathlib.Nat.{div-add-mod}
use native.Mathlib.Numerals.{towards_suc}
use nixos_homeserver.Minecraft.Varint.{varint_from, varint, read_varint_from, read_varint}

next_group : (s : ℕ) → 2 ^ (s + 7) ≡ 128 * 2 ^ s
next_group s = simp towards_suc (omega arith)

-- The groups still to be written count from the bit of the shift on.
in_groups : (w s : ℕ) → w % 128 * 2 ^ s + w / 128 * 2 ^ (s + 7) ≡ w * 2 ^ s
in_groups w s =
    omega (arith, ap (λ t. w / 128 * t) (next_group s), ap (λ t. t * 2 ^ s) (div-add-mod w 128))

last_group :
    (n shift b : ℕ) (rest : List ℕ)
    → b < 128
    → read_varint_from n shift (b ∷ rest) ≡ some (n + b * 2 ^ shift, rest)
unfolding read_varint_from
last_group n shift b rest h = ground arith

inner_group :
    (n shift b : ℕ) (rest : List ℕ)
    → b < 128
    → read_varint_from n shift ((b + 128) ∷ rest)
      ≡ read_varint_from (n + b * 2 ^ shift) (shift + 7) rest
unfolding read_varint_from
inner_group n shift b rest h = ground arith

read_varint_from-varint_from :
    (rounds w n shift : ℕ) (rest : List ℕ)
    → w < rounds
    → read_varint_from n shift (varint_from rounds w ++ rest) ≡ some (n + w * 2 ^ shift, rest)
unfolding varint_from
read_varint_from-varint_from zero w n shift rest h = absurd (omega arith)
read_varint_from-varint_from (suc rounds) w n shift rest h = elim (Bool-cases (w / 128 == 0)) [
  | inl last ↦ rw last (
      last_group n shift (w % 128) rest (omega arith)
      ∙ ap (λ g. some (n + g * 2 ^ shift, rest)) (only_group ((==_iff (w / 128) 0).0 last)))
  | inr more ↦ rw more (
      inner_group n shift (w % 128) (varint_from rounds (w / 128) ++ rest) (omega arith)
      ∙ (read_varint_from-varint_from rounds (w / 128) (n + w % 128 * 2 ^ shift) (shift + 7) rest
            (smaller more)
          ∙ ap (λ m. some (m, rest)) (omega (arith, in_groups w shift))))
]
  where
    only_group : w / 128 ≡ 0 → w % 128 ≡ w
    only_group e = omega arith

    smaller : (w / 128 == 0) ≡ false → w / 128 < rounds
    smaller e = ground arith

-- Reading gives back the number that was written, and leaves what follows it.
pub read_varint-varint : (n : ℕ) (rest : List ℕ) → read_varint (varint n ++ rest) ≡ some (n, rest)
unfolding read_varint varint
read_varint-varint n rest =
    read_varint_from-varint_from (suc n) n 0 0 rest (omega arith)
    ∙ ap (λ m. some (m, rest)) (omega arith)
