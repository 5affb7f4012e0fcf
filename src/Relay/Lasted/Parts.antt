-- ===== src/Relay/Lasted/Parts.antt =====
-- The duration that `how_long` of modules/observability/alert-relay.py rounds and takes apart.
use nixos_homeserver.Base.{
  ℕ, zero, suc, ◌+◌, ◌-◌, true, ◌*◌, ◌^◌, ◌/◌, ◌%◌, ◌≤◌, ◌<◌, ◌≡◌, false, ltb, inl, inr, Bool-cases,
  nat_eq, arith,
}
use nixos_homeserver.Relay.Lasted.{parts_of, nearest, fraction_bits, seconds}
use native.Mathlib.Nat.{div-add-mod', mod-lt, mul-le-mul_right, pow-le-pow_right}

-- The days, hours, minutes and seconds of a duration add up to it, and are as small as they can be.
pub parts_of-sum :
    (secs : ℕ)
    → let (days, hours, mins, rest) = parts_of secs in
      (days * 86400 + hours * 3600 + mins * 60 + rest ≡ secs)
      × (hours < 24)
      × (mins < 60)
      × (rest < 60)
unfolding parts_of
parts_of-sum secs = (omega arith, omega arith, omega arith, omega arith)

less : {m n : ℕ} → ltb m n ≡ true → m < n
less h = ground arith

not_less : {m n : ℕ} → ltb m n ≡ false → n ≤ m
not_less h = ground arith

nearest-near :
    (n d : ℕ) → 0 < d → (2 * (nearest n d * d) ≤ 2 * n + d) × (2 * n ≤ 2 * (nearest n d * d) + d)
unfolding nearest
nearest-near n d h =
    let whole : n / d * d + n % d ≡ n = div-add-mod' n d in
    let rest : n % d < d = mod-lt n h in
    elim (Bool-cases (ltb (2 * (n % d)) d)) [
      | inl low ↦
          let small : 2 * (n % d) < d = less low in rw low (below (n / d) (n % d) whole small)
      | inr not_low ↦
          let large : d ≤ 2 * (n % d) = not_less not_low in
          elim (Bool-cases (ltb d (2 * (n % d)))) [
            | inl high ↦
                let larger : d < 2 * (n % d) = less high in
                rw (not_low, high) (above (n / d) (n % d) whole rest larger)
            | inr even ↦
                let no_larger : 2 * (n % d) ≤ d = not_less even in
                rw (not_low, even)
                  (tie (n / d) (n / d % 2) (n % d) (omega arith) whole (omega arith))
          ]
    ]
  where
    below :
        (q r : ℕ)
        → q * d + r ≡ n
        → 2 * r < d
        → (2 * (q * d) ≤ 2 * n + d) × (2 * n ≤ 2 * (q * d) + d)
    below q r e t = (omega arith, omega arith)

    above :
        (q r : ℕ)
        → q * d + r ≡ n
        → r < d
        → d < 2 * r
        → (2 * ((q + 1) * d) ≤ 2 * n + d) × (2 * n ≤ 2 * ((q + 1) * d) + d)
    above q r e l t = (omega arith, omega arith)

    tie :
        (q b r : ℕ)
        → b ≤ 1
        → q * d + r ≡ n
        → 2 * r ≡ d
        → (2 * ((q + b) * d) ≤ 2 * n + d) × (2 * n ≤ 2 * ((q + b) * d) + d)
    tie q zero r s e t = (omega arith, omega arith)
    tie q (suc zero) r s e t = (omega arith, omega arith)
    tie q (suc (suc b)) r s e t = absurd (omega arith)

fraction_bits-enough : (k us : ℕ) → us < 8589934592 * 1000000 → 20 ≤ k → 20 ≤ fraction_bits k us
unfolding fraction_bits
fraction_bits-enough zero us h e = absurd (omega arith)
fraction_bits-enough (suc k) us h e = elim (Bool-cases (ltb us (2 ^ (52 - k) * 1000000))) [
  | inl fits ↦ rw fits e
  | inr larger ↦ rw larger (elim (nat_eq.dec k 19) [
    | yes same ↦ absurd (at_19 (rw same at larger))
    | no other ↦ fraction_bits-enough k us h (omega arith)
  ])
]
  where
    at_19 : ltb us (2 ^ 33 * 1000000) ≡ false → ⊥
    at_19 f = let larger : 2 ^ 33 * 1000000 ≤ us = not_less f in omega arith

-- Rounding to so many binary digits first does not carry a half away.
twice-near :
    (us m secs ones : ℕ)
    → 1048576 ≤ ones
    → (2 * (m * 1000000) ≤ 2 * (us * ones) + 1000000)
      × (2 * (us * ones) ≤ 2 * (m * 1000000) + 1000000)
    → (2 * (secs * ones) ≤ 2 * m + ones) × (2 * m ≤ 2 * (secs * ones) + ones)
    → (secs * 1000000 ≤ us + 500000) × (us ≤ secs * 1000000 + 500000)
twice-near us m secs ones large (a, b) (c, d) = (
  elim (Bool-cases (ltb (us + 500000) (secs * 1000000))) [
    | inl over ↦ absurd (too_far (less over))
    | inr within ↦ not_less within
  ],
  elim (Bool-cases (ltb (secs * 1000000 + 500000) us)) [
    | inl over ↦ absurd (too_near (less over))
    | inr within ↦ not_less within
  ],
)
  where
    too_far : us + 500000 < secs * 1000000 → ⊥
    too_far h = let scaled = mul-le-mul_right ones h in omega arith

    too_near : secs * 1000000 + 500000 < us → ⊥
    too_near h = let scaled = mul-le-mul_right ones h in omega arith

-- The rounded number of seconds of a duration of less than 2^33 seconds (272 years) is within half a second of it.
pub seconds-near :
    (us : ℕ)
    → us < 8589934592 * 1000000
    → (seconds us * 1000000 ≤ us + 500000) × (us ≤ seconds us * 1000000 + 500000)
unfolding seconds
seconds-near us h =
    let bits : 20 ≤ fraction_bits 52 us = fraction_bits-enough 52 us h (omega arith) in
    let large : 2 ^ 20 ≤ 2 ^ fraction_bits 52 us = pow-le-pow_right (omega arith) bits in
    let ones = 2 ^ fraction_bits 52 us in
    twice-near us (nearest (us * ones) 1000000) _ ones (omega arith)
      (nearest-near (us * ones) 1000000 (omega arith))
      (nearest-near (nearest (us * ones) 1000000) ones (omega arith))
