-- ===== src/Minecraft/Varint.antt =====
-- `varint` and `read_varint` of tests/fake-minecraft.py. On numbers that are not negative `n & 0x7F` is `n % 128`,
-- `n >>= 7` is `n / 128`, and `|` is `+` where no bit is set in both: 0x80 above seven bits, and a group above
-- the groups before it.
pub mod RoundTrip
use nixos_homeserver.Base.{
  ℕ, zero, suc, ◌+◌, ◌*◌, ◌/◌, ◌%◌, ◌^◌, Bool, true, false, Option, none, some, List, [], ◌∷◌,
  if◌then◌else◌, ltb, ◌==◌, nat_eq,
}

-- The rounds of the loop, of which `n + 1` are enough: each divides by 128.
unfoldable pub varint_from : ℕ → ℕ → List ℕ
varint_from zero n = []
varint_from (suc rounds) n =
    let rest = varint_from rounds (n / 128) in
    if n / 128 == 0 then (n % 128) ∷ [] else (n % 128 + 128) ∷ rest

unfoldable pub varint : ℕ → List ℕ
unfolding varint_from
varint n = varint_from (suc n) n

-- The number and the bytes behind it, or none for an EOFError. `conn.recv(1)` is the next byte.
unfoldable pub read_varint_from : ℕ → ℕ → List ℕ → Option (ℕ × List ℕ)
read_varint_from n shift [] = none
read_varint_from n shift (b ∷ rest) =
    let more = read_varint_from (n + b % 128 * 2 ^ shift) (shift + 7) rest in
    if ltb b 128 then some (n + b % 128 * 2 ^ shift, rest) else more

unfoldable pub read_varint : List ℕ → Option (ℕ × List ℕ)
unfolding read_varint_from
read_varint conn = read_varint_from 0 0 conn
