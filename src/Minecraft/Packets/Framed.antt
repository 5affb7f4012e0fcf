-- ===== src/Minecraft/Packets/Framed.antt =====
-- `read_packet` of tests/fake-minecraft.py reads what `send` wrote, in whatever pieces it comes.
use nixos_homeserver.Base.{
  ℕ, zero, suc, ◌+◌, ◌-◌, ◌<◌, ◌≤◌, true, false, List, [], ◌∷◌, ◌++◌, ltb, ◌≡◌, refl, sym, ap, ap₂,
  ◌∙◌, arith, inl, inr, Bool-cases, append_assoc, append-nil,
}
use nixos_homeserver.Base.Lists.{length, take, drop}
use nixos_homeserver.Minecraft.Varint.{varint}
use nixos_homeserver.Minecraft.Varint.RoundTrip.{read_varint-varint}
use nixos_homeserver.Minecraft.Packets.{
  complete, end_of_file, send, chunk_size, recv, read_data, read_packet,
}

take-within : (k : ℕ) (p rest : List ℕ) → k ≤ length p → take k (p ++ rest) ≡ take k p
take-within zero p rest h = refl
take-within (suc k) [] rest h = absurd (ground arith)
take-within (suc k) (b ∷ p) rest h = ap (λ l. b ∷ l) (take-within k p rest (ground arith))

drop-within : (k : ℕ) (p rest : List ℕ) → k ≤ length p → drop k (p ++ rest) ≡ drop k p ++ rest
drop-within zero p rest h = refl
drop-within (suc k) [] rest h = absurd (ground arith)
drop-within (suc k) (b ∷ p) rest h = drop-within k p rest (ground arith)

take-then-drop : (k : ℕ) (p : List ℕ) → take k p ++ drop k p ≡ p
take-then-drop zero p = refl
take-then-drop (suc k) [] = refl
take-then-drop (suc k) (b ∷ p) = ap (λ l. b ∷ l) (take-then-drop k p)

length-parts : (k : ℕ) (p : List ℕ) → length (take k p) + length (drop k p) ≡ length p
length-parts zero p = omega arith
length-parts (suc k) [] = omega arith
length-parts (suc k) (b ∷ p) = omega (arith, length-parts k p)

pub length-joined : (p q : List ℕ) → length (p ++ q) ≡ length p + length q
length-joined [] q = omega arith
length-joined (b ∷ p) q = omega (arith, length-joined p q)

not_less : (n : ℕ) → ltb n n ≡ false
not_less n = ground arith

is_less : (m n : ℕ) → m < n → ltb m n ≡ true
is_less m n h = ground arith

module _ (size : List ℕ → ℕ) where
  -- `recv` returns a byte at least, and no more than it was asked for.
  chunk_size-within :
      (asked : ℕ) (conn : List ℕ)
      → (k : ℕ) × (chunk_size size (suc asked) conn ≡ suc k) × (k ≤ asked)
  unfolding chunk_size
  chunk_size-within asked conn = elim (Bool-cases (ltb (size conn) (suc asked))) [
    | inl small ↦ (size conn, rw small refl, ground arith)
    | inr large ↦ (asked, rw large refl, ground arith)
  ]

  read_data-done :
      (rounds : ℕ) (received conn : List ℕ)
      → read_data size (suc rounds) (length received) received conn ≡ complete received conn
  unfolding read_data
  read_data-done rounds received conn = rw (not_less (length received)) refl

  recv-within :
      (asked k b : ℕ) (p rest : List ℕ)
      → chunk_size size asked (b ∷ p ++ rest) ≡ suc k
      → k ≤ length p
      → recv size asked (b ∷ p ++ rest) ≡ (b ∷ take k p, drop k p ++ rest)
  unfolding recv
  recv-within asked k b p rest c h =
      ap (λ n. (take n (b ∷ p ++ rest), drop n (b ∷ p ++ rest))) c
      ∙ ap₂ (λ l m. (b ∷ l, m)) (take-within k p rest h) (drop-within k p rest h)

  read_data-next :
      (rounds total b : ℕ) (received conn chunk later : List ℕ)
      → length received < total
      → recv size (total - length received) conn ≡ (b ∷ chunk, later)
      → read_data size (suc rounds) total received conn
        ≡ read_data size rounds total (received ++ b ∷ chunk) later
  unfolding read_data
  read_data-next rounds total b received conn chunk later h e =
      rw (is_less (length received) total h) (
        ap
          (λ r. elim r.0 [
            | [] ↦ end_of_file
            | d ∷ ds ↦ read_data size rounds total (received ++ r.0) r.1
          ])
          e)

  read_data-all :
      (rounds total : ℕ) (received p rest : List ℕ)
      → total ≡ length received + length p
      → length p < rounds
      → read_data size rounds total received (p ++ rest) ≡ complete (received ++ p) rest
  read_data-all zero total received p rest e h = absurd (omega arith)
  read_data-all (suc rounds) total received [] rest e h =
      ap (λ n. read_data size (suc rounds) n received rest) (none_left e)
      ∙ (read_data-done rounds received rest
          ∙ ap (λ l. complete l rest) (sym (append-nil received)))
    where
      none_left : total ≡ length received + 0 → total ≡ length received
      none_left e = omega arith
  read_data-all (suc rounds) total received (b ∷ p) rest e h =
      let (k, c, within) = chunk_size-within (length p) (b ∷ p ++ rest) in
      read_data-next rounds total b received (b ∷ p ++ rest) (take k p) (drop k p ++ rest)
        (omega arith)
        (recv-within (total - length received) k b p rest
          (ap (λ n. chunk_size size n (b ∷ p ++ rest)) (left e) ∙ c) within)
      ∙ (read_data-all rounds total (received ++ (b ∷ take k p)) (drop k p) rest
            (omega (arith, length-joined received (b ∷ take k p), length-parts k p))
            (omega (arith, length-parts k p))
          ∙ ap (λ l. complete l rest)
              (append_assoc received (b ∷ take k p) (drop k p)
                ∙ ap (λ l. received ++ b ∷ l) (take-then-drop k p)))
    where
      left : total ≡ length received + suc (length p) → total - length received ≡ suc (length p)
      left e = omega arith

  -- Reading returns the packet that was sent, and leaves what follows it, whatever pieces `recv` returns it in.
  pub read_packet-send :
      (payload rest : List ℕ) → read_packet size (send payload ++ rest) ≡ complete payload rest
  unfolding read_packet send
  read_packet-send payload rest =
      rw
        (
          append_assoc (varint (length payload)) payload rest,
          read_varint-varint (length payload) (payload ++ rest),
          read_packet,
        )
        (read_data-all (suc (length (payload ++ rest))) (length payload) [] payload rest
          (omega arith) (omega (arith, length-joined payload rest)))
