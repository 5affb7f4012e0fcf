-- ===== src/Minecraft/Packets.antt =====
-- `read_packet` and `send` of tests/fake-minecraft.py. A connection is the list of the bytes that are still to come.
-- Parameter: `size`, by which `recv` chooses how many of the bytes it was asked for it returns, one at least.
pub mod Framed
use nixos_homeserver.Base.{
  ℕ, zero, suc, ◌+◌, ◌-◌, Bool, true, false, Option, none, some, List, [], ◌∷◌, ◌++◌, if◌then◌else◌,
  ltb,
}
use nixos_homeserver.Base.Lists.{length, take, drop}
use nixos_homeserver.Minecraft.Varint.{varint, read_varint}

unfoldable pub send : List ℕ → List ℕ
send payload = varint (length payload) ++ payload

-- What is made of the bytes: a packet and the connection after it, an EOFError, or a loop that is not over
-- after the rounds it was given
pub data Reading : Type 0 where
  complete : List ℕ → List ℕ → Reading
  end_of_file : Reading
  no_rounds : Reading

module _ (size : List ℕ → ℕ) where
  -- How many bytes `recv` returns at most
  unfoldable pub chunk_size : ℕ → List ℕ → ℕ
  chunk_size asked conn = if ltb (size conn) asked then suc (size conn) else asked

  unfoldable pub recv : ℕ → List ℕ → List ℕ × List ℕ
  unfolding chunk_size
  recv asked conn = (take (chunk_size asked conn) conn, drop (chunk_size asked conn) conn)

  -- The rounds of the loop are at most the bytes of the connection and one more.
  unfoldable pub read_data : ℕ → ℕ → List ℕ → List ℕ → Reading
  unfolding recv
  read_data zero total received conn = no_rounds
  read_data (suc rounds) total received conn =
      if ltb (length received) total
      then (let (chunk, later) = recv (total - length received) conn in
          let next = read_data rounds total (received ++ chunk) later in
          elim chunk [ [] ↦ end_of_file | b ∷ bs ↦ next ])
      else complete received conn

  unfoldable pub read_packet : List ℕ → Reading
  unfolding read_data
  read_packet conn = elim (read_varint conn) [
    | none ↦ end_of_file
    | some (total, later) ↦ read_data (suc (length later)) total [] later
  ]
