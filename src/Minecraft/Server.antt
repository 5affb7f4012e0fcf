-- ===== src/Minecraft/Server.antt =====
-- `handle` of tests/fake-minecraft.py: what it sends on one connection, and how it ends.
-- Parameters: `size` of Minecraft/Packets; `count` and `sample`, the texts of COUNT_FILE and the JSON of SAMPLE_FILE when they are
-- read, or the exception (`sample` is none if the program has no second argument); `dumps`, which is json.dumps with the encoding.
-- Both may depend on how much was received before. The peer closes the connection behind its last byte.
pub mod Session
pub mod Ends
use nixos_homeserver.Base.{
  ℕ, zero, suc, ◌+◌, Bool, true, false, Option, none, some, List, [], ◌∷◌, ◌++◌, if◌then◌else◌,
  ◌==◌, nat_eq, Text, codes, ℤ, pos, int, Exception, Result, ok, err, ◌>>=◌, os_error,
}
use nixos_homeserver.Base.Lists.{length}
use nixos_homeserver.Base.Value.{
  Value, num, str, arr, obj, Items, nil, cons, Fields, end, field, iterate,
}
use nixos_homeserver.Minecraft.Varint.{varint}
use nixos_homeserver.Minecraft.Packets.{
  Reading, complete, end_of_file, no_rounds, send, read_packet,
}

-- `handle` returns, or a thread dies of an exception, IndexError for an empty packet, or one of the two
-- loops is not over after the rounds it was given.
pub data Ended : Type 0 where
  returned : Ended
  index_error : Ended
  died : Exception → Ended
  out_of_rounds : Ended

-- The bytes sent, and the end
pub record Served : Type 0 where
  pub sent : List ℕ
  pub ended : Ended

players : List Value → Items
players [] = nil
players (n ∷ names) =
    cons
      (obj (
        field (codes "name") n
          (field (codes "id") (str (codes "00000000-0000-0000-0000-000000000000")) end)))
      (players names)

module _ (count : List ℕ → Result Text) (sample : Option (List ℕ → Result Value))
    (dumps : Value → List ℕ) where
  -- `players["sample"] = …`, if there is a SAMPLE_FILE
  unfoldable pub sample_field : List ℕ → Result Fields
  unfolding players
  sample_field conn = elim sample [
    | none ↦ ok end
    | some load ↦ do
      loaded ← load conn
      names ← iterate loaded
      ok (field (codes "sample") (arr (players names)) end)
  ]

  -- The answer to a status request
  unfoldable pub status_packet : List ℕ → Result (List ℕ)
  unfolding sample_field
  status_packet conn = do
    text ← count conn
    online ← int text
    more ← sample_field conn
    let body = dumps (
        obj (
          field (codes "version")
            (obj (
              field (codes "name") (str (codes "fake 1.20.1"))
                (field (codes "protocol") (num (pos 763)) end)))
            (field (codes "players")
              (obj (field (codes "max") (num (pos 20)) (field (codes "online") (num online) more)))
              (field (codes "description") (obj (field (codes "text") (str (codes "test")) end))
                end))))
    ok (0 ∷ (varint (length body) ++ body))

  -- What is sent for a packet, before the connection `conn`
  unfoldable pub answer : List ℕ → List ℕ → Result (List ℕ)
  unfolding status_packet
  answer [] conn = ok []
  answer (c ∷ pkt) conn =
      if c == 0
      then (elim pkt [ [] ↦ status_packet conn >>= λ payload. ok (send payload) | _ ↦ ok [] ])
      else if c == 1
      then ok (send (c ∷ pkt))
      else ok []

-- `except (EOFError, OSError)`
unfoldable pub ended_by : Exception → Ended
ended_by os_error = returned
ended_by e = died e

-- An exception ends the loop, and after a reply come the next rounds.
abbrev pub answered : Result (List ℕ) → Served → Served
answered (err e) rest = record { sent = []; ended = ended_by e }
answered (ok reply) rest = record { sent = reply ++ rest.sent; ended = rest.ended }

module _ (size : List ℕ → ℕ) (count : List ℕ → Result Text)
    (sample : Option (List ℕ → Result Value)) (dumps : Value → List ℕ) where
  -- The rounds of the loop, of which one for each byte and one more are enough
  unfoldable pub handle_from : ℕ → List ℕ → Served
  unfolding answer ended_by
  handle_from zero conn = record { sent = []; ended = out_of_rounds }
  handle_from (suc rounds) conn = elim (read_packet size conn) [
    | no_rounds ↦ record { sent = []; ended = out_of_rounds }
    | end_of_file ↦ record { sent = []; ended = returned }
    | complete pkt later ↦ elim pkt [
      | [] ↦ record { sent = []; ended = index_error }
      | c ∷ bytes ↦
          answered (answer count sample dumps (c ∷ bytes) later) (handle_from rounds later)
    ]
  ]

  unfoldable pub handle : List ℕ → Served
  unfolding handle_from
  handle conn = handle_from (suc (length conn)) conn
