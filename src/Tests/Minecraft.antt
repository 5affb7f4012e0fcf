-- ===== src/Tests/Minecraft.antt =====
-- The theorems on tests/fake-minecraft.py at concrete inputs.
use nixos_homeserver.Base.{ℕ, none, some, List, [], ◌∷◌, ◌++◌, Text, codes, Result, ok, ◌≡◌, ◌≢◌}
use nixos_homeserver.Base.Value.{Value}
use nixos_homeserver.Minecraft.Varint.{varint, read_varint}
use nixos_homeserver.Minecraft.Varint.RoundTrip.{read_varint-varint}
use nixos_homeserver.Minecraft.Packets.{complete, send, read_packet}
use nixos_homeserver.Minecraft.Packets.Framed.{read_packet-send}
use nixos_homeserver.Minecraft.Server.{out_of_rounds, handle}
use nixos_homeserver.Minecraft.Server.Session.{Packet, Session}
use nixos_homeserver.Minecraft.Server.Ends.{handle-Ends}

-- Pieces of one or two bytes
abbrev pieces : List ℕ → ℕ
pieces [] = 0
pieces (b ∷ conn) = b

abbrev count : List ℕ → Result Text
count conn = ok (codes "3\n")

abbrev dumps : Value → List ℕ
dumps v = codes "{}"

-- The start of a connection, a status request and a ping
abbrev packets : List Packet
packets = (0, 47 ∷ 1 ∷ []) ∷ (0, []) ∷ (1, 7 ∷ 8 ∷ []) ∷ []

read_varint-varint_example : read_varint (varint 25565 ++ 1 ∷ []) ≡ some (25565, 1 ∷ [])
read_varint-varint_example = read_varint-varint 25565 (1 ∷ [])

read_packet-send_example :
    read_packet pieces (send (1 ∷ 7 ∷ 8 ∷ []) ++ 0 ∷ []) ≡ complete (1 ∷ 7 ∷ 8 ∷ []) (0 ∷ [])
read_packet-send_example = read_packet-send pieces (1 ∷ 7 ∷ 8 ∷ []) (0 ∷ [])

handle-Ends_example : (handle pieces count none dumps (3 ∷ 1 ∷ 7 ∷ [])).ended ≢ out_of_rounds
handle-Ends_example = handle-Ends pieces count none dumps (3 ∷ 1 ∷ 7 ∷ [])
