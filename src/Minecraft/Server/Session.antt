-- ===== src/Minecraft/Server/Session.antt =====
-- A session with the stand-in server of tests/fake-minecraft.py, packet by packet.
use nixos_homeserver.Base.{
  ℕ, Option, List, [], ◌∷◌, ◌++◌, Text, Exception, os_error, Result, ok, err, ◌≡◌, ◌≢◌,
}
use nixos_homeserver.Base.Value.{Value}
use nixos_homeserver.Minecraft.Packets.{send}
use nixos_homeserver.Minecraft.Server.{Ended, returned, died, Served, status_packet, answered}

-- A packet that is not empty: its first byte, and the others
abbrev pub Packet : Type 0
Packet = ℕ × List ℕ

-- What a client sends
abbrev pub frames : List Packet → List ℕ
frames [] = []
frames ((c, bytes) ∷ ps) = send (c ∷ bytes) ++ frames ps

module _ (count : List ℕ → Result Text) (sample : Option (List ℕ → Result Value))
    (dumps : Value → List ℕ) where
  -- What the server sends for a packet, when so much was still to come: a status request is one zero byte, a packet
  -- that begins with one is sent back, and any other is passed over.
  pub data Replied : Packet → List ℕ → List ℕ → Type 0 where
    with_status :
        (later payload : List ℕ)
        → status_packet count sample dumps later ≡ ok payload
        → Replied (0, []) later (send payload)
    with_ping : (bytes later : List ℕ) → Replied (1, bytes) later (send (1 ∷ bytes))
    passed_over :
        (c : ℕ) (bytes later : List ℕ) → (c ≡ 0 → bytes ≢ []) → c ≢ 1 → Replied (c, bytes) later []

  -- A session: the packets, what the server sends, and how it ends. An exception in making the status ends it,
  -- for the caller without a trace if it is an OSError.
  pub data Session : List Packet → List ℕ → Ended → Type 0 where
    closed : Session [] [] returned
    next :
        {p : Packet} {ps : List Packet} {reply rest : List ℕ} {end : Ended}
        → Replied p (frames ps) reply
        → Session ps rest end
        → Session (p ∷ ps) (reply ++ rest) end
    unreadable :
        (ps : List Packet)
        → status_packet count sample dumps (frames ps) ≡ err os_error
        → Session ((0, []) ∷ ps) [] returned
    failed :
        (ps : List Packet) (e : Exception)
        → e ≢ os_error
        → status_packet count sample dumps (frames ps) ≡ err e
        → Session ((0, []) ∷ ps) [] (died e)

  abbrev AsSession : List Packet → Served → Type 0
  AsSession ps s = Session ps s.sent s.ended

  replied :
      (p : Packet) (ps : List Packet) (reply : List ℕ) (rest : Served)
      → Replied p (frames ps) reply
      → AsSession ps rest
      → AsSession (p ∷ ps) (answered (ok reply) rest)
  replied p ps reply rest r s = next r s
