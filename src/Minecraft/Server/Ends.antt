-- ===== src/Minecraft/Server/Ends.antt =====
-- The loops of tests/fake-minecraft.py end: each round takes a byte at least from the connection.
use nixos_homeserver.Base.{
  ℕ, zero, suc, ◌+◌, ◌-◌, ◌*◌, ◌%◌, ◌^◌, ◌<◌, ◌≤◌, Option, some, List, [], ◌∷◌, ◌++◌, ltb, Text,
  Exception, value_error, type_error, key_error, attribute_error, os_error, http_exception, Result,
  ok, err, ◌≡◌, ◌≢◌, ◌⊎◌, refl, subst, sym, ap, arith, inl, inr, Bool-cases, Option-cases,
  some-injective,
}
use nixos_homeserver.Base.Lists.{length, take, drop}
use nixos_homeserver.Base.Value.{Value}
use nixos_homeserver.Minecraft.Varint.{read_varint_from, read_varint}
use nixos_homeserver.Minecraft.Packets.{
  Reading, complete, end_of_file, no_rounds, recv, read_data, read_packet,
}
use nixos_homeserver.Minecraft.Server.{
  out_of_rounds, Served, answer, answered, ended_by, handle_from, handle,
}

behind {ℓ κ} :
    {A : Type ℓ} {B : Type κ} {a c : A} {b d : B}
    → Path (Option (A × B)) (some (a, b)) (some (c, d))
    → d ≡ b
behind e = sym (ap (λ p. p.1) (some-injective _ _ e))

read_varint_from-shorter :
    (n shift : ℕ) (conn : List ℕ) {m : ℕ} {later : List ℕ}
    → read_varint_from n shift conn ≡ some (m, later)
    → length later < length conn
unfolding read_varint_from
read_varint_from-shorter n shift [] e = cc
read_varint_from-shorter n shift (b ∷ rest) {m} {later} e = elim (Bool-cases (ltb b 128)) [
  | inl last ↦ omega (arith, ap length (behind (rw last at e)))
  | inr more ↦
      omega
        (arith, read_varint_from-shorter (n + b % 128 * 2 ^ shift) (shift + 7) rest (rw more at e))
]

length-drop : (k : ℕ) (conn : List ℕ) → length (drop k conn) ≤ length conn
length-drop zero conn = omega arith
length-drop (suc k) [] = omega arith
length-drop (suc k) (b ∷ conn) = omega (arith, length-drop k conn)

-- Of the bytes of this connection, what follows a packet are not more, and the loop that read it was over.
abbrev Within : List ℕ → Reading → Type 0
Within conn (complete pkt later) = length later ≤ length conn
Within conn end_of_file = Unit
Within conn no_rounds = ⊥

Within-≤ :
    (conn left : List ℕ) (r : Reading) → length left ≤ length conn → Within left r → Within conn r
Within-≤ conn left (complete pkt later) h w = omega arith
Within-≤ conn left end_of_file h w = tt
Within-≤ conn left no_rounds h w = w

-- With a byte less, at least
abbrev Shorter : List ℕ → Reading → Type 0
Shorter conn (complete pkt later) = length later < length conn
Shorter conn end_of_file = Unit
Shorter conn no_rounds = ⊥

Shorter-Within :
    (conn left : List ℕ) (r : Reading) → length left < length conn → Within left r → Shorter conn r
Shorter-Within conn left (complete pkt later) h w = omega arith
Shorter-Within conn left end_of_file h w = tt
Shorter-Within conn left no_rounds h w = w

Reading-cases :
    (r : Reading)
    → (r ≡ end_of_file) ⊎ ((r ≡ no_rounds) ⊎ ((pkt later : List ℕ) × (r ≡ complete pkt later)))
Reading-cases (complete pkt later) = inr (inr (pkt, later, refl))
Reading-cases end_of_file = inl refl
Reading-cases no_rounds = inr (inl refl)

length-drop_of_take :
    (k : ℕ) (conn : List ℕ) {b : ℕ} {bs : List ℕ}
    → take k conn ≡ b ∷ bs
    → length (drop k conn) < length conn
length-drop_of_take zero conn e = cc
length-drop_of_take (suc k) [] e = cc
length-drop_of_take (suc k) (c ∷ conn) e = omega (arith, length-drop k conn)

-- The rounds that follow a `recv`
received_more :
    (r : List ℕ × List ℕ) (conn received : List ℕ) (next : List ℕ → List ℕ → Reading)
    → ((b : ℕ) (bs : List ℕ) → r.0 ≡ b ∷ bs → length r.1 < length conn)
    → ((got left : List ℕ) → length left < length conn → Within left (next got left))
    → Within conn (elim r.0 [ [] ↦ end_of_file | b ∷ bs ↦ next (received ++ r.0) r.1 ])
received_more ([], left) conn received next h more = tt
received_more (b ∷ bs, left) conn received next h more =
    let fewer : length left < length conn = h b bs refl in
    Within-≤ conn left (next (received ++ b ∷ bs) left) (omega arith)
      (more (received ++ b ∷ bs) left fewer)

ended_by-Ends : (e : Exception) → ended_by e ≢ out_of_rounds
unfolding ended_by
ended_by-Ends value_error = λ h. cc
ended_by-Ends type_error = λ h. cc
ended_by-Ends key_error = λ h. cc
ended_by-Ends attribute_error = λ h. cc
ended_by-Ends os_error = λ h. cc
ended_by-Ends http_exception = λ h. cc

answered_ends :
    (r : Result (List ℕ)) (rest : Served)
    → rest.ended ≢ out_of_rounds
    → (answered r rest).ended ≢ out_of_rounds
answered_ends (err e) rest h = ended_by-Ends e
answered_ends (ok reply) rest h = h

module _ (size : List ℕ → ℕ) where
  length-recv :
      (asked : ℕ) (conn : List ℕ) {b : ℕ} {bs : List ℕ}
      → (recv size asked conn).0 ≡ b ∷ bs
      → length (recv size asked conn).1 < length conn
  unfolding recv
  length-recv asked conn e = length-drop_of_take _ conn e

  -- Each round takes a byte at least, so the loop is over before its rounds are.
  read_data-Within :
      (rounds total : ℕ) (received conn : List ℕ)
      → length conn < rounds
      → Within conn (read_data size rounds total received conn)
  unfolding read_data
  read_data-Within zero total received conn h = absurd (omega arith)
  read_data-Within (suc rounds) total received conn h =
      elim (Bool-cases (ltb (length received) total)) [
        | inr enough ↦ rw enough (omega arith)
        | inl more ↦ rw more (
            received_more (recv size (total - length received) conn) conn received
              (read_data size rounds total) (λ b bs e. length-recv (total - length received) conn e)
              (λ got left fewer. read_data-Within rounds total got left (omega arith)))
      ]

  read_packet-Within : (conn : List ℕ) {r : Reading} → read_packet size conn ≡ r → Shorter conn r
  unfolding read_packet read_varint
  read_packet-Within conn e = elim (Option-cases (read_varint conn)) [
    | inl h ↦ subst (Shorter conn) (rw (h, read_packet) at e) tt
    | inr ((total, rest), h) ↦ subst (Shorter conn) (rw (h, read_packet) at e) (
        Shorter-Within conn rest _ (read_varint_from-shorter 0 0 conn h)
          (read_data-Within (suc (length rest)) total [] rest (omega arith)))
  ]

  module _ (count : List ℕ → Result Text) (sample : Option (List ℕ → Result Value))
      (dumps : Value → List ℕ) where
    handle_from-Ends :
        (rounds : ℕ) (conn : List ℕ)
        → length conn < rounds
        → (handle_from size count sample dumps rounds conn).ended ≢ out_of_rounds
    unfolding handle_from
    handle_from-Ends zero conn h = absurd (omega arith)
    handle_from-Ends (suc rounds) conn h = elim (Reading-cases (read_packet size conn)) [
      | inl e ↦ rw (e, handle_from) (λ x. cc)
      | inr (inl e) ↦ absurd (read_packet-Within conn e)
      | inr (inr ([], later, e)) ↦ rw (e, handle_from) (λ x. cc)
      | inr (inr (c ∷ pkt, later, e)) ↦
          rw (e, handle_from)
            (answered_ends (answer count sample dumps (c ∷ pkt) later)
              (handle_from size count sample dumps rounds later)
              (handle_from-Ends rounds later (ended_sooner later (read_packet-Within conn e))))
    ]
      where
        ended_sooner : (later : List ℕ) → length later < length conn → length later < rounds
        ended_sooner later k = omega arith

    -- On any bytes the loops of the server end, that of `read_packet` too: with the connection, or by an exception.
    pub handle-Ends : (conn : List ℕ) → (handle size count sample dumps conn).ended ≢ out_of_rounds
    unfolding handle
    handle-Ends conn = handle_from-Ends (suc (length conn)) conn (omega arith)
