-- ===== src/Compose/Port/RoundTrip.antt =====
-- A port entry that is written in the short form is read back by `parse_port`.
use nixos_homeserver.Base.{
  ℕ, ◌≤◌, true, false, List, [], ◌∷◌, ◌++◌, ◌≡◌, ◌≢◌, ◌↔◌, refl, sym, ◌∙◌, arith, ==_of_ne, nat_eq,
  list_eq, int_eq, contains, Text, codes, starts_with, join, show, ℤ, pos, is_digit, range_to, ok,
  ok-injective,
}
use nixos_homeserver.Base.Lists.{All-append, append-eq-nil}
use nixos_homeserver.Base.Splitting.{
  Lacks, split_at, split_of_Lacks, partition_at, contains_of_Lacks,
}
use nixos_homeserver.Base.Integers.Decimal.{int-show, show-Digit, show-ne-nil, Digit-Lacks}
use nixos_homeserver.Base.Integers.Range.{contains-range_to}
use nixos_homeserver.Base.Value.{str}
use nixos_homeserver.Compose.Port.{
  port_range, has_variable, address_parts, host_ports, parse_text, parse_port,
}

-- `low-high` as the program's users write it
abbrev pub write_range : ℕ → ℕ → Text
write_range low high = show low ++ b'-' ∷ show high

-- `ip:low-high:container/protocol`
abbrev pub write_port : Text → ℕ → ℕ → Text → Text → Text
write_port ip low high container protocol =
    (ip ++ b':' ∷ (write_range low high ++ b':' ∷ container)) ++ b'/' ∷ protocol

-- A text with none of the characters by which an entry is taken apart.
abbrev pub Plain : Text → Type 0
Plain s = Lacks b'$' s × Lacks b'/' s × Lacks b':' s

-- A range that is written is read as the numbers from its first to its last.
pub port_range-write_range :
    (low high : ℕ) → port_range (write_range low high) ≡ ok (range_to (pos low) (pos high))
unfolding port_range codes
port_range-write_range low high = rw (
  partition_at (show low) (show high) b'-'
      (Digit-Lacks b'-' (show low) (unfold is_digit in refl) (show-Digit low)),
  int-show low,
  ==_of_ne (show-ne-nil high),
  int-show high,
)

write_range-Lacks :
    (c low high : ℕ) → is_digit c ≡ false → b'-' ≢ c → Lacks c (write_range low high)
write_range-Lacks c low high n d =
    All-append (λ e. e ≢ c) (show low) (b'-' ∷ show high)
      (Digit-Lacks c (show low) n (show-Digit low))
      (d, Digit-Lacks c (show high) n (show-Digit high))

write_range-ne-nil : (low high : ℕ) → write_range low high ≢ []
write_range-ne-nil low high e = show-ne-nil low (append-eq-nil (show low) _ e).0

-- The part of an entry before `/`
abbrev address : Text → Text → Text → Text
address ip ports container = ip ++ b':' ∷ (ports ++ b':' ∷ container)

not_bracketed :
    (ip s : Text)
    → starts_with ip (codes "[") ≡ false
    → starts_with (ip ++ b':' ∷ s) (codes "[") ≡ false
unfolding starts_with codes
not_bracketed [] s h = ground arith
not_bracketed (c ∷ ip) s h = ground arith

address_parts-address :
    (ip ports container : Text)
    → starts_with ip (codes "[") ≡ false
    → Lacks b':' ip
    → Lacks b':' ports
    → Lacks b':' container
    → address_parts (address ip ports container) ≡ (ip, ports ∷ container ∷ [])
unfolding address_parts
address_parts-address ip ports container h li lp lc =
    rw
      (
        not_bracketed ip _ h,
        split_at ip _ b':' li,
        split_at ports container b':' lp,
        split_of_Lacks container b':' lc,
      )
      (unfold join in refl)

address-Lacks :
    (c : ℕ) (ip ports container : Text)
    → b':' ≢ c
    → Lacks c ip
    → Lacks c ports
    → Lacks c container
    → Lacks c (address ip ports container)
address-Lacks c ip ports container n li lp lc =
    All-append (λ e. e ≢ c) ip _ li (n, All-append (λ e. e ≢ c) ports _ lp (n, lc))

-- The form `ip:low-high:container/protocol` of a port entry is read as its address, the host ports from
-- `low` to `high`, and its protocol, if address and container have none of `$`, `/`, `:`, the
-- address does not begin with `[`, and the protocol is not empty and has no `$`.
pub parse_port-write_port :
    (ip : Text) (low high : ℕ) (container protocol : Text)
    → Plain ip
    → starts_with ip (codes "[") ≡ false
    → Plain container
    → Lacks b'$' protocol
    → protocol ≢ []
    → parse_port (str (write_port ip low high container protocol))
      ≡ ok (record {
        host_ip = ip;
        published = range_to (pos low) (pos high);
        protocol = str protocol;
      })
unfolding parse_port parse_text has_variable host_ports codes
parse_port-write_port ip low high container protocol (i, i', i'') h (c, c', c'') p filled =
    let ports = write_range low high in
    let plain = contains_of_Lacks b'$' (write_port ip low high container protocol) (
      All-append (λ e. e ≢ b'$') (address ip ports container) (b'/' ∷ protocol)
        (address-Lacks b'$' ip ports container (omega arith) i
          (write_range-Lacks b'$' low high (unfold is_digit in refl) (omega arith)) c)
        ((omega arith), p)) in
    let slash = partition_at (address ip ports container) protocol b'/' (
      address-Lacks b'/' ip ports container (omega arith) i'
        (write_range-Lacks b'/' low high (unfold is_digit in refl) (omega arith)) c') in
    rw (
      plain,
      slash,
      address_parts-address ip ports container h i''
          (write_range-Lacks b':' low high (unfold is_digit in refl) (omega arith)) c'',
      ==_of_ne (write_range-ne-nil low high),
      port_range-write_range low high,
      ==_of_ne filled,
    )

-- A port is among those of a written range exactly when it lies between its ends.
pub contains-port_range :
    (low high port : ℕ) {ports : List ℤ}
    → port_range (write_range low high) ≡ ok ports
    → (contains ports (pos port) ≡ true) ↔ ((low ≤ port) × (port ≤ high))
contains-port_range low high port {ports} h =
    let same : range_to (pos low) (pos high) ≡ ports =
      ok-injective (sym (port_range-write_range low high) ∙ h) in
    let range = contains-range_to (pos low) (pos high) (pos port) in
    (
      λ m. let (l, u) = range.0 (rw same m) in (omega arith, omega arith),
      λ (l, u). rw (← same) (range.1 (omega arith, omega arith)),
    )
