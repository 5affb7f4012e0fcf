-- ===== src/Compose/PortRules/Accepts.antt =====
-- Which `ports:` entries `check_file` accepts, and which host ports it takes for public.
use nixos_homeserver.Base.{
  true, ◌&&◌, List, [], ◌∷◌, map, ◌≡◌, ◌≢◌, ◌↔◌, refl, ap, arith, ◌==◌, nat_eq, list_eq, int_eq,
  pair_eq, contains, Text, codes, ℤ, Result, ok, err, value_error, if◌then◌else◌, Bool-cases,
  if_neg, >>=-eq-ok, inl, inr,
}
use nixos_homeserver.Base.Lists.{All}
use nixos_homeserver.Base.Value.{Value, str, py_eq}
use nixos_homeserver.Compose.Port.{Port, parse_port}
use nixos_homeserver.Compose.PortRules.{
  Findings, nothing, collect, is_declared, publish, judge_port, judge_parsed, check_port,
}
use nixos_homeserver.Compose.PortRules.Collect.{Clean, collect-Clean, Clean-collect}

-- The stack declares this port, with this protocol.
abbrev pub Declared : List (ℤ × Text) → Value → ℤ → Type 0
Declared declared protocol port =
    (q : Text) × (protocol ≡ str q) × (contains declared (port, q) ≡ true)

-- The entry names a host address, none that means every IPv6 address; and if it publishes on every
-- IPv4 address, then on ports that it names itself, each declared by the stack.
abbrev pub PortOk : List (ℤ × Text) → Value → Type 0
PortOk declared entry =
    (p : Port) × (parse_port entry ≡ ok p)
    × (p.host_ip ≢ [])
    × (p.host_ip ≢ codes "::")
    × (p.host_ip ≢ codes "[::]")
    × (p.host_ip ≡ codes "0.0.0.0"
        → (p.published ≢ []) × All (Declared declared p.protocol) p.published)

abbrev published_by : Result Port → List (ℤ × Value)
published_by (ok p) =
    if p.host_ip == codes "0.0.0.0" then map (λ port. (port, p.protocol)) p.published else []
published_by (err e) = []

-- The ports that an entry opens on every IPv4 address.
abbrev pub opens : Value → List (ℤ × Value)
opens entry = published_by (parse_port entry)

py_eq-str : (v : Value) (t : Text) → py_eq v (str t) ≡ true → v ≡ str t
unfolding py_eq
py_eq-str (str s) t h = ground arith
py_eq-str _ t h = cc

py_eq-str_self : (t : Text) → py_eq (str t) (str t) ≡ true
unfolding py_eq
py_eq-str_self t = ground arith

module _ (port : ℤ) (protocol : Value) where
  is_declared-Declared :
      (declared : List (ℤ × Text))
      → is_declared declared port protocol ≡ true
      → Declared declared protocol port
  unfolding is_declared
  is_declared-Declared [] h = cc
  is_declared-Declared ((n, q) ∷ ds) h = elim (Bool-cases (port == n && py_eq protocol (str q))) [
    | inl t ↦ (q, py_eq-str protocol q (ground arith), ground arith)
    | inr f ↦ let (r, e, m) = is_declared-Declared ds (ground arith) in (r, e, ground arith)
  ]

  Declared-is_declared :
      (declared : List (ℤ × Text))
      → Declared declared protocol port
      → is_declared declared port protocol ≡ true
  unfolding is_declared
  Declared-is_declared [] (q, e, m) = cc
  Declared-is_declared ((n, t) ∷ ds) (q, e, m) = elim (pair_eq.dec (port, q) (n, t)) [
    | yes both ↦ ground (arith, py_eq-str_self t, ap (λ x. x.0) both, ap (λ x. x.1) both)
    | no differ ↦ ground (arith, Declared-is_declared ds (q, e, rw (if_neg _ differ) at m))
  ]

all_interfaces-ne :
    (codes "0.0.0.0" ≢ []) × (codes "0.0.0.0" ≢ codes "::") × (codes "0.0.0.0" ≢ codes "[::]")
unfolding codes
all_interfaces-ne = (λ e. cc, λ e. cc, λ e. cc)

module _ (name where_ : Text) (declared : List (ℤ × Text)) (entry : Value) where
  Clean-publish :
      (ip : Text) (protocol : Value) (ports : List ℤ)
      → All (Clean (publish name where_ declared entry ip protocol)) ports
      → All (Declared declared protocol) ports
  unfolding publish
  Clean-publish ip protocol [] h = tt
  Clean-publish ip protocol (port ∷ ports) ((g, p, e), h) = (
    is_declared-Declared port protocol declared (ground arith),
    Clean-publish ip protocol ports h,
  )

  publish-Clean :
      (ip : Text) (protocol : Value) (ports : List ℤ)
      → All (Declared declared protocol) ports
      → All (Clean (publish name where_ declared entry ip protocol)) ports
  unfolding publish
  publish-Clean ip protocol [] h = tt
  publish-Clean ip protocol (port ∷ ports) ((q, e, m), h) = (
    (
      record { problems = []; public = (port, protocol) ∷ [] },
      ground (arith, Declared-is_declared port protocol declared (q, e, m)),
      refl,
    ),
    publish-Clean ip protocol ports h,
  )

  public-publish_one :
      (ip : Text) (protocol : Value) (port : ℤ) (here : Findings)
      → publish name where_ declared entry ip protocol port ≡ ok here
      → here.public ≡ (port, protocol) ∷ []
  unfolding publish
  public-publish_one ip protocol port here p = ground arith

  public-publish :
      (ip : Text) (protocol : Value) (ports : List ℤ) (r : Findings)
      → collect (publish name where_ declared entry ip protocol) ports ≡ ok r
      → r.public ≡ map (λ port. (port, protocol)) ports
  unfolding collect
  public-publish ip protocol [] r h = ground arith
  public-publish ip protocol (port ∷ ports) r h =
      let f = publish name where_ declared entry ip protocol in
      let (here, p, h') = >>=-eq-ok (f port) _ h in
      let (rest, q, h'') = >>=-eq-ok (collect f ports) _ h' in
      ground
        (arith, public-publish_one ip protocol port here p, public-publish ip protocol ports rest q)

  judge_port-PortOk :
      (p : Port) (f : Findings)
      → parse_port entry ≡ ok p
      → judge_port name where_ declared entry p ≡ ok f
      → f.problems ≡ []
      → PortOk declared entry
  unfolding judge_port
  judge_port-PortOk p f parsed h e = (
    p,
    parsed,
    ground arith,
    ground arith,
    ground arith,
    λ public. (
      ground (arith, all_interfaces-ne),
      Clean-publish p.host_ip p.protocol p.published (
          collect-Clean (publish name where_ declared entry p.host_ip p.protocol) p.published f
            (ground (arith, all_interfaces-ne)) e),
    ),
  )

  judge_parsed-PortOk :
      (r : Result Port) (f : Findings)
      → parse_port entry ≡ r
      → judge_parsed name where_ declared entry r ≡ ok f
      → f.problems ≡ []
      → PortOk declared entry
  unfolding judge_parsed
  judge_parsed-PortOk (ok p) f parsed h e = judge_port-PortOk p f parsed h e
  judge_parsed-PortOk (err value_error) f parsed h e = ground arith
  judge_parsed-PortOk (err _) f parsed h e = ground arith

  -- An entry in which no problem is found meets `PortOk`.
  pub check_port-PortOk : Clean (check_port name where_ declared) entry → PortOk declared entry
  unfolding check_port
  check_port-PortOk (f, h, e) = judge_parsed-PortOk (parse_port entry) f refl h e

  -- An entry that meets `PortOk` is checked without an exception, and no problem is found.
  pub PortOk-check_port : PortOk declared entry → Clean (check_port name where_ declared) entry
  unfolding check_port judge_port
  PortOk-check_port (p, h, named, six, six', four) =
      elim (list_eq.dec p.host_ip (codes "0.0.0.0")) [
        | yes public ↦
            let (some_port, declared_all) = four public in
            let f = publish name where_ declared entry p.host_ip p.protocol in
            let (r, q, e) =
              Clean-collect f p.published
                (publish-Clean p.host_ip p.protocol p.published declared_all) in
            (r, rw h (ground arith), e)
        | no private ↦ (nothing, rw h (ground arith), refl)
      ]

  public-judge_parsed :
      (r : Result Port) (f : Findings)
      → judge_parsed name where_ declared entry r ≡ ok f
      → f.public ≡ published_by r
  unfolding judge_parsed
  public-judge_parsed (ok p) f h =
      ground (arith, all_interfaces-ne, public-publish p.host_ip p.protocol p.published f)
  public-judge_parsed (err value_error) f h = ground arith
  public-judge_parsed (err _) f h = ground arith

  -- Of an entry that is checked without an exception, the public ports are those that it opens.
  pub public-check_port :
      (f : Findings) → check_port name where_ declared entry ≡ ok f → f.public ≡ opens entry
  unfolding check_port
  public-check_port f h = public-judge_parsed (parse_port entry) f h

  -- An entry is checked without an exception and without a problem exactly when it meets `PortOk`:
  -- it is read, it names a host address other than `::` and `[::]`, and if that is `0.0.0.0` then it
  -- names its host ports, and the stack declares each of them with the entry's protocol.
  pub check_port_accepts : Clean (check_port name where_ declared) entry ↔ PortOk declared entry
  check_port_accepts = (check_port-PortOk, PortOk-check_port)
