-- ===== src/Relay/Lasted.antt =====
-- `parse_time` and `how_long` of modules/observability/alert-relay.py.
-- Parameters: `digit`, the characters that \d matches; `fromisoformat`, the instant in microseconds that
-- `datetime.fromisoformat` reads, or `none` for its ValueError.
pub mod Parts
use nixos_homeserver.Base.{
  ℕ, zero, suc, ◌+◌, ◌-◌, ◌*◌, ◌/◌, ◌%◌, ◌^◌, Bool, true, false, ◌&&◌, ◌||◌, Option, none, some,
  List, [], ◌∷◌, ◌++◌, if◌then◌else◌, ltb, ◌==◌, nat_eq, list_eq, Text, codes, show, join, ℤ,
  pos_part, neg_part, leb_ℤ, Result, ok, err, ◌>>=◌, type_error,
}
use nixos_homeserver.Base.Lists.{length, take, drop}
use nixos_homeserver.Base.Value.{Value, str, get, or_default}

-- `(frac or "0")[:6].ljust(6, "0")`
unfoldable pub six_digits : Text → Text
six_digits frac =
    let six = take 6 (if frac == [] then codes "0" else frac) in
    six ++ take (6 - length six) (codes "000000")

-- `f"{n} {u}"` for each of the numbers that is not zero
part : ℕ → Text → List Text
part n unit = if n == 0 then [] else (show n ++ codes " " ++ unit) ∷ []

-- The integer nearest to a quotient, and the even one of two
unfoldable pub nearest : ℕ → ℕ → ℕ
nearest n d =
    if ltb (2 * (n % d)) d
    then n / d
    else if ltb d (2 * (n % d))
    then n / d + 1
    else n / d + n / d % 2

-- How many binary digits behind the point the float has that is nearest to so many millionths: its 53 digits
-- less those before the point, and 52 at most
unfoldable pub fraction_bits : ℕ → ℕ → ℕ
fraction_bits zero us = 0
fraction_bits (suc k) us =
    let fewer = fraction_bits k us in if ltb us (2 ^ (52 - k) * 1000000) then suc k else fewer

-- `round(td.total_seconds())`: the quotient is rounded to a float, and that to an integer. Times that
-- datetime has are less than 2^39 seconds apart.
unfoldable pub seconds : ℕ → ℕ
unfolding nearest fraction_bits
seconds us = let ones = 2 ^ fraction_bits 52 us in nearest (nearest (us * ones) 1000000) ones

-- Days, hours, minutes and seconds, as the three calls of `divmod` give them
unfoldable pub parts_of : ℕ → ℕ × ℕ × ℕ × ℕ
parts_of secs =
    let day_rest = secs % 86400 in
    let hour_rest = day_rest % 3600 in
    (secs / 86400, day_rest / 3600, hour_rest / 60, hour_rest % 60)

unfoldable pub show_parts : ℕ × ℕ × ℕ × ℕ → Text
unfolding part
show_parts (days, hours, mins, secs) =
    let parts = part days (codes "d") ++ (part hours (codes "h") ++ part mins (codes "min")) in
    if parts == [] then show secs ++ codes " s" else join (codes " ") parts

module _ (digit : ℕ → Bool) where
  -- A match of a text as a whole with a pattern in which `d` stands for a digit
  unfoldable pub fits : Text → Text → Bool
  fits [] [] = true
  fits (p ∷ pattern) (c ∷ s) = (if p == b'd' then digit c else c == p) && fits pattern s
  fits _ _ = false

  -- The digits at the start of a text, and what follows them
  unfoldable pub span_digits : Text → Text × Text
  span_digits [] = ([], [])
  span_digits (c ∷ s) =
      let rest = span_digits s in if digit c then (c ∷ rest.0, rest.1) else ([], c ∷ s)

  is_zone : Text → Bool
  unfolding fits
  is_zone zone = zone == codes "Z" || fits (codes "+dd:dd") zone || fits (codes "-dd:dd") zone

  -- `(?:\.(\d+))?(Z|[+-]\d\d:\d\d)`: the fraction, which is empty if there is none, and the zone
  after_base : Text → Option (Text × Text)
  unfolding span_digits is_zone
  after_base [] = none
  after_base (c ∷ s) =
      let (frac, zone) = span_digits s in
      if c == b'.'
      then (if ltb 0 (length frac) && is_zone zone then some (frac, zone) else none)
      else if is_zone (c ∷ s)
      then some ([], c ∷ s)
      else none

  -- What `parse_time` gives to `datetime.fromisoformat`
  normal_time : Text → Option (Text × Text) → Option Text
  unfolding six_digits
  normal_time base none = none
  normal_time base (some (frac, zone)) =
      some (
        base
        ++ codes "."
        ++ six_digits frac
        ++ (if zone == codes "Z" then codes "+00:00" else zone))

  unfoldable pub readable_time : Text → Option Text
  unfolding fits after_base normal_time
  readable_time s =
      if fits (codes "dddd-dd-ddTdd:dd:dd") (take 19 s)
      then normal_time (take 19 s) (after_base (drop 19 s))
      else none

  module _ (fromisoformat : Text → Option ℤ) where
    unfoldable pub parse_time : Text → Option ℤ
    parse_time s = elim (readable_time s) [ none ↦ none | some t ↦ fromisoformat t ]

    -- `re.fullmatch` takes a text only.
    time_of : Value → Result (Option ℤ)
    time_of (str s) = ok (parse_time s)
    time_of _ = err type_error

    lasted : Option ℤ → Option ℤ → Text
    unfolding seconds parts_of show_parts
    lasted (some start) (some end) =
        if leb_ℤ start end
        then show_parts
            (parts_of (seconds ((pos_part end + neg_part start) - (pos_part start + neg_part end))))
        else []
    lasted _ _ = []

    unfoldable pub how_long : Value → Result Text
    unfolding time_of lasted
    how_long a = do
      starts ← get a (codes "startsAt")
      start ← time_of (or_default starts (str []))
      ends ← get a (codes "endsAt")
      end ← time_of (or_default ends (str []))
      ok (lasted start end)
