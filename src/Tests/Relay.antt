-- ===== src/Tests/Relay.antt =====
-- Runs of the model of modules/observability/alert-relay.py, and its theorems at concrete inputs.
use nixos_homeserver.Base.{
  ℕ, ◌≤◌, ◌<◌, ◌+◌, ◌*◌, Bool, true, false, Option, some, List, [], ◌∷◌, ◌≡◌, refl, arith, String,
  Text, codes, ℤ, pos, Exception, Result, ok, nat_eq, list_eq, int_eq, int, show, join, for_each,
  ◌>>=◌, ◌==◌, leb, if◌then◌else◌, ◌&&◌,
}
use nixos_homeserver.Base.Dict.{lookup}
use nixos_homeserver.Base.Value.{
  Value, str, arr, obj, nil, cons, end, field, py_eq, str_of, truthy, or_else, get, iterate,
}
use nixos_homeserver.Relay.Lasted.{
  fits, span_digits, six_digits, readable_time, parse_time, seconds, nearest, fraction_bits,
  parts_of, show_parts, how_long,
}
use nixos_homeserver.Relay.Lasted.Parts.{parts_of-sum, seconds-near}
use nixos_homeserver.Relay.Messages.{
  Message, firing_icon, resolved_icon, alert_name, is_resolved, with_lasted, alerts_of, message,
  all_messages, messages,
}
use nixos_homeserver.Relay.Posts.{
  Call, Sent, exited, raised, Trace, call_of, log_of, stopped, after_call, encoded, post_input,
  post_one, post_all, posts, handle, status_of, status_for, reply, answer, do_post,
}
use nixos_homeserver.Relay.Posts.Complete.{Delivered, do_post-Delivered}
use nixos_homeserver.Relay.Posts.Attempts.{Attempted, handle-Attempted}
use nixos_homeserver.Relay.Posts.Pings.{Pings, handle-Pings}
use nixos_homeserver.Relay.Posts.Rejected.{Bad, do_post-Bad}
use nixos_homeserver.Base.{◌↔◌}

abbrev text : String → Value
text s = str (codes s)

abbrev firing : Value
firing = obj (
    field (codes "labels") (obj (field (codes "alertname") (text "DiskFull") end)) (
      field (codes "annotations") (obj (field (codes "summary") (text "disk is full") end))
        (field (codes "status") (text "firing") end)))

abbrev over : Value
over = obj (
    field (codes "status") (text "resolved") (
      field (codes "startsAt") (text "2026-10-21T10:00:00.5Z")
        (field (codes "endsAt") (text "2026-10-22T11:02:03Z") end)))

abbrev payload : Value
payload = obj (field (codes "alerts") (arr (cons firing (cons over nil))) end)

abbrev the_alerts : List Value
the_alerts = firing ∷ over ∷ []

-- The instants of the two times, in microseconds from the first whole second
abbrev instant : Text → Option ℤ
instant s =
    if s == codes "2026-10-21T10:00:00.500000+00:00"
    then some (pos 500000)
    else some (pos 90123000000)

is_ascii_digit : ℕ → Bool
is_ascii_digit c = leb b'0' c && leb c b'9'

lasts : Value → Result Text
unfolding how_long parse_time readable_time fits span_digits six_digits seconds nearest
    fraction_bits parts_of show_parts is_ascii_digit get lookup show join codes nat_eq list_eq
lasts = how_long is_ascii_digit instant

-- 90122.5 seconds are rounded to the even number.
lasts_run : lasts over ≡ ok (codes "1 d 1 h 2 min")
unfolding lasts
lasts_run = refl

abbrev all_fine : ℕ → Call → Sent
all_fine n c = exited (pos 0)

-- The first post of a request fails.
abbrev first_fails : ℕ → Call → Sent
first_fails n c = if n == 0 then exited (pos 1) else exited (pos 0)

abbrev took : ℕ → Text
took n = codes "0.1 s"

-- The model with everything open that it runs through
relay : (ℕ → Call → Sent) → Value → Trace (Option ℕ)
unfolding status_for status_of handle posts post_all post_one post_input encoded stopped after_call
    log_of call_of messages all_messages message alerts_of with_lasted is_resolved alert_name
    firing_icon resolved_icon lasts int_eq str_of truthy or_else iterate py_eq for_each
relay sends = status_for lasts sends took (codes "/hook") (codes "/role") (codes "nuc")

abbrev the_messages : List Message
the_messages =
    record { icon = codes "🔴"; title = codes "nuc: disk is full"; body = str []; ping = true }
    ∷ record {
      icon = codes "✅";
      title = codes "nuc: resolved: alert";
      body = str (codes "Lasted 1 d 1 h 2 min.");
      ping = false;
    }
    ∷ []

messages_run : messages lasts (codes "nuc") payload ≡ ok the_messages
unfolding relay
messages_run = refl

-- Every alert is posted although the first post fails, and the reply asks for another try.
failing_run : (relay first_fails payload).outcome ≡ some 500
unfolding relay
failing_run = refl

abbrev read_json : ℤ → Result Value
read_json n = ok payload

do_post-Delivered_example :
    (body : Value) × (ms : List Message) × ((int (codes "1") >>= read_json) ≡ ok body)
    × (messages lasts (codes "nuc") body ≡ ok ms)
    × Delivered lasts all_fine took
        (codes "/hook")
        (codes "/role")
        (codes "nuc")
        0
        ms
        (do_post lasts all_fine took
          (codes "/hook")
          (codes "/role")
          (codes "nuc")
          (some (codes "1"))
          read_json).calls
do_post-Delivered_example =
    do_post-Delivered lasts all_fine took (codes "/hook") (codes "/role") (codes "nuc")
      (some (codes "1")) read_json (unfold relay do_post answer reply int in refl)

handle-Attempted_example :
    Attempted lasts first_fails took
      (codes "/hook")
      (codes "/role")
      (codes "nuc")
      the_messages
      (handle lasts first_fails took (codes "/hook") (codes "/role") (codes "nuc") payload).calls
    × ((all_sent : Bool) × ((handle lasts first_fails took
            (codes "/hook")
            (codes "/role")
            (codes "nuc")
            payload).outcome
          ≡ ok all_sent))
handle-Attempted_example =
    handle-Attempted lasts first_fails took (codes "/hook") (codes "/role") (codes "nuc")
      (λ n c e h. never n h) payload the_messages messages_run
      ((_, refl, unfold encoded in refl), ((_, refl, unfold encoded codes in refl), tt))
  where
    never :
        (n : ℕ) {e : Exception} → (if n == 0 then exited (pos 1) else exited (pos 0)) ≡ raised e → ⊥
    never n h = ground arith

handle-Pings_example :
    Pings lasts first_fails took
      (codes "/hook")
      (codes "/role")
      (codes "nuc")
      (handle lasts first_fails took (codes "/hook") (codes "/role") (codes "nuc") payload).calls
      the_alerts
handle-Pings_example =
    handle-Pings lasts first_fails took (codes "/hook") (codes "/role") (codes "nuc") payload
      (unfold alerts_of get lookup iterate codes list_eq nat_eq in refl)

parts_of-sum_example :
    let (days, hours, mins, rest) = parts_of 90122 in
    (days * 86400 + hours * 3600 + mins * 60 + rest ≡ 90122)
    × (hours < 24)
    × (mins < 60)
    × (rest < 60)
parts_of-sum_example = parts_of-sum 90122

seconds-near_example :
    (seconds 90122500000 * 1000000 ≤ 90122500000 + 500000)
    × (90122500000 ≤ seconds 90122500000 * 1000000 + 500000)
seconds-near_example = seconds-near 90122500000 (omega arith)

-- A body that is a list
do_post-Bad_example :
    (((do_post lasts all_fine took
          (codes "/hook")
          (codes "/role")
          (codes "nuc")
          (some (codes "2"))
          (λ n. ok (arr nil))).outcome
        ≡ some 400)
      ↔ Bad (int (codes "2") >>= (λ n. ok (arr nil))))
    × (Bad (int (codes "2") >>= (λ n. ok (arr nil)))
        → (do_post lasts all_fine took
            (codes "/hook")
            (codes "/role")
            (codes "nuc")
            (some (codes "2"))
            (λ n. ok (arr nil))).calls
          ≡ [])
do_post-Bad_example =
    do_post-Bad lasts all_fine took (codes "/hook") (codes "/role") (codes "nuc") (some (codes "2"))
      (λ n. ok (arr nil))
