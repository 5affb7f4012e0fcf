-- ===== src/Relay/Messages.antt =====
-- `messages` of modules/observability/alert-relay.py. Parameter: how_long.
pub mod Alerts
use nixos_homeserver.Base.{
  Bool, true, false, List, [], ◌∷◌, ◌++◌, if◌then◌else◌, ◌==◌, nat_eq, list_eq, Text, codes, Result,
  ok, err, ◌>>=◌, for_each,
}
use nixos_homeserver.Base.Value.{
  Value, str, arr, obj, nil, end, py_eq, truthy, or_else, get, or_null, or_default, iterate, str_of,
}

-- (icon, title, body, ping). The body is what the alert holds for its description.
pub record Message : Type 0 where
  pub icon : Text
  pub title : Text
  pub body : Value
  pub ping : Bool

unfoldable pub firing_icon : Text
firing_icon = codes "🔴"

unfoldable pub resolved_icon : Text
resolved_icon = codes "✅"

-- `(a.get("labels") or {}).get("alertname", "alert")`
unfoldable pub alert_name : Value → Result Value
alert_name a = do
  labels ← get a (codes "labels")
  name ← get (or_else (or_null labels) (obj end)) (codes "alertname")
  ok (or_default name (str (codes "alert")))

-- `a.get("status") == "resolved"`
unfoldable pub is_resolved : Value → Result Bool
is_resolved a = do
  status ← get a (codes "status")
  ok (py_eq (or_null status) (str (codes "resolved")))

-- The body of a resolved alert, with how long it lasted
unfoldable pub with_lasted : Value → Text → Value
with_lasted body lasted =
    let note = codes "Lasted " ++ lasted ++ codes "." in
    if lasted == [] then body else if truthy body then str (str_of body ++ 10 ∷ note) else str note

-- `payload.get("alerts", [])`, as the loops run through it
unfoldable pub alerts_of : Value → Result (List Value)
alerts_of payload = do alerts ← get payload (codes "alerts"); iterate (or_default alerts (arr nil))

module _ (how_long : Value → Result Text) (host : Text) where
  -- A round of the loop: the message of one alert
  unfoldable pub message : Value → Result Message
  message a = do
    annotations ← get a (codes "annotations")
    let ann = or_else (or_null annotations) (obj end)
    name ← alert_name a
    written ← get ann (codes "summary")
    let summary = or_else (or_null written) name
    described ← get ann (codes "description")
    let body = or_default described (str [])
    resolved ← is_resolved a
    elim resolved [
      | true ↦ do
        lasted ← how_long a
        ok (record {
          icon = resolved_icon;
          title = host ++ codes ": resolved: " ++ str_of summary;
          body = with_lasted body lasted;
          ping = false;
        })
      | false ↦ ok (record {
        icon = firing_icon;
        title = host ++ codes ": " ++ str_of summary;
        body = body;
        ping = true;
      })
    ]

  unfoldable pub all_messages : List Value → Result (List Message)
  all_messages alerts = for_each (λ a. message a >>= λ m. ok (m ∷ [])) alerts

  unfoldable pub messages : Value → Result (List Message)
  messages payload = do alerts ← alerts_of payload; all_messages alerts
