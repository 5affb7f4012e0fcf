-- ===== src/Relay/Messages/Alerts.antt =====
-- Each message of modules/observability/alert-relay.py is that of one alert, in the same order.
use nixos_homeserver.Base.{
  Bool, not, List, [], ◌∷◌, ◌++◌, nat_eq, list_eq, Text, codes, int_eq, Result, ok, ◌>>=◌,
  >>=-eq-ok, ok-injective, for_each, ◌≡◌, sym, ap, ◌∙◌, inl, inr, Bool-cases,
}
use nixos_homeserver.Base.Value.{Value, get}
use nixos_homeserver.Relay.Messages.{
  Message, alert_name, is_resolved, alerts_of, message, all_messages, messages,
}

-- A message comes from an alert that has a name, and pings the role only if it is not resolved.
pub message-ping :
    (how_long : Value → Result Text) (host : Text) (a : Value) {m : Message}
    → message how_long host a ≡ ok m
    → (name : Value) × (resolved : Bool) × (alert_name a ≡ ok name)
      × (is_resolved a ≡ ok resolved)
      × (m.ping ≡ not resolved)
unfolding message
message-ping how_long host a h =
    let (annotations, p, h₁) = >>=-eq-ok (get a (codes "annotations")) _ h in
    let (name, q, h₂) = >>=-eq-ok (alert_name a) _ h₁ in
    let (written, r, h₃) = >>=-eq-ok (get _ (codes "summary")) _ h₂ in
    let (described, s, h₄) = >>=-eq-ok (get _ (codes "description")) _ h₃ in
    let (resolved, t, h₅) = >>=-eq-ok (is_resolved a) _ h₄ in
    elim (Bool-cases resolved) [
      | inl over ↦
          let (lasted, _, e) = >>=-eq-ok (how_long a) _ (rw over at h₅) in
          (name, resolved, q, t, ap (λ x. x.ping) (sym (ok-injective e)) ∙ ap not (sym over))
      | inr fires ↦ (
        name,
        resolved,
        q,
        t,
        ap (λ x. x.ping) (sym (ok-injective (rw fires at h₅))) ∙ ap not (sym fires),
      )
    ]

pub all_messages-nil :
    (how_long : Value → Result Text) (host : Text) {ms : List Message}
    → all_messages how_long host [] ≡ ok ms
    → [] ≡ ms
unfolding all_messages for_each
all_messages-nil how_long host h = ok-injective h

-- The first message is that of the first alert.
pub all_messages-cons :
    (how_long : Value → Result Text) (host : Text) (a : Value) (alerts : List Value)
    {ms : List Message}
    → all_messages how_long host (a ∷ alerts) ≡ ok ms
    → (m : Message) × (rest : List Message) × (m ∷ rest ≡ ms)
      × (message how_long host a ≡ ok m)
      × (all_messages how_long host alerts ≡ ok rest)
unfolding all_messages for_each
all_messages-cons how_long host a alerts h =
    let (here, p, h₁) = >>=-eq-ok (message how_long host a >>= λ m. ok (m ∷ [])) _ h in
    let (m, q, e) = >>=-eq-ok (message how_long host a) _ p in
    let (rest, r, e₁) =
      >>=-eq-ok (for_each (λ x. message how_long host x >>= λ m. ok (m ∷ [])) alerts) _ h₁ in
    (m, rest, ap (λ l. l ++ rest) (ok-injective e) ∙ ok-injective e₁, q, r)

pub messages-all :
    (how_long : Value → Result Text) (host : Text) (payload : Value) (alerts : List Value)
    {ms : List Message}
    → alerts_of payload ≡ ok alerts
    → messages how_long host payload ≡ ok ms
    → all_messages how_long host alerts ≡ ok ms
unfolding messages
messages-all how_long host payload alerts p q = rw p at q

-- The messages are those of the alerts of the payload.
pub messages-alerts :
    (how_long : Value → Result Text) (host : Text) (payload : Value) {ms : List Message}
    → messages how_long host payload ≡ ok ms
    → (alerts : List Value) × (alerts_of payload ≡ ok alerts)
      × (all_messages how_long host alerts ≡ ok ms)
unfolding messages
messages-alerts how_long host payload h = >>=-eq-ok (alerts_of payload) _ h
