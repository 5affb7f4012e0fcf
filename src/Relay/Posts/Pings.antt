-- ===== src/Relay/Posts/Pings.antt =====
-- Which calls of the sender of modules/observability/alert-relay.py name the role.
use nixos_homeserver.Base.{
  ℕ, suc, Bool, true, false, not, List, [], ◌∷◌, nat_eq, list_eq, if◌then◌else◌, Text, codes,
  int_eq, Result, ok, err, ◌≡◌, refl, sym, ap, ◌∙◌,
}
use nixos_homeserver.Base.Value.{Value, null, bool, num, str, arr, obj}
use nixos_homeserver.Relay.Messages.{
  Message, alert_name, is_resolved, alerts_of, all_messages, messages,
}
use nixos_homeserver.Relay.Messages.Alerts.{message-ping, all_messages-cons, messages-all}
use nixos_homeserver.Relay.Posts.{
  Call, Sent, Trace, call_of, stopped, after_call, encoded, post_input, post_one, post_all, posts,
  handle,
}

module _ (how_long : Value → Result Text) (sends : ℕ → Call → Sent) (took : ℕ → Text)
    (webhook_file role_file host : Text) where
  -- The calls are for the first of the alerts, one for each. Of a resolved alert, `-` stands for the role file.
  pub Pings : List Call → List Value → Type 0
  Pings [] alerts = Unit
  Pings (c ∷ calls) [] = ⊥
  Pings (c ∷ calls) (a ∷ alerts) =
      ((resolved : Bool) × (is_resolved a ≡ ok resolved)
        × (c.role ≡ (if resolved then codes "-" else role_file)))
      × Pings calls alerts

  role-call_of :
      (m : Message) (input : Text) (resolved : Bool)
      → m.ping ≡ not resolved
      → (call_of how_long sends took webhook_file role_file host m input).role
        ≡ (if resolved then codes "-" else role_file)
  unfolding call_of
  role-call_of m input true h = rw h refl
  role-call_of m input false h = rw h refl

  after_call-Pings :
      (call : Call) (logged : Result (Text × Bool)) (rest : Trace (Result Bool)) (a : Value)
      (alerts : List Value) (resolved : Bool)
      → is_resolved a ≡ ok resolved
      → call.role ≡ (if resolved then codes "-" else role_file)
      → Pings rest.calls alerts
      → Pings
          (after_call how_long sends took webhook_file role_file host call logged rest).calls
          (a ∷ alerts)
  unfolding after_call Pings
  after_call-Pings call (err e) rest a alerts resolved h k p = ((resolved, h, k), tt)
  after_call-Pings call (ok (line, sent)) rest a alerts resolved h k p = ((resolved, h, k), p)

  post_input-Pings :
      (n : ℕ) (name : Value) (m : Message) (body : Result Text) (rest : Trace (Result Bool))
      (a : Value) (alerts : List Value) (resolved : Bool)
      → is_resolved a ≡ ok resolved
      → m.ping ≡ not resolved
      → Pings rest.calls alerts
      → Pings
          (post_input how_long sends took webhook_file role_file host n name m body rest).calls
          (a ∷ alerts)
  unfolding post_input stopped Pings
  post_input-Pings n name m (err e) rest a alerts resolved h k p = tt
  post_input-Pings n name m (ok input) rest a alerts resolved h k p =
      after_call-Pings _ _ rest a alerts resolved h (role-call_of m input resolved k) p

  post_one-Pings :
      (n : ℕ) (named : Result Value) (m : Message) (body : Value) (rest : Trace (Result Bool))
      (a : Value) (alerts : List Value) (resolved : Bool)
      → is_resolved a ≡ ok resolved
      → m.ping ≡ not resolved
      → Pings rest.calls alerts
      → Pings
          (post_one how_long sends took webhook_file role_file host n named m body rest).calls
          (a ∷ alerts)
  unfolding post_one stopped Pings
  post_one-Pings n (err e) m body rest a alerts resolved h k p = tt
  post_one-Pings n (ok name) m (str t) rest a alerts resolved h k p =
      post_input-Pings n name m (encoded t) rest a alerts resolved h k p
  post_one-Pings n (ok name) m null rest a alerts resolved h k p = tt
  post_one-Pings n (ok name) m (bool b) rest a alerts resolved h k p = tt
  post_one-Pings n (ok name) m (num i) rest a alerts resolved h k p = tt
  post_one-Pings n (ok name) m (arr vs) rest a alerts resolved h k p = tt
  post_one-Pings n (ok name) m (obj fs) rest a alerts resolved h k p = tt

  post_all-Pings :
      (n : ℕ) (alerts : List Value) (ms : List Message)
      → all_messages how_long host alerts ≡ ok ms
      → Pings (post_all how_long sends took webhook_file role_file host n alerts ms).calls alerts
  unfolding post_all Pings
  post_all-Pings n [] ms h = tt
  post_all-Pings n (a ∷ alerts) [] h = tt
  post_all-Pings n (a ∷ alerts) (m ∷ ms) h =
      let (m', rest, e, p, q) = all_messages-cons how_long host a alerts h in
      let (name, resolved, _, r, ping) = message-ping how_long host a p in
      post_one-Pings n (alert_name a) m m.body _ a alerts resolved r
        (ap (λ x. x.ping) (sym (same e)) ∙ ping)
        (post_all-Pings (suc n) alerts ms (q ∙ ap ok (cons_tail e)))
    where
      same : {x y : Message} {xs ys : List Message} → x ∷ xs ≡ y ∷ ys → x ≡ y
      same e = cc

      cons_tail : {x y : Message} {xs ys : List Message} → x ∷ xs ≡ y ∷ ys → xs ≡ ys
      cons_tail e = cc

  -- Whatever ends a request, its calls of the sender are for the first alerts of the payload, one for each in order,
  -- and a call is given the role file exactly if its alert is not resolved, and `-` if it is.
  pub handle-Pings :
      (payload : Value) {alerts : List Value}
      → alerts_of payload ≡ ok alerts
      → Pings (handle how_long sends took webhook_file role_file host payload).calls alerts
  unfolding handle
  handle-Pings payload {alerts} h = rw h (
      by_messages (messages how_long host payload)
        (λ ms q. messages-all how_long host payload alerts h q))
    where
      by_messages :
          (found : Result (List Message))
          → ((ms : List Message) → found ≡ ok ms → all_messages how_long host alerts ≡ ok ms)
          → Pings
              (posts how_long sends took webhook_file role_file host (ok alerts) found).calls
              alerts
      by_messages (ok ms) k = unfold posts in post_all-Pings 0 alerts ms (k ms refl)
      by_messages (err e) k = unfold posts stopped Pings in tt
