-- ===== src/Relay/Posts/Attempts.antt =====
-- modules/observability/alert-relay.py goes on to the next alert when a post fails.
use nixos_homeserver.Base.{
  ℕ, suc, Bool, true, ◌&&◌, List, [], ◌∷◌, nat_eq, list_eq, Text, int_eq, Exception, Result, ok,
  err, ◌≡◌, refl, sym, ap, subst, ◌∙◌, ◌≢◌, if◌then◌else◌, codes,
}
use nixos_homeserver.Base.Lists.{All}
use nixos_homeserver.Base.Value.{Value, str}
use nixos_homeserver.Relay.Messages.{Message, alert_name, all_messages, messages}
use nixos_homeserver.Relay.Posts.{
  Call, Sent, exited, failed, raised, Trace, call_of, log_of, after_call, encoded, post_input,
  post_one, post_all, posts, handle,
}
use nixos_homeserver.Relay.Messages.Alerts.{
  message-ping, all_messages-nil, all_messages-cons, messages-alerts,
}

module _ (how_long : Value → Result Text) (sends : ℕ → Call → Sent) (took : ℕ → Text)
    (webhook_file role_file host : Text) where
  -- Each message was given to the sender once, in order.
  pub Attempted : List Message → List Call → Type 0
  Attempted [] [] = Unit
  Attempted (m ∷ ms) (c ∷ calls) =
      ((body : Text) × (m.body ≡ str body)
        × (c ≡ record {
          webhook_file = webhook_file;
          role = if m.ping then role_file else codes "-";
          icon = m.icon;
          title = m.title;
          input = body;
        }))
      × Attempted ms calls
  Attempted _ _ = ⊥

  log_of-ok :
      (n : ℕ) (name : Value) (sent : Sent)
      → ((e : Exception) → sent ≢ raised e)
      → (line : Text × Bool) × (log_of how_long sends took webhook_file role_file host n name sent
          ≡ ok line)
  unfolding log_of
  log_of-ok n name (exited status) h = (_, refl)
  log_of-ok n name (failed class) h = (_, refl)
  log_of-ok n name (raised e) h = absurd (h e refl)

  after_call-ok :
      (call : Call) (logged : Result (Text × Bool)) (rest : Trace (Result Bool))
      {line : Text × Bool} {sent : Bool}
      → logged ≡ ok line
      → rest.outcome ≡ ok sent
      → ((all_sent : Bool) × ((after_call how_long sends took webhook_file role_file host call
              logged rest).outcome
            ≡ ok all_sent))
        × ((after_call how_long sends took webhook_file role_file host call logged rest).calls
            ≡ call ∷ rest.calls)
  unfolding after_call
  after_call-ok call (err e) rest h k = cc
  after_call-ok call (ok (line, here)) rest {sent = sent} h k = ((here && sent, rw k refl), refl)

  post_one-ok :
      (n : ℕ) (named : Result Value) (m : Message) (body : Value) (rest : Trace (Result Bool))
      {name : Value} {t : Text} {sent : Bool}
      → named ≡ ok name
      → body ≡ str t
      → encoded t ≡ ok t
      → ((c : Call) (e : Exception) → sends n c ≢ raised e)
      → rest.outcome ≡ ok sent
      → ((all_sent : Bool) × ((post_one how_long sends took webhook_file role_file host n named m
              body rest).outcome
            ≡ ok all_sent))
        × ((post_one how_long sends took webhook_file role_file host n named m body rest).calls
            ≡ call_of how_long sends took webhook_file role_file host m t ∷ rest.calls)
  unfolding post_one post_input
  post_one-ok n named m body rest {name} {t} h k u reaches s =
      let call = call_of how_long sends took webhook_file role_file host m t in
      let (line, l) = log_of-ok n name (sends n call) (reaches call) in
      rw (h, k, u) (after_call-ok call _ rest l s)

  module _ (reaches : (n : ℕ) (c : Call) (e : Exception) → sends n c ≢ raised e) where
    post_all-Attempted :
        (n : ℕ) (alerts : List Value) (ms : List Message)
        → all_messages how_long host alerts ≡ ok ms
        → All (λ m. (body : Text) × (m.body ≡ str body) × (encoded body ≡ ok body)) ms
        → Attempted ms (post_all how_long sends took webhook_file role_file host n alerts ms).calls
          × ((all_sent : Bool) × ((post_all how_long sends took webhook_file role_file host n alerts
                  ms).outcome
                ≡ ok all_sent))
    unfolding post_all Attempted call_of
    post_all-Attempted n [] [] h b = (tt, (true, refl))
    post_all-Attempted n [] (m ∷ ms) h b = let e = all_messages-nil how_long host h in cc
    post_all-Attempted n (a ∷ alerts) [] h b =
        let (m, rest, e, p, q) = all_messages-cons how_long host a alerts h in cc
    post_all-Attempted n (a ∷ alerts) (m ∷ ms) h ((t, body, utf8), b) =
        let (m', rest, e, p, q) = all_messages-cons how_long host a alerts h in
        let (name, _, named', _, _) = message-ping how_long host a p in
        let (later, (sent, s)) = post_all-Attempted (suc n) alerts ms (q ∙ ap ok (cons_tail e)) b in
        let (done, calls) =
          post_one-ok n (alert_name a) m m.body _ named' body utf8 (reaches n) s in
        (subst (Attempted (m ∷ ms)) (sym calls) ((t, body, refl), later), done)
      where
        cons_tail : {x y : Message} {xs ys : List Message} → x ∷ xs ≡ y ∷ ys → xs ≡ ys
        cons_tail e = cc

    -- If every alert of the payload has a message with a text for its body that UTF-8 can encode, and no call of the
    -- sender raises what the loop does not catch, then each is given to the sender once, in order, with the role
    -- file if it pings, whichever posts fail, and the request ends with a result.
    pub handle-Attempted :
        (payload : Value) (ms : List Message)
        → messages how_long host payload ≡ ok ms
        → All (λ m. (body : Text) × (m.body ≡ str body) × (encoded body ≡ ok body)) ms
        → Attempted ms (handle how_long sends took webhook_file role_file host payload).calls
          × ((all_sent : Bool) × ((handle how_long sends took webhook_file role_file host
                  payload).outcome
                ≡ ok all_sent))
    unfolding handle posts
    handle-Attempted payload ms h b =
        let (alerts, p, q) = messages-alerts how_long host payload h in
        rw (p, h) (post_all-Attempted 0 alerts ms q b)
