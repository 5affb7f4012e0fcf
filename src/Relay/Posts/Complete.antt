-- ===== src/Relay/Posts/Complete.antt =====
-- Which alerts modules/observability/alert-relay.py posts, and what its reply says of them.
use nixos_homeserver.Base.{
  ℕ, suc, Bool, true, false, ◌&&◌, Option, none, some, List, [], ◌∷◌, nat_eq, list_eq, Text, ℤ, pos,
  int_eq, int, Exception, Result, ok, err, ◌>>=◌, >>=-eq-ok, ok-injective, Result-cases,
  value_error, type_error, key_error, attribute_error, os_error, http_exception, ◌≡◌, refl, sym, ap,
  subst, ◌∙◌, inl, inr, arith, ==_of_ne,
}
use nixos_homeserver.Base.Value.{Value, null, bool, num, str, arr, obj}
use nixos_homeserver.Relay.Messages.{Message, alert_name, alerts_of, all_messages, messages}
use nixos_homeserver.Relay.Posts.{
  Call, Sent, exited, failed, raised, Trace, call_of, log_of, after_call, encoded, post_input,
  post_one, post_all, posts, stopped, handle, status_of, status_for, reply, answer, do_post,
}
use nixos_homeserver.Relay.Messages.Alerts.{all_messages-nil, all_messages-cons, messages-all}

module _ (how_long : Value → Result Text) (sends : ℕ → Call → Sent) (took : ℕ → Text)
    (webhook_file role_file host : Text) where
  -- Each message was given to the sender once, in order, and the sender succeeded.
  pub Delivered : ℕ → List Message → List Call → Type 0
  Delivered n [] [] = Unit
  Delivered n (m ∷ ms) (c ∷ calls) =
      ((body : Text) × (m.body ≡ str body)
        × (c ≡ call_of how_long sends took webhook_file role_file host m body))
      × (sends n c ≡ exited (pos 0))
      × Delivered (suc n) ms calls
  Delivered n _ _ = ⊥

  unsent :
      {line line' : Text} → Path (Result (Text × Bool)) (ok (line, false)) (ok (line', true)) → ⊥
  unsent e = cc

  log_of-true :
      (n : ℕ) (name : Value) (sent : Sent) {line : Text}
      → log_of how_long sends took webhook_file role_file host n name sent ≡ ok (line, true)
      → sent ≡ exited (pos 0)
  unfolding log_of
  log_of-true n name (exited status) h = elim (int_eq.dec status (pos 0)) [
    | yes e ↦ ap exited e
    | no other ↦ absurd (unsent (ap (λ r. r) (rw (==_of_ne other) at h)))
  ]
  log_of-true n name (failed class) h = absurd (unsent h)
  log_of-true n name (raised e) h = cc

  not_200 : Path (Option ℕ) (some 400) (some 200) → ⊥
  not_200 e = ground arith

  all_sent :
      (r : Result Bool)
      → status_of how_long sends took webhook_file role_file host r ≡ some 200
      → r ≡ ok true
  unfolding status_of
  all_sent (ok true) h = refl
  all_sent (ok false) h = absurd (not_500 h)
    where
      not_500 : Path (Option ℕ) (some 500) (some 200) → ⊥
      not_500 e = ground arith
  all_sent (err e) h = cc

  -- A round after which all posts count as sent
  after_call-true :
      (call : Call) (logged : Result (Text × Bool)) (rest : Trace (Result Bool))
      → (after_call how_long sends took webhook_file role_file host call logged rest).outcome
        ≡ ok true
      → (line : Text) × (logged ≡ ok (line, true))
        × (rest.outcome ≡ ok true)
        × ((after_call how_long sends took webhook_file role_file host call logged rest).calls
            ≡ call ∷ rest.calls)
  unfolding after_call
  after_call-true call (err e) rest h = cc
  after_call-true call (ok (line, sent)) rest h =
      let (all_sent, p, e) = >>=-eq-ok rest.outcome _ h in
      let (x, y) = both sent all_sent (ok-injective e) in
      (line, ap (λ b. ok (line, b)) x, p ∙ ap ok y, refl)
    where
      both : (x y : Bool) → (x && y) ≡ true → (x ≡ true) × (y ≡ true)
      both x y e = ground arith

  post_input-true :
      (n : ℕ) (name : Value) (m : Message) (body : Result Text) (rest : Trace (Result Bool))
      → (post_input how_long sends took webhook_file role_file host n name m body rest).outcome
        ≡ ok true
      → (input : Text) × (body ≡ ok input)
        × (line : Text) × (log_of how_long sends took webhook_file role_file host n name
              (sends n (call_of how_long sends took webhook_file role_file host m input))
            ≡ ok (line, true))
        × (rest.outcome ≡ ok true)
        × ((post_input how_long sends took webhook_file role_file host n name m body rest).calls
            ≡ call_of how_long sends took webhook_file role_file host m input ∷ rest.calls)
  unfolding post_input
  post_input-true n name m (err e) rest h = cc
  post_input-true n name m (ok input) rest h =
      let (line, p, q, r) = after_call-true _ _ rest h in (input, refl, line, p, q, r)

  encoded-ok : (text : Text) {input : Text} → encoded text ≡ ok input → text ≡ input
  unfolding encoded
  encoded-ok text h = ground arith

  post_one-true :
      (n : ℕ) (name : Result Value) (m : Message) (body : Value) (rest : Trace (Result Bool))
      → (post_one how_long sends took webhook_file role_file host n name m body rest).outcome
        ≡ ok true
      → (t : Text) × (body ≡ str t)
        × (sends n (call_of how_long sends took webhook_file role_file host m t) ≡ exited (pos 0))
        × (rest.outcome ≡ ok true)
        × ((post_one how_long sends took webhook_file role_file host n name m body rest).calls
            ≡ call_of how_long sends took webhook_file role_file host m t ∷ rest.calls)
  unfolding post_one
  post_one-true n (err e) m body rest h = cc
  post_one-true n (ok name) m (str t) rest h =
      let (input, is_input, line, p, q, r) = post_input-true n name m (encoded t) rest h in
      let same : t ≡ input = encoded-ok t is_input in
      (input, ap str same, log_of-true n name _ p, q, r)
  post_one-true n (ok name) m null rest h = cc
  post_one-true n (ok name) m (bool b) rest h = cc
  post_one-true n (ok name) m (num k) rest h = cc
  post_one-true n (ok name) m (arr vs) rest h = cc
  post_one-true n (ok name) m (obj fs) rest h = cc

  post_all-Delivered :
      (n : ℕ) (alerts : List Value) (ms : List Message)
      → all_messages how_long host alerts ≡ ok ms
      → (post_all how_long sends took webhook_file role_file host n alerts ms).outcome ≡ ok true
      → Delivered n ms (post_all how_long sends took webhook_file role_file host n alerts ms).calls
  unfolding post_all Delivered
  post_all-Delivered n [] [] h done = tt
  post_all-Delivered n [] (m ∷ ms) h done = let e = all_messages-nil how_long host h in cc
  post_all-Delivered n (a ∷ alerts) [] h done =
      let (m, rest, e, p, q) = all_messages-cons how_long host a alerts h in cc
  post_all-Delivered n (a ∷ alerts) (m ∷ ms) h done =
      let (m', rest, e, p, q) = all_messages-cons how_long host a alerts h in
      let (t, r, sent, more, calls) = post_one-true n (alert_name a) m m.body _ done in
      let later = post_all-Delivered (suc n) alerts ms (q ∙ ap ok (cons_tail e)) more in
      subst (Delivered n (m ∷ ms)) (sym calls) ((t, r, refl), sent, later)
    where
      cons_tail : {x y : Message} {xs ys : List Message} → x ∷ xs ≡ y ∷ ys → xs ≡ ys
      cons_tail e = cc

  handle-Delivered :
      (payload : Value)
      → (handle how_long sends took webhook_file role_file host payload).outcome ≡ ok true
      → (ms : List Message) × (messages how_long host payload ≡ ok ms)
        × Delivered 0 ms (handle how_long sends took webhook_file role_file host payload).calls
  unfolding handle posts stopped
  handle-Delivered payload h = elim (Result-cases (alerts_of payload)) [
    | inr (e, p) ↦ absurd (no_outcome (rw p at h))
    | inl (alerts, p) ↦ elim (Result-cases (messages how_long host payload)) [
      | inr (e, q) ↦ absurd (no_outcome (rw (p, q) at h))
      | inl (ms, q) ↦
          let is = all_of alerts p q in
          (ms, q, rw (p, q) (post_all-Delivered 0 alerts ms is (rw (p, q) at h)))
    ]
  ]
    where
      no_outcome : {e : Exception} → Path (Result Bool) (err e) (ok true) → ⊥
      no_outcome e = cc

      all_of :
          (alerts : List Value) {ms : List Message}
          → alerts_of payload ≡ ok alerts
          → messages how_long host payload ≡ ok ms
          → all_messages how_long host alerts ≡ ok ms
      all_of alerts p q = messages-all how_long host payload alerts p q

  status_for-Delivered :
      (payload : Value)
      → (status_for how_long sends took webhook_file role_file host payload).outcome ≡ some 200
      → (ms : List Message) × (messages how_long host payload ≡ ok ms)
        × Delivered 0 ms (status_for how_long sends took webhook_file role_file host payload).calls
  unfolding status_for
  status_for-Delivered payload h = handle-Delivered payload (all_sent _ h)

  answer-Delivered :
      (read : Result Value)
      → (answer how_long sends took webhook_file role_file host read).outcome ≡ some 200
      → (payload : Value) × (ms : List Message) × (read ≡ ok payload)
        × (messages how_long host payload ≡ ok ms)
        × Delivered 0 ms (answer how_long sends took webhook_file role_file host read).calls
  unfolding answer reply
  answer-Delivered (ok (obj fields)) h =
      let (ms, p, q) = status_for-Delivered (obj fields) h in (obj fields, ms, refl, p, q)
  answer-Delivered (ok null) h = absurd (not_200 h)
  answer-Delivered (ok (bool b)) h = absurd (not_200 h)
  answer-Delivered (ok (num n)) h = absurd (not_200 h)
  answer-Delivered (ok (str s)) h = absurd (not_200 h)
  answer-Delivered (ok (arr vs)) h = absurd (not_200 h)
  answer-Delivered (err value_error) h = absurd (not_200 h)
  answer-Delivered (err type_error) h = absurd (not_200 h)
  answer-Delivered (err key_error) h = cc
  answer-Delivered (err attribute_error) h = cc
  answer-Delivered (err os_error) h = cc
  answer-Delivered (err http_exception) h = cc

  -- The reply is 200 only if the body holds the alerts of a payload each of which was posted once, in
  -- order, by a sender that succeeded.
  pub do_post-Delivered :
      (content_length : Option Text) (read_json : ℤ → Result Value)
      → (do_post how_long sends took webhook_file role_file host content_length read_json).outcome
        ≡ some 200
      → (payload : Value) × (ms : List Message) × ((int
              (elim content_length [ none ↦ [] | some s ↦ s ])
            >>= read_json)
          ≡ ok payload)
        × (messages how_long host payload ≡ ok ms)
        × Delivered 0 ms
            (do_post how_long sends took webhook_file role_file host content_length read_json).calls
  unfolding do_post
  do_post-Delivered content_length read_json h = answer-Delivered _ h
