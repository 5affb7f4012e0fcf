-- ===== src/Relay/Posts.antt =====
-- `handle`, `status_for` and `do_POST` of modules/observability/alert-relay.py.
-- Parameters: how_long; the sender, a program of which the n-th call of a request ends as `sends n` says;
-- `took`, the text of the time that a call took; and `read_json`, the reading and the parsing of a body.
pub mod Complete
pub mod Attempts
pub mod Rejected
pub mod Pings
use nixos_homeserver.Base.{
  ℕ, suc, Bool, true, false, ◌&&◌, Option, none, some, List, [], ◌∷◌, ◌++◌, if◌then◌else◌, ◌==◌,
  nat_eq, list_eq, Text, codes, ℤ, pos, int_eq, show_int, int, Exception, Result, ok, err, ◌>>=◌,
  leb, value_error, type_error, attribute_error,
}
use nixos_homeserver.Base.Lists.{any}
use nixos_homeserver.Base.Value.{Value, str, obj, str_of}
use nixos_homeserver.Relay.Messages.{Message, alert_name, alerts_of, messages}

-- A call of the sender: its arguments, and its standard input
pub record Call : Type 0 where
  pub webhook_file : Text
  pub role : Text
  pub icon : Text
  pub title : Text
  pub input : Text

-- An exit status, an OSError or SubprocessError with the name of its class, or another exception
pub data Sent : Type 0 where
  exited : ℤ → Sent
  failed : Text → Sent
  raised : Exception → Sent

-- What a request has done: the calls of the sender, the lines of the log, and how it ended
pub record Trace {ℓ} (A : Type ℓ) : Type ℓ where
  pub calls : List Call
  pub logs : List Text
  pub outcome : A

is_surrogate : ℕ → Bool
is_surrogate c = leb 55296 c && leb c 57343

-- `body.encode()`: a text stands for its UTF-8, which a surrogate does not have. UnicodeEncodeError is a
-- ValueError.
unfoldable pub encoded : Text → Result Text
unfolding is_surrogate
encoded text = if any is_surrogate text then err value_error else ok text

module _ (how_long : Value → Result Text) (sends : ℕ → Call → Sent) (took : ℕ → Text)
    (webhook_file role_file host : Text) where
  -- The arguments that a message gives to the sender
  unfoldable pub call_of : Message → Text → Call
  call_of m body = record {
    webhook_file = webhook_file;
    role = if m.ping then role_file else codes "-";
    icon = m.icon;
    title = m.title;
    input = body;
  }

  -- What is logged of a call, and whether it succeeded
  unfoldable pub log_of : ℕ → Value → Sent → Result (Text × Bool)
  log_of n name (exited status) = ok (
      if status == pos 0
      then (codes "post of " ++ str_of name ++ codes " took " ++ took n, true)
      else (
        codes "post of "
            ++ str_of name
            ++ codes " failed: exit status "
            ++ show_int status
            ++ codes ", after "
            ++ took n,
        false,
      ))
  log_of n name (failed class) = ok (
    codes "post of " ++ str_of name ++ codes " failed: " ++ class ++ codes ", after " ++ took n,
    false,
  )
  log_of n name (raised e) = err e

  unfoldable pub stopped : Exception → Trace (Result Bool)
  stopped e = record { calls = []; logs = []; outcome = err e }

  -- The rounds of the loop that follow a call
  unfoldable pub after_call :
      Call → Result (Text × Bool) → Trace (Result Bool) → Trace (Result Bool)
  after_call call (err e) rest = record { calls = call ∷ []; logs = []; outcome = err e }
  after_call call (ok (line, sent)) rest = record {
    calls = call ∷ rest.calls;
    logs = line ∷ rest.logs;
    outcome = rest.outcome >>= λ all_sent. ok (sent && all_sent);
  }

  -- The `try` of a round, with what `body.encode()` gives, whose exception the loop does not catch
  unfoldable pub post_input :
      ℕ → Value → Message → Result Text → Trace (Result Bool) → Trace (Result Bool)
  unfolding stopped after_call
  post_input n name m (err e) rest = stopped e
  post_input n name m (ok input) rest =
      after_call (call_of m input) (log_of n name (sends n (call_of m input))) rest

  -- One round: `alert_name` may raise, and only a text has `encode`.
  unfoldable pub post_one :
      ℕ → Result Value → Message → Value → Trace (Result Bool) → Trace (Result Bool)
  unfolding post_input
  post_one n (err e) m body rest = stopped e
  post_one n (ok name) m (str body) rest = post_input n name m (encoded body) rest
  post_one n (ok name) m _ rest = stopped attribute_error

  -- `for a, (icon, title, body, ping) in zip(alerts, messages)`
  unfoldable pub post_all : ℕ → List Value → List Message → Trace (Result Bool)
  unfolding post_one
  post_all n (a ∷ alerts) (m ∷ ms) =
      let rest = post_all (suc n) alerts ms in post_one n (alert_name a) m m.body rest
  post_all n _ _ = record { calls = []; logs = []; outcome = ok true }

  unfoldable pub posts : Result (List Value) → Result (List Message) → Trace (Result Bool)
  unfolding stopped
  posts (ok alerts) (ok ms) = post_all 0 alerts ms
  posts (err e) _ = stopped e
  posts (ok alerts) (err e) = stopped e

  unfoldable pub handle : Value → Trace (Result Bool)
  unfolding posts
  handle payload = posts (alerts_of payload) (messages how_long host payload)

  -- The status, or none if an exception ends the request without a reply
  unfoldable pub status_of : Result Bool → Option ℕ
  status_of (ok all_sent) = some (if all_sent then 200 else 500)
  status_of (err e) = none

  unfoldable pub status_for : Value → Trace (Option ℕ)
  unfolding status_of
  status_for payload =
      let done = handle payload in
      record { calls = done.calls; logs = done.logs; outcome = status_of done.outcome }

  unfoldable pub reply : Option ℕ → Trace (Option ℕ)
  reply status = record { calls = []; logs = []; outcome = status }

  -- `except (ValueError, TypeError)` around the reading of the body
  unfoldable pub answer : Result Value → Trace (Option ℕ)
  unfolding reply
  answer (ok (obj fields)) = status_for (obj fields)
  answer (ok _) = reply (some 400)
  answer (err value_error) = reply (some 400)
  answer (err type_error) = reply (some 400)
  answer (err _) = reply none

  unfoldable pub do_post : Option Text → (ℤ → Result Value) → Trace (Option ℕ)
  unfolding answer
  do_post content_length read_json =
      answer (int (elim content_length [ none ↦ [] | some s ↦ s ]) >>= read_json)
