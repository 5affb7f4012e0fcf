-- ===== src/Relay/Posts/Rejected.antt =====
-- When `do_POST` of modules/observability/alert-relay.py replies 400.
use nixos_homeserver.Base.{
  ℕ, Bool, true, false, Option, none, some, some-injective, [], Text, ℤ, int, Result, ok, err,
  ◌>>=◌, value_error, type_error, key_error, attribute_error, os_error, http_exception, ◌≡◌, ◌≢◌,
  ◌↔◌, refl, arith, nat_eq,
}
use nixos_homeserver.Base.Value.{Value, null, bool, num, str, arr, obj}
use nixos_homeserver.Relay.Posts.{Call, Sent, status_of, status_for, reply, answer, do_post}

-- The reading of the body raises ValueError or TypeError, or gives a value that is no dict.
abbrev pub Bad : Result Value → Type 0
Bad (err value_error) = Unit
Bad (err type_error) = Unit
Bad (err _) = ⊥
Bad (ok (obj fields)) = ⊥
Bad (ok _) = Unit

ok_is_not_rejected : Path (Option ℕ) (some 200) (some 400) → ⊥
ok_is_not_rejected = λ h. let e = some-injective 200 400 h in omega arith

failed_is_not_rejected : Path (Option ℕ) (some 500) (some 400) → ⊥
failed_is_not_rejected = λ h. let e = some-injective 500 400 h in omega arith

module _ (how_long : Value → Result Text) (sends : ℕ → Call → Sent) (took : ℕ → Text)
    (webhook_file role_file host : Text) where
  status_of-never :
      (r : Result Bool) → status_of how_long sends took webhook_file role_file host r ≢ some 400
  unfolding status_of
  status_of-never (err e) = λ h. cc
  status_of-never (ok true) = ok_is_not_rejected
  status_of-never (ok false) = failed_is_not_rejected

  answer-Bad :
      (r : Result Value)
      → (((answer how_long sends took webhook_file role_file host r).outcome ≡ some 400) ↔ Bad r)
        × (Bad r → (answer how_long sends took webhook_file role_file host r).calls ≡ [])
  unfolding answer reply status_for
  answer-Bad (err value_error) = ((λ h. tt, λ b. refl), λ b. refl)
  answer-Bad (err type_error) = ((λ h. tt, λ b. refl), λ b. refl)
  answer-Bad (err key_error) = ((λ h. cc, λ b. absurd b), λ b. absurd b)
  answer-Bad (err attribute_error) = ((λ h. cc, λ b. absurd b), λ b. absurd b)
  answer-Bad (err os_error) = ((λ h. cc, λ b. absurd b), λ b. absurd b)
  answer-Bad (err http_exception) = ((λ h. cc, λ b. absurd b), λ b. absurd b)
  answer-Bad (ok null) = ((λ h. tt, λ b. refl), λ b. refl)
  answer-Bad (ok (bool b)) = ((λ h. tt, λ b. refl), λ b. refl)
  answer-Bad (ok (num n)) = ((λ h. tt, λ b. refl), λ b. refl)
  answer-Bad (ok (str s)) = ((λ h. tt, λ b. refl), λ b. refl)
  answer-Bad (ok (arr vs)) = ((λ h. tt, λ b. refl), λ b. refl)
  answer-Bad (ok (obj fields)) = ((λ h. absurd (status_of-never _ h), λ b. absurd b), λ b. absurd b)

  -- The relay replies 400 exactly when the reading of the Content-Length or of the body raises ValueError or
  -- TypeError, or the body is no object; then it has posted nothing.
  pub do_post-Bad :
      (content_length : Option Text) (read_json : ℤ → Result Value)
      → (((do_post how_long sends took webhook_file role_file host content_length read_json).outcome
            ≡ some 400)
          ↔ Bad (int (elim content_length [ none ↦ [] | some s ↦ s ]) >>= read_json))
        × (Bad (int (elim content_length [ none ↦ [] | some s ↦ s ]) >>= read_json)
            → (do_post how_long sends took webhook_file role_file host content_length
                read_json).calls
              ≡ [])
  unfolding do_post
  do_post-Bad content_length read_json = answer-Bad _
