-- ===== src/Hub/Auth/Replay.antt =====
-- internal/hub/app/auth/usecase.go: one-time credentials that are offered again.
use constellate.Common.{
  ◌≡◌, ◌∙◌, subst, true, false, arith, add_int, inl, inr, Option, none, some, Word, le_int,
  if◌then◌else◌, ap, refl,
}
use constellate.Maps.{Text, find, same_text}
use constellate.Maps.Laws.{find-remove_self, find-put_self, find-put_ne}
use constellate.Hub.Auth.{
  Services, invalid_credential, Auth, check_totp, accept_totp, login_totp, login_recovery,
  if_checked, recorded, new_session, slide, validate_session, totp, recovery,
}
use constellate.Hub.Auth.Stores.{
  OperatorStore, Present, OperatorSession, create_session, validate, consume_found, totp_secret_of,
  set_totp_step, consume_recovery_code,
}
use constellate.Hub.Auth.Steps.{
  Steps, Follows, Steps-Follows, check_totp_newer, new_session-ops, le_int_trans,
  login_recovery-Follows,
}

refuse_old :
    (sv : Services) (code : Text) (now step : Word) (u : Auth)
    → u.ops.has_totp ≡ true
    → sv.matches u.ops.totp_secret code now ≡ some step
    → le_int step u.ops.totp_last_step ≡ true
    → check_totp sv code now u ≡ inl invalid_credential
unfolding check_totp totp_secret_of
refuse_old sv code now step u b m h = rw (b, m, h) refl

accept_totp-ops :
    (sv : Services) (step : Word) (token : Option Text) (now : Word) (u : Auth)
    → (accept_totp sv step token now u).1.ops ≡ set_totp_step step u.ops
unfolding accept_totp
accept_totp-ops sv step token now u =
    new_session-ops sv totp token now (record u { ops = set_totp_step step u.ops })

module _ (sv : Services) (code again : Text) (now at : Word) (u v : Auth) where
  -- Once a code of some step has passed the checks of `LoginTOTP`, and whatever calls of the use
  -- case follow one after the other, a login with a code of that step or an earlier one is refused
  -- and changes nothing.
  pub login_totp_once :
      (step used : Word) (token retoken : Option Text) (later relater : Word)
      → check_totp sv code now u ≡ inr step
      → Steps sv (login_totp sv code now token later u).1 v
      → sv.matches u.ops.totp_secret again at ≡ some used
      → le_int used step ≡ true
      → login_totp sv again at retoken relater v ≡ (inl invalid_credential, v)
  unfolding login_totp set_totp_step
  login_totp_once step used token retoken later relater c ss m h =
      let (b, n, o) = check_totp_newer sv code now step u c in
      let e =
        ap (λ r. (if_checked sv token later u r).1.ops) c ∙ accept_totp-ops sv step token later u in
      let f = subst (λ p. Follows p v.ops) e (Steps-Follows ss (ap (λ p. p.has_totp) e ∙ b)) in
      ap (if_checked sv retoken relater v) (
        refuse_old sv again at used v f.still_totp
          (ap (λ k. sv.matches k again at) f.same_secret ∙ m)
          (le_int_trans used step v.ops.totp_last_step h f.step_grows))

slide-live :
    (sv : Services) (id : Text) (now expires_at : Word) (u : Auth)
    → (slide sv id now u (some expires_at)).0.0 ≡ true
unfolding slide
slide-live sv id now expires_at u = ground arith

-- A stored session that has not expired is live.
validate_session-live :
    (sv : Services) (id : Text) (now : Word) (s : OperatorSession) (u : Auth)
    → find id u.sessions ≡ some s
    → le_int s.expires_at now ≡ false
    → (validate_session sv id now u).0.0 ≡ true
unfolding validate_session validate
validate_session-live sv id now s u f e = rw (f, e) (slide-live sv id now s.expires_at _)

-- If two logins, the second with a code of the same step as the first or an earlier one, are both
-- checked before either is accepted, and get different new tokens, both succeed, and both tokens
-- are those of live sessions until they expire; one behind the other, the second login is refused.
pub login_totp_overlap :
    (sv : Services) (code again : Text) (now at step used : Word) (id id' : Text)
    (later relater seen : Word) (u : Auth)
    → check_totp sv code now u ≡ inr step
    → check_totp sv again at u ≡ inr used
    → le_int used step ≡ true
    → same_text id' id ≡ false
    → le_int (add_int later sv.ttl_seconds) seen ≡ false
    → le_int (add_int relater sv.ttl_seconds) seen ≡ false
    → let one = accept_totp sv step (some id) later u in
      let two = accept_totp sv used (some id') relater one.1 in
      (one.0 ≡ inr id)
      × (two.0 ≡ inr id')
      × ((validate_session sv id seen two.1).0.0 ≡ true)
      × ((validate_session sv id' seen two.1).0.0 ≡ true)
      × ((login_totp sv again at (some id') relater (login_totp sv code now (some id) later u).1).0
          ≡ inl invalid_credential)
unfolding accept_totp new_session create_session
login_totp_overlap sv code again now at step used id id' later relater seen u c d h n x y =
    let (b, m, o) = check_totp_newer sv again at used u d in
    let one = accept_totp sv step (some id) later u in
    let two = accept_totp sv used (some id') relater one.1 in
    (
      refl,
      refl,
      validate_session-live sv id seen _ two.1
          (find-put_ne id' id _ one.1.sessions n ∙ find-put_self id _ u.sessions) x,
      validate_session-live sv id' seen _ two.1 (find-put_self id' _ one.1.sessions) y,
      ap (λ r. r.0)
          (login_totp_once sv code again now at u (login_totp sv code now (some id) later u).1 step
            used (some id) (some id') later relater c Steps.here m h),
    )

consume_gone :
    (h : Text) (p : OperatorStore) (o : Option Present)
    → find h p.recovery_codes ≡ o
    → find h (consume_found h p o).1.recovery_codes ≡ none
consume_gone h p none e = e
consume_gone h p (some x) e = find-remove_self h p.recovery_codes

recovered_gone :
    (sv : Services) (code : Text) (token : Option Text) (now : Word) (u : Auth)
    → find (sv.hash code) (login_recovery sv code token now u).1.ops.recovery_codes ≡ none
unfolding login_recovery consume_recovery_code
recovered_gone sv code token now u = recovered_of (find (sv.hash code) u.ops.recovery_codes) refl
  where
    recovered_of :
        (o : Option Present)
        → find (sv.hash code) u.ops.recovery_codes ≡ o
        → find
            (sv.hash code)
            (let (ok, ops) = consume_found (sv.hash code) u.ops o in
              if ok
              then recorded recovery (new_session sv token now (record u { ops = ops }))
              else (inl invalid_credential, u)).1.ops.recovery_codes
          ≡ none
    recovered_of none e = e
    recovered_of (some x) e =
        ap (λ p. find (sv.hash code) p.recovery_codes) (new_session-ops sv recovery token now _)
        ∙ find-remove_self (sv.hash code) u.ops.recovery_codes

-- A recovery code that is not there.
refuse_gone :
    (sv : Services) (code : Text) (token : Option Text) (now : Word) (u : Auth)
    → find (sv.hash code) u.ops.recovery_codes ≡ none
    → login_recovery sv code token now u ≡ (inl invalid_credential, u)
unfolding login_recovery consume_recovery_code
refuse_gone sv code token now u e = rw e refl

-- Where an operator is set up, a recovery code that was offered once is refused ever after,
-- whatever calls of the use case follow one after the other, and the refusal changes nothing.
pub login_recovery_once :
    (sv : Services) (code : Text) (token retoken : Option Text) (now later : Word) (u v : Auth)
    → u.ops.has_totp ≡ true
    → Steps sv (login_recovery sv code token now u).1 v
    → login_recovery sv code retoken later v ≡ (inl invalid_credential, v)
login_recovery_once sv code token retoken now later u v b ss =
    let f = login_recovery-Follows sv code token now u b in
    refuse_gone sv code retoken later v (
      (Steps-Follows ss f.still_totp).codes_shrink (sv.hash code)
        (recovered_gone sv code token now u))
