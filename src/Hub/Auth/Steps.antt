-- ===== src/Hub/Auth/Steps.antt =====
-- internal/hub/app/auth/usecase.go: the operations one after the other, as a step relation, and what
-- each leaves of the operator's store.
use constellate.Common.{
  ℕ, ◌≡◌, ◌∙◌, sym, ap, subst, if◌then◌else◌, refl, true, false, Bool-cases, inl, inr, ◌⊎◌, Option,
  none, some, List, [], ◌∷◌, arith, Word, le_int,
}
use constellate.Maps.{Text, find}
use constellate.Maps.Laws.{find-remove}
use constellate.Hub.Auth.{
  Services, Failure, operator_exists, generated, WebAuthn, Auth, if_checked, Method, recorded, totp,
  recovery, passkey, bootstrap_totp, new_session, accept_totp, login_totp, check_totp,
  login_recovery, validate_session, logout, slide,
}
use constellate.Hub.Auth.Stores.{
  OperatorStore, Present, consume_found, totp_secret_of, set_totp_step, consume_recovery_code,
  save_web_authn_credential, validate, take_challenge,
}
use constellate.Hub.Auth.Passkeys.{
  begin_passkey_registration, finish_passkey_registration, begin_passkey_login,
  finish_passkey_login, keep_challenge, register, register_with, finish_registration_with,
  begin_registration_with, begin_login_of, begin_login_with, login_with, finish_login_with,
}

-- One call of the use case, of which no part overlaps another call.
pub data Step (sv : Services) : Auth → Auth → Type 0 where
  bootstrapped :
      (issuer account : Text) (random : ℕ → Option Text) {u v : Auth}
      → v ≡ (bootstrap_totp sv issuer account random u).1
      → Step sv u v
  by_totp :
      (code : Text) (now : Word) (token : Option Text) (later : Word) {u v : Auth}
      → v ≡ (login_totp sv code now token later u).1
      → Step sv u v
  by_recovery :
      (code : Text) (token : Option Text) (now : Word) {u v : Auth}
      → v ≡ (login_recovery sv code token now u).1
      → Step sv u v
  validated :
      (id : Text) (now : Word) {u v : Auth} → v ≡ (validate_session sv id now u).1 → Step sv u v
  logged_out : (id : Text) {u v : Auth} → v ≡ logout id u → Step sv u v
  began_registration :
      (key : Option Text) (now : Word) {u v : Auth}
      → v ≡ (begin_passkey_registration sv key now u).1
      → Step sv u v
  finished_registration :
      (key body : Text) (id : Option Text) (now : Word) {u v : Auth}
      → v ≡ (finish_passkey_registration sv key body id now u).1
      → Step sv u v
  began_login :
      (key : Option Text) (now : Word) {u v : Auth}
      → v ≡ (begin_passkey_login sv key now u).1
      → Step sv u v
  by_passkey :
      (key body : Text) (token : Option Text) (now later : Word) {u v : Auth}
      → v ≡ (finish_passkey_login sv key body token now later u).1
      → Step sv u v

pub data Steps (sv : Services) (u : Auth) : Auth → Type 0 where
  here : Steps sv u u
  then_step : {v w : Auth} → Steps sv u v → Step sv v w → Steps sv u w

-- What no step takes back once an operator is there: the last step only grows, and no recovery
-- code comes up again.
pub record Follows (p q : OperatorStore) : Type 0 where
  pub still_totp : q.has_totp ≡ true
  pub same_secret : q.totp_secret ≡ p.totp_secret
  pub step_grows : le_int p.totp_last_step q.totp_last_step ≡ true
  pub codes_shrink : (h : Text) → find h p.recovery_codes ≡ none → find h q.recovery_codes ≡ none

le_int_refl : (a : Word) → le_int a a ≡ true
unfolding le_int
le_int_refl a = ground arith

pub le_int_trans : (a b c : Word) → le_int a b ≡ true → le_int b c ≡ true → le_int a c ≡ true
unfolding le_int
le_int_trans a b c h k = ground arith

le_int_flip : (a b : Word) → le_int a b ≡ false → le_int b a ≡ true
unfolding le_int
le_int_flip a b h = ground arith

Follows-refl : (p : OperatorStore) → p.has_totp ≡ true → Follows p p
Follows-refl p h = record {
  still_totp = h;
  same_secret = refl;
  step_grows = le_int_refl p.totp_last_step;
  codes_shrink = λ x e. e;
}

Follows-trans : {p q r : OperatorStore} → Follows p q → Follows q r → Follows p r
Follows-trans {p} {q} {r} a b = record {
  still_totp = b.still_totp;
  same_secret = b.same_secret ∙ a.same_secret;
  step_grows =
      le_int_trans p.totp_last_step q.totp_last_step r.totp_last_step a.step_grows b.step_grows;
  codes_shrink = λ x e. b.codes_shrink x (a.codes_shrink x e);
}

-- A new session and its audit record leave the operator's store.
pub new_session-ops :
    (sv : Services) (m : Method) (token : Option Text) (now : Word) (w : Auth)
    → (recorded m (new_session sv token now w)).1.ops ≡ w.ops
unfolding new_session
new_session-ops sv m none now w = refl
new_session-ops sv m (some id) now w = refl

slide-ops :
    (sv : Services) (id : Text) (now : Word) (w : Auth) (o : Option Word)
    → (slide sv id now w o).1.ops ≡ w.ops
unfolding slide
slide-ops sv id now w none = refl
slide-ops sv id now w (some e) = ground arith

keep_challenge-ops :
    (key : Option Text) (now : Word) (w : Auth) (o : Option (Text × Text))
    → (keep_challenge key now w o).1.ops ≡ w.ops
unfolding keep_challenge
keep_challenge-ops key now w none = refl
keep_challenge-ops none now w (some (a, b)) = refl
keep_challenge-ops (some k) now w (some (a, b)) = refl

-- A code that passes is of a later step than the last one.
pub check_totp_newer :
    (sv : Services) (code : Text) (now step : Word) (u : Auth)
    → check_totp sv code now u ≡ inr step
    → (u.ops.has_totp ≡ true)
      × (sv.matches u.ops.totp_secret code now ≡ some step)
      × (le_int step u.ops.totp_last_step ≡ false)
unfolding check_totp totp_secret_of
check_totp_newer sv code now step u e = ground (arith, e)

consume_found-Follows :
    (h : Text) (p : OperatorStore) (o : Option Present)
    → p.has_totp ≡ true
    → Follows p (consume_found h p o).1
consume_found-Follows h p none b = Follows-refl p b
consume_found-Follows h p (some x) b = record {
  still_totp = b;
  same_secret = refl;
  step_grows = le_int_refl p.totp_last_step;
  codes_shrink = λ k e. rw (find-remove h k p.recovery_codes, e) (ground arith);
}

consume-Follows :
    (h : Text) (p : OperatorStore) → p.has_totp ≡ true → Follows p (consume_recovery_code h p).1
unfolding consume_recovery_code
consume-Follows h p b = consume_found-Follows h p (find h p.recovery_codes) b

accept_totp-Follows :
    (sv : Services) (step : Word) (token : Option Text) (now : Word) (u : Auth)
    → u.ops.has_totp ≡ true
    → le_int step u.ops.totp_last_step ≡ false
    → Follows u.ops (accept_totp sv step token now u).1.ops
unfolding accept_totp set_totp_step
accept_totp-Follows sv step token now u b e =
    rw (new_session-ops sv totp token now (record u { ops = set_totp_step step u.ops })) record {
      still_totp = b;
      same_secret = refl;
      step_grows = le_int_flip step u.ops.totp_last_step e;
      codes_shrink = λ x f. f;
    }

same-Follows : {p q : OperatorStore} → q ≡ p → p.has_totp ≡ true → Follows p q
same-Follows {p} e b = subst (Follows p) (sym e) (Follows-refl p b)

if_checked-Follows :
    (sv : Services) (code : Text) (now : Word) (token : Option Text) (later : Word) (u : Auth)
    (r : Failure ⊎ Word)
    → check_totp sv code now u ≡ r
    → u.ops.has_totp ≡ true
    → Follows u.ops (if_checked sv token later u r).1.ops
if_checked-Follows sv code now token later u (inl f) e b = Follows-refl u.ops b
if_checked-Follows sv code now token later u (inr step) e b =
    let (t, m, n) = check_totp_newer sv code now step u e in
    accept_totp-Follows sv step token later u b n

pub login_recovery-Follows :
    (sv : Services) (code : Text) (token : Option Text) (now : Word) (u : Auth)
    → u.ops.has_totp ≡ true
    → Follows u.ops (login_recovery sv code token now u).1.ops
unfolding login_recovery
login_recovery-Follows sv code token now u b =
    let r = consume_recovery_code (sv.hash code) u.ops in
    elim (Bool-cases r.0) [
      | inl e ↦
          rw (e, new_session-ops sv recovery token now (record u { ops = r.1 }))
            (consume-Follows (sv.hash code) u.ops b)
      | inr e ↦ rw e (Follows-refl u.ops b)
    ]

register-Follows :
    (id o : Option Text) (u : Auth) → u.ops.has_totp ≡ true → Follows u.ops (register id u o).1.ops
unfolding save_web_authn_credential
register-Follows id none u b = Follows-refl u.ops b
register-Follows none (some cred) u b = Follows-refl u.ops b
register-Follows (some i) (some cred) u b = record {
  still_totp = b;
  same_secret = refl;
  step_grows = le_int_refl u.ops.totp_last_step;
  codes_shrink = λ x e. e;
}

register_with-Follows :
    (wa : WebAuthn) (body : Text) (id : Option Text) (u : Auth) (o : Option Text)
    → u.ops.has_totp ≡ true
    → Follows u.ops (register_with wa body id u o).1.ops
register_with-Follows wa body id u none b = Follows-refl u.ops b
register_with-Follows wa body id u (some session) b =
    register-Follows id (wa.finish_registration u.ops.web_authn_creds session body) u b

finish_registration-Follows :
    (key body : Text) (id : Option Text) (now : Word) (u : Auth) (o : Option WebAuthn)
    → u.ops.has_totp ≡ true
    → Follows u.ops (finish_registration_with key body id now u o).1.ops
finish_registration-Follows key body id now u none b = Follows-refl u.ops b
finish_registration-Follows key body id now u (some wa) b =
    let (session, m) = take_challenge key now u.challenges in
    register_with-Follows wa body id (record u { challenges = m }) session b

login_with-ops :
    (sv : Services) (wa : WebAuthn) (body : Text) (token : Option Text) (now : Word) (u : Auth)
    (o : Option Text)
    → (login_with sv wa body token now u o).1.ops ≡ u.ops
login_with-ops sv wa body token now u none = refl
login_with-ops sv wa body token now u (some session) =
    elim (Bool-cases (wa.finish_login u.ops.web_authn_creds session body)) [
      | inl e ↦ rw e (new_session-ops sv passkey token now u)
      | inr e ↦ rw e refl
    ]

finish_login-ops :
    (sv : Services) (key body : Text) (token : Option Text) (now later : Word) (u : Auth)
    (o : Option WebAuthn)
    → (finish_login_with sv key body token now later u o).1.ops ≡ u.ops
finish_login-ops sv key body token now later u none = refl
finish_login-ops sv key body token now later u (some wa) =
    let (session, m) = take_challenge key now u.challenges in
    login_with-ops sv wa body token later (record u { challenges = m }) session

begin_registration-ops :
    (key : Option Text) (now : Word) (u : Auth) (o : Option WebAuthn)
    → (begin_registration_with key now u o).1.ops ≡ u.ops
begin_registration-ops key now u none = refl
begin_registration-ops key now u (some wa) = keep_challenge-ops key now u _

begin_login_of-ops :
    (key : Option Text) (now : Word) (u : Auth) (wa : WebAuthn) (cs : List Text)
    → (begin_login_of key now u wa cs).1.ops ≡ u.ops
begin_login_of-ops key now u wa [] = refl
begin_login_of-ops key now u wa (c ∷ cs) = keep_challenge-ops key now u _

begin_login-ops :
    (key : Option Text) (now : Word) (u : Auth) (o : Option WebAuthn)
    → (begin_login_with key now u o).1.ops ≡ u.ops
begin_login-ops key now u none = refl
begin_login-ops key now u (some wa) = begin_login_of-ops key now u wa u.ops.web_authn_creds

bootstrap_again :
    (sv : Services) (issuer account : Text) (random : ℕ → Option Text) (u : Auth)
    → u.ops.has_totp ≡ true
    → (bootstrap_totp sv issuer account random u).1 ≡ u
unfolding bootstrap_totp
bootstrap_again sv issuer account random u b =
    ap
      (λ t.
        (if t
          then (inl operator_exists, u)
          else generated sv random u (sv.generate issuer account)).1)
      b

Step-Follows :
    {sv : Services} {u v : Auth} → Step sv u v → u.ops.has_totp ≡ true → Follows u.ops v.ops
unfolding login_totp validate_session logout begin_passkey_registration finish_passkey_registration
    begin_passkey_login finish_passkey_login
Step-Follows {sv} {u} (bootstrapped issuer account random e) b =
    rw e (same-Follows (ap (λ w. w.ops) (bootstrap_again sv issuer account random u b)) b)
Step-Follows {sv} {u} (by_totp code now token later e) b =
    rw e (if_checked-Follows sv code now token later u (check_totp sv code now u) refl b)
Step-Follows {sv} {u} (by_recovery code token now e) b =
    rw e (login_recovery-Follows sv code token now u b)
Step-Follows {sv} {u} (validated id now e) b =
    let (o, m) = validate id now u.sessions in
    rw e (same-Follows (slide-ops sv id now (record u { sessions = m }) o) b)
Step-Follows {sv} {u} (logged_out id e) b = rw e (Follows-refl u.ops b)
Step-Follows {sv} {u} (began_registration key now e) b =
    rw e (same-Follows (begin_registration-ops key now u sv.web_authn) b)
Step-Follows {sv} {u} (finished_registration key body id now e) b =
    rw e (finish_registration-Follows key body id now u sv.web_authn b)
Step-Follows {sv} {u} (began_login key now e) b =
    rw e (same-Follows (begin_login-ops key now u sv.web_authn) b)
Step-Follows {sv} {u} (by_passkey key body token now later e) b =
    rw e (same-Follows (finish_login-ops sv key body token now later u sv.web_authn) b)

pub Steps-Follows :
    {sv : Services} {u v : Auth} → Steps sv u v → u.ops.has_totp ≡ true → Follows u.ops v.ops
Steps-Follows {sv} {u} here b = Follows-refl u.ops b
Steps-Follows (then_step s t) b =
    let f = Steps-Follows s b in Follows-trans f (Step-Follows t f.still_totp)
