-- ===== src/Hub/Auth.antt =====
-- internal/hub/app/auth/usecase.go: the operator's login, over the in-memory stores.
-- The time-based codes, the hash, the WebAuthn library and the random source are other libraries:
-- the first three are the record `Services`, and each random value is an argument, `none` where the
-- source fails. The clock is read once or twice in an operation, so its answers are arguments too.
-- `LoginTOTP` reads the last step and writes the new one under different holds of the store's mutex,
-- so it is two parts. An audit record is its detail, the method of the login; log lines are left out.
pub mod Passkeys
pub mod Replay
pub mod Sessions
pub mod Steps
pub mod Stores
use constellate.Common.{
  ℕ, zero, suc, ◌*◌, Bool, true, false, not, ◌||◌, if◌then◌else◌, Option, none, some, ◌⊎◌, inl, inr,
  List, [], ◌∷◌, ◌++◌, Word, add_int, sub_int, lt_int, le_int, take, drop, ◌>>=◌,
}
use constellate.Maps.{Text, Map}
use constellate.Hub.Auth.Stores.{
  OperatorStore, totp_secret_of, save_totp, save_recovery_codes, consume_recovery_code,
  save_web_authn_credential, set_totp_step, SessionStore, create_session, validate, refresh,
  delete_session, ChallengeStore, put_challenge, take_challenge,
}

-- The sentinel errors of errors.go, and the failures of a service.
pub data Failure : Type 0 where
  operator_exists : Failure
  no_operator : Failure
  invalid_credential : Failure
  web_authn_unavailable : Failure
  challenge_not_found : Failure
  service_failed : Failure

-- The port `WebAuthn`.
pub record WebAuthn : Type 0 where
  pub begin_registration : List Text → Option (Text × Text)
  pub finish_registration : List Text → Text → Text → Option Text
  pub begin_login : List Text → Option (Text × Text)
  pub finish_login : List Text → Text → Text → Bool

-- The port `TOTP` and the fields of `UseCase` that nothing changes; `web_authn` is nothing where
-- one of the two services is nil. `ttl_seconds` is `int64(sessionTTL.Seconds())`.
pub record Services : Type 0 where
  pub generate : Text → Text → Option (Text × Text)
  pub matches : Text → Text → Word → Option Word
  pub hash : Text → Text
  pub web_authn : Option WebAuthn
  pub session_ttl : Word
  pub ttl_seconds : Word

pub data Method : Type 0 where
  totp : Method
  recovery : Method
  passkey : Method

pub record Auth : Type 0 where
  pub ops : OperatorStore
  pub sessions : SessionStore
  pub challenges : ChallengeStore
  pub audit : List Method

abbrev pub Result : Type 0 → Type 0
Result A = (Failure ⊎ A) × Auth

-- The codes of `BootstrapTOTP`, `n` of them from the `i`th random value on.
unfoldable pub recovery_codes : (ℕ → Option Text) → ℕ → ℕ → Option (List Text)
recovery_codes random zero i = some []
recovery_codes random (suc n) i = do
  raw ← random i
  codes ← recovery_codes random n (suc i)
  some ((take 5 raw ++ (b'-' ∷ []) ++ drop 5 raw) ∷ codes)

unfoldable pub hashes_of : Services → List Text → List Text
hashes_of sv [] = []
hashes_of sv (c ∷ cs) = sv.hash c ∷ hashes_of sv cs

-- The hashes of the codes are kept, and the codes are answered.
abbrev pub store_totp :
    Services → Auth → Text × Text → Option (List Text) → Result (Text × (Text × List Text))
store_totp sv w (secret, uri) none = (inl service_failed, w)
store_totp sv w (secret, uri) (some codes) = (
  inr (secret, (uri, codes)),
  record w { ops = save_totp secret (save_recovery_codes (hashes_of sv codes) w.ops) },
)

abbrev pub generated :
    Services → (ℕ → Option Text) → Auth → Option (Text × Text) → Result (Text × (Text × List Text))
generated sv random w none = (inl service_failed, w)
generated sv random w (some su) = store_totp sv w su (recovery_codes random 10 0)

-- `BootstrapTOTP`
unfoldable pub bootstrap_totp :
    Services → Text → Text → (ℕ → Option Text) → Auth → Result (Text × (Text × List Text))
bootstrap_totp sv issuer account random w =
    if w.ops.has_totp
    then (inl operator_exists, w)
    else generated sv random w (sv.generate issuer account)

-- `newSession`, with the random token and the time of the clock.
unfoldable pub new_session : Services → Option Text → Word → Auth → Result Text
new_session sv none now w = (inl service_failed, w)
new_session sv (some id) now w =
    (inr id, record w { sessions = create_session id now (add_int now sv.ttl_seconds) w.sessions })

-- The audit record behind a new session.
abbrev pub recorded : Method → Result Text → Result Text
recorded method (inl e, w) = (inl e, w)
recorded method (inr id, w) = (inr id, record w { audit = method ∷ w.audit })

abbrev pub newer_step : Word → Option Word → Failure ⊎ Word
newer_step last none = inl invalid_credential
newer_step last (some step) = if le_int step last then inl invalid_credential else inr step

abbrev pub check_secret : Services → Text → Word → Auth → Option Text → Failure ⊎ Word
check_secret sv code now w none = inl no_operator
check_secret sv code now w (some secret) =
    newer_step w.ops.totp_last_step (sv.matches secret code now)

-- `LoginTOTP` up to the comparison with the last step.
unfoldable pub check_totp : Services → Text → Word → Auth → Failure ⊎ Word
check_totp sv code now w = check_secret sv code now w (totp_secret_of w.ops)

-- `LoginTOTP` from the change of the last step on.
unfoldable pub accept_totp : Services → Word → Option Text → Word → Auth → Result Text
accept_totp sv step token now w =
    recorded totp (new_session sv token now (record w { ops = set_totp_step step w.ops }))

abbrev pub if_checked : Services → Option Text → Word → Auth → Failure ⊎ Word → Result Text
if_checked sv token now w (inl e) = (inl e, w)
if_checked sv token now w (inr step) = accept_totp sv step token now w

-- `LoginTOTP` that no other call overlaps.
unfoldable pub login_totp : Services → Text → Word → Option Text → Word → Auth → Result Text
login_totp sv code now token later w = if_checked sv token later w (check_totp sv code now w)

-- `LoginRecovery`
unfoldable pub login_recovery : Services → Text → Option Text → Word → Auth → Result Text
login_recovery sv code token now w =
    let (ok, ops) = consume_recovery_code (sv.hash code) w.ops in
    if ok
    then recorded recovery (new_session sv token now (record w { ops = ops }))
    else (inl invalid_credential, w)

-- What `ValidateSession` answers: whether the session is live, and whether its expiry moved.
unfoldable pub slide : Services → Text → Word → Auth → Option Word → (Bool × Bool) × Auth
slide sv id now w none = ((false, false), w)
slide sv id now w (some expires_at) =
    if le_int sv.session_ttl 0
    then ((true, false), w)
    else (if lt_int (sub_int (add_int now sv.ttl_seconds) expires_at) (5 * 60)
        then ((true, false), w)
        else (
          (true, true),
          record w { sessions = refresh id (add_int now sv.ttl_seconds) w.sessions },
        ))

-- `ValidateSession`
unfoldable pub validate_session : Services → Text → Word → Auth → (Bool × Bool) × Auth
validate_session sv id now w =
    let (live, m) = validate id now w.sessions in slide sv id now (record w { sessions = m }) live

-- `Logout`
unfoldable pub logout : Text → Auth → Auth
logout id w = record w { sessions = delete_session id w.sessions }
