-- ===== src/Hub/Auth/Passkeys.antt =====
-- internal/hub/app/auth/usecase.go: the two WebAuthn ceremonies. What the library keeps between the
-- halves of one is stored as a challenge under a random key.
use constellate.Common.{
  ◌*◌, if◌then◌else◌, Option, none, some, inl, inr, List, [], ◌∷◌, Word, add_int,
}
use constellate.Maps.{Text}
use constellate.Hub.Auth.{
  Failure, no_operator, web_authn_unavailable, challenge_not_found, service_failed, WebAuthn,
  Services, passkey, Auth, Result, new_session, recorded,
}
use constellate.Hub.Auth.Stores.{save_web_authn_credential, put_challenge, take_challenge}

-- The challenge of a ceremony is stored under a random key.
unfoldable pub keep_challenge :
    Option Text → Word → Auth → Option (Text × Text) → Result (Text × Text)
keep_challenge key now w none = (inl service_failed, w)
keep_challenge none now w (some (options, session)) = (inl service_failed, w)
keep_challenge (some key) now w (some (options, session)) = (
  inr (options, key),
  record w { challenges = put_challenge key session (add_int now (5 * 60)) w.challenges },
)

abbrev pub begin_registration_with :
    Option Text → Word → Auth → Option WebAuthn → Result (Text × Text)
begin_registration_with key now w none = (inl web_authn_unavailable, w)
begin_registration_with key now w (some wa) =
    keep_challenge key now w (wa.begin_registration w.ops.web_authn_creds)

-- `BeginPasskeyRegistration`
unfoldable pub begin_passkey_registration :
    Services → Option Text → Word → Auth → Result (Text × Text)
begin_passkey_registration sv key now w = begin_registration_with key now w sv.web_authn

-- The new credential's own id is random too, and must be had before it is saved.
abbrev pub register : Option Text → Auth → Option Text → Option Failure × Auth
register id w none = (some service_failed, w)
register none w (some cred) = (some service_failed, w)
register (some id) w (some cred) = (none, record w { ops = save_web_authn_credential cred w.ops })

abbrev pub register_with :
    WebAuthn → Text → Option Text → Auth → Option Text → Option Failure × Auth
register_with wa body id w none = (some challenge_not_found, w)
register_with wa body id w (some session) =
    register id w (wa.finish_registration w.ops.web_authn_creds session body)

abbrev pub finish_registration_with :
    Text → Text → Option Text → Word → Auth → Option WebAuthn → Option Failure × Auth
finish_registration_with key body id now w none = (some web_authn_unavailable, w)
finish_registration_with key body id now w (some wa) =
    let (session, m) = take_challenge key now w.challenges in
    register_with wa body id (record w { challenges = m }) session

-- `FinishPasskeyRegistration`
unfoldable pub finish_passkey_registration :
    Services → Text → Text → Option Text → Word → Auth → Option Failure × Auth
finish_passkey_registration sv key body id now w =
    finish_registration_with key body id now w sv.web_authn

abbrev pub begin_login_of : Option Text → Word → Auth → WebAuthn → List Text → Result (Text × Text)
begin_login_of key now w wa [] = (inl no_operator, w)
begin_login_of key now w wa (c ∷ cs) = keep_challenge key now w (wa.begin_login (c ∷ cs))

abbrev pub begin_login_with : Option Text → Word → Auth → Option WebAuthn → Result (Text × Text)
begin_login_with key now w none = (inl web_authn_unavailable, w)
begin_login_with key now w (some wa) = begin_login_of key now w wa w.ops.web_authn_creds

-- `BeginPasskeyLogin`
unfoldable pub begin_passkey_login : Services → Option Text → Word → Auth → Result (Text × Text)
begin_passkey_login sv key now w = begin_login_with key now w sv.web_authn

abbrev pub login_with :
    Services → WebAuthn → Text → Option Text → Word → Auth → Option Text → Result Text
login_with sv wa body token now w none = (inl challenge_not_found, w)
login_with sv wa body token now w (some session) =
    if wa.finish_login w.ops.web_authn_creds session body
    then recorded passkey (new_session sv token now w)
    else (inl service_failed, w)

abbrev pub finish_login_with :
    Services → Text → Text → Option Text → Word → Word → Auth → Option WebAuthn → Result Text
finish_login_with sv key body token now later w none = (inl web_authn_unavailable, w)
finish_login_with sv key body token now later w (some wa) =
    let (session, m) = take_challenge key now w.challenges in
    login_with sv wa body token later (record w { challenges = m }) session

-- `FinishPasskeyLogin`
unfoldable pub finish_passkey_login :
    Services → Text → Text → Option Text → Word → Word → Auth → Result Text
finish_passkey_login sv key body token now later w =
    finish_login_with sv key body token now later w sv.web_authn
