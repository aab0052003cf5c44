-- ===== src/Hub/Auth/Stores.antt =====
-- internal/hub/adapter/secondary/memory: operator_store.go, operator_session_store.go and
-- challenge_store.go, the stores behind the operator's login. Each method holds its store's mutex,
-- so it is one step; none of them reports an error. A time is in seconds.
use constellate.Common.{
  Bool, true, false, if◌then◌else◌, Option, none, some, List, [], ◌∷◌, ◌++◌, Word, le_int,
}
use constellate.Maps.{Text, Map, find, put, remove}

-- What a map that is a set holds under a key.
pub data Present : Type 0 where
  present : Present

pub record OperatorStore : Type 0 where
  pub totp_secret : Text
  pub has_totp : Bool
  pub totp_last_step : Word
  pub recovery_codes : Map Present
  pub web_authn_creds : List Text

-- `NewOperatorStore`
unfoldable pub new_operator_store : OperatorStore
new_operator_store = record {
  totp_secret = [];
  has_totp = false;
  totp_last_step = 0;
  recovery_codes = [];
  web_authn_creds = [];
}

-- `TOTPSecret`
unfoldable pub totp_secret_of : OperatorStore → Option Text
totp_secret_of s = if s.has_totp then some s.totp_secret else none

-- `SaveTOTP`
unfoldable pub save_totp : Text → OperatorStore → OperatorStore
save_totp secret s = record s { totp_secret = secret; has_totp = true }

put_all : List Text → Map Present → Map Present
put_all [] m = m
put_all (h ∷ hs) m = put_all hs (put h present m)

-- `SaveRecoveryCodes`
unfoldable pub save_recovery_codes : List Text → OperatorStore → OperatorStore
unfolding put_all
save_recovery_codes hashes s = record s { recovery_codes = put_all hashes s.recovery_codes }

-- `ConsumeRecoveryCode` behind its lookup.
abbrev pub consume_found : Text → OperatorStore → Option Present → Bool × OperatorStore
consume_found hash s none = (false, s)
consume_found hash s (some p) = (true, record s { recovery_codes = remove hash s.recovery_codes })

unfoldable pub consume_recovery_code : Text → OperatorStore → Bool × OperatorStore
consume_recovery_code hash s = consume_found hash s (find hash s.recovery_codes)

-- `SaveWebAuthnCredential`
unfoldable pub save_web_authn_credential : Text → OperatorStore → OperatorStore
save_web_authn_credential cred s = record s { web_authn_creds = s.web_authn_creds ++ (cred ∷ []) }

-- `SetTOTPStep`
unfoldable pub set_totp_step : Word → OperatorStore → OperatorStore
set_totp_step step s = record s { totp_last_step = step }

pub record OperatorSession : Type 0 where
  pub created_at : Word
  pub expires_at : Word
  pub last_seen_at : Word

abbrev pub SessionStore : Type 0
SessionStore = Map OperatorSession

-- `Create`
unfoldable pub create_session : Text → Word → Word → SessionStore → SessionStore
create_session id created_at expires_at m =
    put id (record { created_at = created_at; expires_at = expires_at; last_seen_at = 0 }) m

-- `Validate` behind its lookup: nothing, or the time of expiry.
abbrev pub validate_found :
    Text → Word → SessionStore → Option OperatorSession → Option Word × SessionStore
validate_found id now m none = (none, m)
validate_found id now m (some s) =
    if le_int s.expires_at now
    then (none, m)
    else (some s.expires_at, put id (record s { last_seen_at = now }) m)

unfoldable pub validate : Text → Word → SessionStore → Option Word × SessionStore
validate id now m = validate_found id now m (find id m)

abbrev pub refresh_found : Text → Word → SessionStore → Option OperatorSession → SessionStore
refresh_found id expires_at m none = m
refresh_found id expires_at m (some s) = put id (record s { expires_at = expires_at }) m

-- `Refresh`
unfoldable pub refresh : Text → Word → SessionStore → SessionStore
refresh id expires_at m = refresh_found id expires_at m (find id m)

-- `Delete`
unfoldable pub delete_session : Text → SessionStore → SessionStore
delete_session id m = remove id m

pub record Challenge : Type 0 where
  pub session : Text
  pub expires_at : Word

abbrev pub ChallengeStore : Type 0
ChallengeStore = Map Challenge

-- `Put`
unfoldable pub put_challenge : Text → Text → Word → ChallengeStore → ChallengeStore
put_challenge key session expires_at m =
    put key (record { session = session; expires_at = expires_at }) m

abbrev pub take_found :
    Text → Word → ChallengeStore → Option Challenge → Option Text × ChallengeStore
take_found key now m none = (none, m)
take_found key now m (some e) =
    if le_int e.expires_at now then (none, remove key m) else (some e.session, remove key m)

-- `Take`
unfoldable pub take_challenge : Text → Word → ChallengeStore → Option Text × ChallengeStore
take_challenge key now m = take_found key now m (find key m)
