-- ===== src/Tests/Access.antt =====
-- The operator's login, its limiter and the enrolment of machines at concrete inputs.
use constellate.Common.{
  ℕ, ◌≡◌, refl, arith, true, inl, inr, Option, none, some, List, [], ◌∷◌, le_int, add_int, Word,
}
use constellate.Maps.{Text, find, same_text}
use constellate.Hub.RateLimit.{RateLimiter, new_rate_limiter}
use constellate.Hub.RateLimit.Counter.{
  answers, counted_answers, times_of, answers_counted, IsDistinct, InOrder,
}
use constellate.Hub.Auth.{
  Services, Auth, invalid_credential, check_totp, accept_totp, login_totp, login_recovery, logout,
  validate_session,
}
use constellate.Hub.Auth.Stores.{present, totp_secret_of}
use constellate.Hub.Auth.Steps.{here, then_step, logged_out}
use constellate.Hub.Auth.Replay.{login_totp_once, login_totp_overlap, login_recovery_once}

abbrev address : Text
address = b'a' ∷ []

abbrev limiter : RateLimiter
limiter = new_rate_limiter 2 60

abbrev requests : List (Text × ℕ)
requests = (address, 20) ∷ ([], 25) ∷ (address, 30) ∷ []

requests-InOrder : InOrder 10 requests
unfolding InOrder
requests-InOrder = (omega arith, (omega arith, (omega arith, omega arith)))

limiter_IsDistinct : IsDistinct limiter.entries
unfolding IsDistinct new_rate_limiter
limiter_IsDistinct = omega arith

answers_counted_example :
    answers address requests limiter
    ≡ counted_answers limiter.max limiter.window
        (times_of address requests)
        (find address limiter.entries)
answers_counted_example =
    answers_counted address requests 10 limiter limiter_IsDistinct requests-InOrder

-- A code is its step, in its one byte, and a hash the text itself.
abbrev services : Services
services = record {
  generate = λ issuer account. none;
  matches = λ secret code now. step_of code;
  hash = λ t. t;
  web_authn = none;
  session_ttl = 1;
  ttl_seconds = 3600;
}
  where
    step_of : Text → Option Word
    step_of [] = none
    step_of (c ∷ cs) = some c

abbrev operator : Auth
operator = record {
  ops = record {
    totp_secret = [];
    has_totp = true;
    totp_last_step = 3;
    recovery_codes = (b'r' ∷ [], present) ∷ [];
    web_authn_creds = [];
  };
  sessions = (b's' ∷ [], record { created_at = 0; expires_at = 4000; last_seen_at = 0 }) ∷ [];
  challenges = [];
  audit = [];
}

-- The operator is logged in by the code 5, and out again.
abbrev logged_in : Auth
logged_in = (login_totp services (5 ∷ []) 100 (some (b't' ∷ [])) 100 operator).1

abbrev logged_out_again : Auth
logged_out_again = logout (b't' ∷ []) logged_in

login_totp_once_example :
    login_totp services (5 ∷ []) 110 (some (b'u' ∷ [])) 110 logged_out_again
    ≡ (inl invalid_credential, logged_out_again)
unfolding check_totp totp_secret_of le_int
login_totp_once_example =
    login_totp_once services (5 ∷ []) (5 ∷ []) 100 110 operator logged_out_again 5 5
      (some (b't' ∷ [])) (some (b'u' ∷ [])) 100 110 refl
      (then_step here (logged_out (b't' ∷ []) refl)) refl refl

login_totp_overlap_example :
    let one = accept_totp services 5 (some (b't' ∷ [])) 100 operator in
    let two = accept_totp services 5 (some (b'u' ∷ [])) 110 one.1 in
    (one.0 ≡ inr (b't' ∷ []))
    × (two.0 ≡ inr (b'u' ∷ []))
    × ((validate_session services (b't' ∷ []) 120 two.1).0.0 ≡ true)
    × ((validate_session services (b'u' ∷ []) 120 two.1).0.0 ≡ true)
    × ((login_totp services
          (5 ∷ [])
          110
          (some (b'u' ∷ []))
          110
          (login_totp services (5 ∷ []) 100 (some (b't' ∷ [])) 100 operator).1).0
        ≡ inl invalid_credential)
unfolding check_totp totp_secret_of le_int same_text add_int
login_totp_overlap_example =
    login_totp_overlap services (5 ∷ []) (5 ∷ []) 100 110 5 5 (b't' ∷ []) (b'u' ∷ []) 100 110 120
      operator refl refl refl refl refl refl

abbrev recovered : Auth
recovered = (login_recovery services (b'r' ∷ []) (some (b't' ∷ [])) 100 operator).1

login_recovery_once_example :
    login_recovery services (b'r' ∷ []) (some (b'u' ∷ [])) 110 (logout (b't' ∷ []) recovered)
    ≡ (inl invalid_credential, logout (b't' ∷ []) recovered)
login_recovery_once_example =
    login_recovery_once services (b'r' ∷ []) (some (b't' ∷ [])) (some (b'u' ∷ [])) 100 110 operator
      (logout (b't' ∷ []) recovered) refl (then_step here (logged_out (b't' ∷ []) refl))
