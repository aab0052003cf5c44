-- ===== src/Tests/Enrolled.antt =====
-- The enrolment of machines at concrete inputs.
use constellate.Common.{
  ◌≡◌, ◌≢◌, refl, arith, false, inl, inr, some, List, [], ◌∷◌, le_int, replicate,
}
use constellate.Maps.{Text, find, same_text}
use constellate.Maps.Laws.{same_text_refl}
use constellate.Transport.AgentToken.{Crypto, build_agent_token, cut}
use constellate.Hub.Machines.{Machine, new_machine, is_revoked, revoke_stored}
use constellate.Hub.Enroll.{
  Services, EnrollInput, Enrolment, invalid_token, enroll, revoke, authenticate, consume, admit,
}
use constellate.Hub.Enroll.Calls.{Call, beating, enrolling, minting, run_all, mints, lets_back}
use constellate.Hub.Enroll.Authenticated.{
  Admits, authenticate-Admits, authenticate-build_agent_token,
}
use constellate.Hub.Enroll.Tokens.{enroll_once}
use constellate.Hub.Enroll.Revoked.{revoke_refused}

-- A signature is the key that made it, and a hash the token itself.
abbrev crypto : Crypto
crypto = record {
  sign = λ key input. key;
  verify = λ key input sig. same_text key sig;
  encode = λ s. s;
  decode = λ s. some s;
}

abbrev services : Services
services = record { token_hash = λ t. t; crypto = crypto; token_ttl = 600 }

abbrev key : Text
key = replicate 32 b'k'

abbrev id : Text
id = b'm' ∷ []

abbrev token : Text
token = b't' ∷ []

abbrev input : EnrollInput
input = record { token = token; public_key = key; name = []; os = []; arch = [] }

abbrev machine : Machine
machine = new_machine id [] [] [] [] [] 100

abbrev fleet : Enrolment
fleet = record {
  tokens = (token, record { expires_at = 900; used_at = 0; used = false }) ∷ [];
  creds = (id, key) ∷ [];
  machines = (id, machine) ∷ [];
  audit = [];
}

authenticate-build_agent_token_example :
    authenticate services (build_agent_token crypto id key 1000) 1060 fleet ≡ inr id
unfolding cut find same_text is_revoked new_machine
authenticate-build_agent_token_example =
    authenticate-build_agent_token services id key key 1000 1060 machine fleet (λ s. refl)
      (λ x. same_text_refl key) (refl, refl) (omega arith, omega arith, omega arith, omega arith)
      refl refl refl

authenticate-Admits_example : Admits services (build_agent_token crypto id key 1000) 1060 fleet id
authenticate-Admits_example =
    authenticate-Admits services (build_agent_token crypto id key 1000) id 1060 fleet (omega arith)
      authenticate-build_agent_token_example

abbrev later_calls : List Call
later_calls = beating id 250 ∷ minting (some (b'u' ∷ [])) 260 ∷ enrolling input id 270 ∷ []

abbrev enrolled : Enrolment
enrolled = run_all services later_calls (enroll services input (b'n' ∷ []) 200 fleet).1

enroll_once_example : enroll services input (b'o' ∷ []) 300 enrolled ≡ (inl invalid_token, enrolled)
unfolding enroll admit consume find same_text le_int mints
enroll_once_example =
    enroll_once services input input (b'n' ∷ []) (b'o' ∷ []) (b'n' ∷ []) 200 300 later_calls fleet
      refl (refl, (refl, (refl, tt))) refl

revoke_refused_example :
    authenticate services
      (build_agent_token crypto id key 1000)
      1060
      (run_all services later_calls (revoke id 200 fleet).1)
    ≢ inr id
unfolding revoke revoke_stored find same_text lets_back
revoke_refused_example =
    revoke_refused services id (build_agent_token crypto id key 1000) 200 1060 later_calls fleet
      refl refl (refl, (refl, (refl, tt)))
