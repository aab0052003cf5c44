-- ===== src/Hub/Enroll.antt =====
-- internal/hub/app/enroll/usecase.go over the in-memory stores machine_store.go,
-- credential_store.go and enroll_token_store.go of internal/hub/adapter/secondary/memory. SHA-256 and
-- ed25519 are other libraries and parameters; the clock, new ids and random values are arguments. An
-- audit record is its action and the machine's id; log lines are left out.
pub mod Authenticated
pub mod Calls
pub mod Revoked
pub mod Tokens
use constellate.Common.{
  ℕ, ◌==◌, Bool, true, false, not, ◌||◌, if◌then◌else◌, Option, none, some, ◌⊎◌, inl, inr, List, [],
  ◌∷◌, ◌++◌, Word, length, add_int, le_int,
}
use constellate.Maps.{Text, Map, find, put}
use constellate.Hub.Machines.{
  Machine, MachineStore, new_machine, is_revoked, upsert, revoke_stored, unrevoke_stored,
  delete_stored,
}
use constellate.Transport.AgentToken.{Crypto, Parsed, parse_agent_token, verify_agent_token}

-- The sentinel errors of errors.go, `machine.ErrNotFound`, and a failing source of random bytes.
pub data Failure : Type 0 where
  invalid_token : Failure
  unknown_machine : Failure
  revoked : Failure
  not_revoked : Failure
  not_found : Failure
  no_random : Failure

pub record EnrollToken : Type 0 where
  pub expires_at : Word
  pub used_at : Word
  pub used : Bool

abbrev pub TokenStore : Type 0
TokenStore = Map EnrollToken

-- `Create` of the tokens' store
unfoldable pub create_token : Text → Word → TokenStore → TokenStore
create_token hash expires_at m =
    put hash (record { expires_at = expires_at; used_at = 0; used = false }) m

-- `Consume`: whether the token was there, unused and not over.
abbrev pub consume_found : Text → Word → TokenStore → Option EnrollToken → Bool × TokenStore
consume_found hash now m none = (false, m)
consume_found hash now m (some t) =
    if t.used || le_int t.expires_at now
    then (false, m)
    else (true, put hash (record t { used = true; used_at = now }) m)

unfoldable pub consume : Text → Word → TokenStore → Bool × TokenStore
consume hash now m = consume_found hash now m (find hash m)

-- `Save` and `PublicKey` of the credentials' store
abbrev pub save_key : Text → Text → Map Text → Map Text
save_key id key m = put id key m

abbrev pub public_key : Text → Map Text → Option Text
public_key id m = find id m

pub data AuditAction : Type 0 where
  enrolled : AuditAction
  was_revoked : AuditAction
  was_unrevoked : AuditAction
  machine_deleted : AuditAction

-- The fields of `UseCase` that nothing changes.
pub record Services : Type 0 where
  pub token_hash : Text → Text
  pub crypto : Crypto
  pub token_ttl : Word

pub record Enrolment : Type 0 where
  pub tokens : TokenStore
  pub creds : Map Text
  pub machines : MachineStore
  pub audit : List (AuditAction × Text)

pub record EnrollInput : Type 0 where
  pub token : Text
  pub public_key : Text
  pub name : Text
  pub os : Text
  pub arch : Text

-- `MintToken`, with the random token in hexadecimal.
unfoldable pub mint_token : Services → Option Text → Word → Enrolment → (Failure ⊎ Text) × Enrolment
mint_token sv none now w = (inl no_random, w)
mint_token sv (some plain) now w = (
  inr plain,
  record w { tokens = create_token (sv.token_hash plain) (add_int now sv.token_ttl) w.tokens },
)

-- `Enroll` behind the consumption of its token.
unfoldable pub admit : EnrollInput → Text → Word → Enrolment → (Failure ⊎ Text) × Enrolment
admit i id now w = (
  inr id,
  record w {
    machines = upsert (new_machine id [] i.name i.os i.arch [] now) w.machines;
    creds = save_key id i.public_key w.creds;
    audit = w.audit ++ ((enrolled, id) ∷ []);
  },
)

-- `Enroll`, with the new id.
unfoldable pub enroll :
    Services → EnrollInput → Text → Word → Enrolment → (Failure ⊎ Text) × Enrolment
enroll sv i id now w =
    let (ok, tokens) = consume (sv.token_hash i.token) now w.tokens in
    if not (length i.public_key == 32)
    then (inl invalid_token, w)
    else (if ok then admit i id now (record w { tokens = tokens }) else (inl invalid_token, w))

-- `Authenticate` behind each of its lookups.
abbrev pub verify_machine : Services → Parsed → Word → Text → Option Machine → Failure ⊎ Text
verify_machine sv p now key none = inl unknown_machine
verify_machine sv p now key (some m) =
    if is_revoked m
    then inl revoked
    else (if verify_agent_token sv.crypto key p.machine_id p.unix_ts p.sig now 120
        then inr p.machine_id
        else inl invalid_token)

abbrev pub verify_key : Services → Parsed → Word → Enrolment → Option Text → Failure ⊎ Text
verify_key sv p now w none = inl unknown_machine
verify_key sv p now w (some key) = verify_machine sv p now key (find p.machine_id w.machines)

abbrev pub verify_parsed : Services → Word → Enrolment → Option Parsed → Failure ⊎ Text
verify_parsed sv now w none = inl invalid_token
verify_parsed sv now w (some p) = verify_key sv p now w (public_key p.machine_id w.creds)

-- `Authenticate`
unfoldable pub authenticate : Services → Text → Word → Enrolment → Failure ⊎ Text
authenticate sv bearer now w = verify_parsed sv now w (parse_agent_token sv.crypto bearer)

-- A change of one machine with its audit record; the answer is the error.
abbrev pub changed :
    AuditAction → Text → Enrolment → Bool × MachineStore → Option Failure × Enrolment
changed action id w (false, st) = (some not_found, w)
changed action id w (true, st) =
    (none, record w { machines = st; audit = w.audit ++ ((action, id) ∷ []) })

-- `Revoke`
unfoldable pub revoke : Text → Word → Enrolment → Option Failure × Enrolment
revoke id now w = changed was_revoked id w (revoke_stored id now w.machines)

-- `Unrevoke`
unfoldable pub unrevoke : Text → Enrolment → Option Failure × Enrolment
unrevoke id w = changed was_unrevoked id w (unrevoke_stored id w.machines)

abbrev pub delete_machine_of : Text → Enrolment → Option Machine → Option Failure × Enrolment
delete_machine_of id w none = (some not_found, w)
delete_machine_of id w (some m) =
    if is_revoked m
    then changed machine_deleted id w (delete_stored id w.machines)
    else (some not_revoked, w)

-- `Delete`
unfoldable pub delete_machine : Text → Enrolment → Option Failure × Enrolment
delete_machine id w = delete_machine_of id w (find id w.machines)
