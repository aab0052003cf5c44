-- ===== src/Hub/Enroll/Calls.antt =====
-- The calls of internal/hub/app/enroll/usecase.go, and of internal/hub/app/registry/usecase.go over
-- the same machines, as data.
use constellate.Common.{Bool, false, ◌&&◌, ◌==◌, Option, none, some, List, [], ◌∷◌, Word}
use constellate.Maps.{Text, same_text}
use constellate.Hub.Enroll.{
  Services, EnrollInput, Enrolment, mint_token, enroll, revoke, unrevoke, delete_machine,
}
use constellate.Hub.Machines.{RegisterInput, register, heartbeat}

pub data Call : Type 0 where
  minting : Option Text → Word → Call
  enrolling : EnrollInput → Text → Word → Call
  revoking : Text → Word → Call
  unrevoking : Text → Call
  deleting : Text → Call
  registering : RegisterInput → Word → Call
  beating : Text → Word → Call

unfoldable pub run : Services → Call → Enrolment → Enrolment
run sv (minting random now) w = (mint_token sv random now w).1
run sv (enrolling i id now) w = (enroll sv i id now w).1
run sv (revoking id now) w = (revoke id now w).1
run sv (unrevoking id) w = (unrevoke id w).1
run sv (deleting id) w = (delete_machine id w).1
run sv (registering i now) w = record w { machines = (register i now w.machines).1 }
run sv (beating id now) w = record w { machines = (heartbeat id now w.machines).1 }

-- The calls one after the other.
unfoldable pub run_all : Services → List Call → Enrolment → Enrolment
run_all sv [] w = w
run_all sv (c ∷ cs) w = run_all sv cs (run sv c w)

-- Whether a call mints a token of the hash `h`.
unfoldable pub mints : Services → Text → Call → Bool
mints sv h (minting (some p) now) = same_text (sv.token_hash p) h
mints sv h (minting none now) = false
mints sv h (enrolling i id now) = false
mints sv h (revoking id now) = false
mints sv h (unrevoking id) = false
mints sv h (deleting id) = false
mints sv h (registering i now) = false
mints sv h (beating id now) = false

-- Whether a call ends the revocation of the machine `id`, or revokes it at the time 0, which counts
-- as none.
unfoldable pub lets_back : Text → Call → Bool
lets_back id (unrevoking j) = same_text j id
lets_back id (deleting j) = same_text j id
lets_back id (revoking j now) = same_text j id && (now == 0)
lets_back id (minting random now) = false
lets_back id (enrolling i j now) = false
lets_back id (registering i now) = false
lets_back id (beating j now) = false
