-- ===== src/Hub/Machines.antt =====
-- internal/hub/domain/machine/machine.go, its in-memory store of
-- internal/hub/adapter/secondary/memory/machine_store.go, and the registry of
-- internal/hub/app/registry/usecase.go over that store. The accessors are the fields. Each method of
-- the store holds its mutex, so it is one step.
pub mod Changes
pub mod Restarts
use constellate.Common.{
  Bool, true, false, not, ◌&&◌, ◌==◌, if◌then◌else◌, Option, none, some, List, [], ◌∷◌, Word,
}
use constellate.Maps.{Text, same_text, is_empty, Map, find, put, remove}

pub record Machine : Type 0 where
  pub id : Text
  pub instance_id : Text
  pub name : Text
  pub os : Text
  pub arch : Text
  pub agent_version : Text
  pub enrolled_at : Word
  pub last_seen_at : Word
  pub revoked_at : Word

-- `New`
unfoldable pub new_machine : Text → Text → Text → Text → Text → Text → Word → Machine
new_machine id instance_id name os arch agent_version enrolled_at = record {
  id = id;
  instance_id = instance_id;
  name = name;
  os = os;
  arch = arch;
  agent_version = agent_version;
  enrolled_at = enrolled_at;
  last_seen_at = enrolled_at;
  revoked_at = 0;
}

-- `Revoked`
unfoldable pub is_revoked : Machine → Bool
is_revoked m = not (m.revoked_at == 0)

-- `MarkRevoked` and `ClearRevoked`
unfoldable pub mark_revoked : Word → Machine → Machine
mark_revoked ts m = record m { revoked_at = ts }

unfoldable pub clear_revoked : Machine → Machine
clear_revoked m = record m { revoked_at = 0 }

abbrev pub MachineStore : Type 0
MachineStore = Map Machine

-- `Upsert` for what the map holds: the times of enrolment and revocation are the old ones.
abbrev pub merged : Machine → Option Machine → Machine
merged m none = m
merged m (some old) = record m { enrolled_at = old.enrolled_at; revoked_at = old.revoked_at }

unfoldable pub upsert : Machine → MachineStore → MachineStore
upsert m st = put m.id (merged m (find m.id st)) st

-- A method that changes a machine that is there; the answer is whether it is, and the error of the
-- others is `machine.ErrNotFound`.
abbrev pub change_found :
    Text → (Machine → Machine) → MachineStore → Option Machine → Bool × MachineStore
change_found id f st none = (false, st)
change_found id f st (some m) = (true, put id (f m) st)

abbrev pub change : Text → (Machine → Machine) → MachineStore → Bool × MachineStore
change id f st = change_found id f st (find id st)

-- `UpdateLastSeen`
unfoldable pub update_last_seen : Text → Word → MachineStore → Bool × MachineStore
update_last_seen id ts st = change id (λ m. record m { last_seen_at = ts }) st

-- `MarkRevoked`
unfoldable pub revoke_stored : Text → Word → MachineStore → Bool × MachineStore
revoke_stored id ts st = change id (mark_revoked ts) st

-- `ClearRevoked`
unfoldable pub unrevoke_stored : Text → MachineStore → Bool × MachineStore
unrevoke_stored id st = change id clear_revoked st

abbrev pub delete_found : Text → MachineStore → Option Machine → Bool × MachineStore
delete_found id st none = (false, st)
delete_found id st (some m) = (true, remove id st)

-- `Delete`
unfoldable pub delete_stored : Text → MachineStore → Bool × MachineStore
delete_stored id st = delete_found id st (find id st)

-- `List`
unfoldable pub list : MachineStore → List Machine
list [] = []
list ((id, m) ∷ st) = m ∷ list st

pub record RegisterInput : Type 0 where
  pub machine_id : Text
  pub instance_id : Text
  pub name : Text
  pub os : Text
  pub arch : Text
  pub agent_version : Text

-- Whether the process of the agent is another one than before.
unfoldable pub has_restarted : RegisterInput → Option Machine → Bool
has_restarted i none = false
has_restarted i (some prior) =
    not (is_empty i.instance_id)
    && not (is_empty prior.instance_id)
    && not (same_text prior.instance_id i.instance_id)

-- `Register`: whether the agent restarted, and the store.
unfoldable pub register : RegisterInput → Word → MachineStore → Bool × MachineStore
register i now st = (
  has_restarted i (find i.machine_id st),
  upsert (new_machine i.machine_id i.instance_id i.name i.os i.arch i.agent_version now) st,
)

-- `Heartbeat`
unfoldable pub heartbeat : Text → Word → MachineStore → Bool × MachineStore
heartbeat id now st = update_last_seen id now st

-- `MachineView`, over the type of the metrics.
pub record MachineView (M : Type 0) : Type 0 where
  pub machine : Machine
  pub online : Bool
  pub metrics : Option M

-- `List` of the use case, with the answers of the port `LiveAgents`.
unfoldable pub views :
    {M : Type 0} → (Text → Bool) → (Text → Option M) → List Machine → List (MachineView M)
views online metrics [] = []
views online metrics (m ∷ ms) =
    record {
      machine = m;
      online = online m.id;
      metrics = if online m.id then metrics m.id else none;
    }
    ∷ views online metrics ms
