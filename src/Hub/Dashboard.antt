-- ===== src/Hub/Dashboard.antt =====
-- internal/hub/app/dashboard/usecase.go: the counts of machines, projects and sessions that the
-- operator sees. The stores are ports: what they list is an argument, `none` where they fail, and
-- `online` is what the live agents answer. The counts are bounded by the lengths of the lists, so
-- that they are natural numbers. A string is compared by its bytes.
pub mod View
pub mod Counts
pub mod Rollups
pub mod Tallies
use constellate.Common.{
  ℕ, ◌+◌, ◌==◌, Bool, true, false, not, ◌&&◌, ◌||◌, ltb, if◌then◌else◌, Option, none, some, List,
  [], ◌∷◌, ◌++◌, ◌>>=◌, Word, length,
}
use mathlib.Core.List.{map}
use constellate.Maps.{Text, same_text, is_empty, Map, find, put}
use constellate.Hub.Session.{
  Session, Status, running, exited, lost, disconnected, activity_active, activity_idle,
  activity_awaiting_input,
}
use constellate.Hub.Machines.{Machine, is_revoked}
use constellate.Hub.Projects.{Project}
use constellate.Hub.Audit.{Event}

pub record Totals : Type 0 where
  pub machines_online : ℕ
  pub machines_total : ℕ
  pub sessions_running : ℕ
  pub sessions_exited : ℕ
  pub sessions_lost : ℕ
  pub sessions_disconnected : ℕ
  pub sessions_total : ℕ
  pub projects_total : ℕ
  pub sessions_active : ℕ
  pub sessions_idle : ℕ
  pub sessions_awaiting_input : ℕ

-- `MachineRollup`, with the count `disconnected` of the `machineEntry` that holds it
pub record MachineEntry : Type 0 where
  pub id : Text
  pub name : Text
  pub os : Text
  pub online : Bool
  pub revoked : Bool
  pub last_seen_at : Word
  pub running_count : ℕ
  pub total : ℕ
  pub disconnected_count : ℕ

pub record ProjectRollup : Type 0 where
  pub id : Text
  pub name : Text
  pub machine_id : Text
  pub running_count : ℕ
  pub exited_count : ℕ
  pub lost_count : ℕ
  pub disconnected_count : ℕ
  pub total : ℕ

-- The kinds of `AttentionItem`, in the order of their texts.
pub data Kind : Type 0 where
  awaiting_input : Kind
  disconnected_sessions : Kind
  lost_session : Kind

pub record AttentionItem : Type 0 where
  pub kind : Kind
  pub machine_id : Text
  pub session_id : Text
  pub label : Text

-- The local variables of `Overview` that the loop over the sessions changes.
pub record Progress : Type 0 where
  pub totals : Totals
  pub machines : Map MachineEntry
  pub projects : Map ProjectRollup
  pub attention : List AttentionItem

-- The loop over the machines.
unfoldable pub machine_entry : (Text → Bool) → Machine → MachineEntry
machine_entry online m = record {
  id = m.id;
  name = m.name;
  os = m.os;
  online = online m.id;
  revoked = is_revoked m;
  last_seen_at = m.last_seen_at;
  running_count = 0;
  total = 0;
  disconnected_count = 0;
}

unfoldable pub index_machines : (Text → Bool) → List Machine → Map MachineEntry → Map MachineEntry
index_machines online [] ms = ms
index_machines online (m ∷ rest) ms =
    index_machines online rest (put m.id (machine_entry online m) ms)

unfoldable pub count_online : (Text → Bool) → List Machine → ℕ
count_online online [] = 0
count_online online (m ∷ ms) = (if online m.id then 1 else 0) + count_online online ms

-- The loop over the projects, and the bucket of the others under the empty identifier.
unfoldable pub project_rollup : Text → Text → Text → ProjectRollup
project_rollup id name machine_id = record {
  id = id;
  name = name;
  machine_id = machine_id;
  running_count = 0;
  exited_count = 0;
  lost_count = 0;
  disconnected_count = 0;
  total = 0;
}

unfoldable pub index_projects : List Project → Map ProjectRollup → Map ProjectRollup
index_projects [] ps = ps
index_projects (p ∷ rest) ps =
    index_projects rest (put p.id (project_rollup p.id p.name p.machine_id) ps)

-- "Ungrouped"
abbrev pub ungrouped_name : Text
ungrouped_name = b'U' ∷ b'n' ∷ b'g' ∷ b'r' ∷ b'o' ∷ b'u' ∷ b'p' ∷ b'e' ∷ b'd' ∷ []

abbrev pub ungrouped : ProjectRollup
ungrouped = project_rollup [] ungrouped_name []

unfoldable pub project_index : List Project → Map ProjectRollup
project_index ps = put [] ungrouped (index_projects ps [])

-- The first `switch` of the loop over the sessions.
unfoldable pub count_status : Status → Totals → Totals
count_status running t = record t { sessions_running = t.sessions_running + 1 }
count_status exited t = record t { sessions_exited = t.sessions_exited + 1 }
count_status lost t = record t { sessions_lost = t.sessions_lost + 1 }
count_status disconnected t = record t { sessions_disconnected = t.sessions_disconnected + 1 }

-- The second, which counts three activities of running sessions.
unfoldable pub count_named : Text → Totals → Totals
count_named a t =
    if same_text a activity_active
    then record t { sessions_active = t.sessions_active + 1 }
    else if same_text a activity_idle
    then record t { sessions_idle = t.sessions_idle + 1 }
    else if same_text a activity_awaiting_input
    then record t { sessions_awaiting_input = t.sessions_awaiting_input + 1 }
    else t

unfoldable pub count_activity : Status → Text → Totals → Totals
count_activity running a t = count_named a t
count_activity exited a t = t
count_activity lost a t = t
count_activity disconnected a t = t

unfoldable pub count_session : Session → Totals → Totals
count_session s t =
    count_activity s.status s.activity
      (count_status s.status (record t { sessions_total = t.sessions_total + 1 }))

abbrev pub label_of : Session → Text
label_of s = if is_empty s.title then s.id else s.title

abbrev pub item : Kind → Session → AttentionItem
item k s = record { kind = k; machine_id = s.machine_id; session_id = s.id; label = label_of s }

-- What both put on the list of attention items.
unfoldable pub attend : Status → Session → List AttentionItem
attend lost s = item lost_session s ∷ []
attend running s =
    if same_text s.activity activity_awaiting_input then item awaiting_input s ∷ [] else []
attend exited s = []
attend disconnected s = []

-- The rollup of the session's machine; a session of an unknown machine is only logged.
unfoldable pub count_on_machine : Status → MachineEntry → MachineEntry
count_on_machine running m = record m { total = m.total + 1; running_count = m.running_count + 1 }
count_on_machine disconnected m = record m {
  total = m.total + 1;
  disconnected_count = m.disconnected_count + 1;
}
count_on_machine exited m = record m { total = m.total + 1 }
count_on_machine lost m = record m { total = m.total + 1 }

unfoldable pub roll_machine : Session → Option MachineEntry → Map MachineEntry → Map MachineEntry
roll_machine s none ms = ms
roll_machine s (some m) ms = put s.machine_id (count_on_machine s.status m) ms

-- The rollup of the session's project, or the bucket where the store has no such project.
unfoldable pub count_in_project : Status → ProjectRollup → ProjectRollup
count_in_project running p = record p { total = p.total + 1; running_count = p.running_count + 1 }
count_in_project exited p = record p { total = p.total + 1; exited_count = p.exited_count + 1 }
count_in_project lost p = record p { total = p.total + 1; lost_count = p.lost_count + 1 }
count_in_project disconnected p = record p {
  total = p.total + 1;
  disconnected_count = p.disconnected_count + 1;
}

abbrev pub is_there : {V : Type 0} → Option V → Bool
is_there none = false
is_there (some v) = true

unfoldable pub bucket_of : Session → Map ProjectRollup → Text
bucket_of s ps = if is_there (find s.project_id ps) then s.project_id else []

-- Without a bucket of its own the pointer would be nil, whose use panics.
unfoldable pub roll_project :
    Status → Text → Option ProjectRollup → Map ProjectRollup → Option (Map ProjectRollup)
roll_project st k none ps = none
roll_project st k (some p) ps = some (put k (count_in_project st p) ps)

-- One turn of the loop over the sessions.
unfoldable pub roll : Session → Progress → Option Progress
roll s g =
    let k = bucket_of s g.projects in
    roll_project s.status k (find k g.projects) g.projects >>= λ ps. some record {
      totals = count_session s g.totals;
      machines = roll_machine s (find s.machine_id g.machines) g.machines;
      projects = ps;
      attention = g.attention ++ attend s.status s;
    }

unfoldable pub roll_all : List Session → Progress → Option Progress
roll_all [] g = some g
roll_all (s ∷ ss) g = roll s g >>= λ h. roll_all ss h

abbrev pub initial_totals : (Text → Bool) → List Machine → List Project → Totals
initial_totals online ms ps = record {
  machines_online = count_online online ms;
  machines_total = length ms;
  sessions_running = 0;
  sessions_exited = 0;
  sessions_lost = 0;
  sessions_disconnected = 0;
  sessions_total = 0;
  projects_total = length ps;
  sessions_active = 0;
  sessions_idle = 0;
  sessions_awaiting_input = 0;
}

unfoldable pub start : (Text → Bool) → List Machine → List Project → Progress
start online ms ps = record {
  totals = initial_totals online ms ps;
  machines = index_machines online ms [];
  projects = project_index ps;
  attention = [];
}
