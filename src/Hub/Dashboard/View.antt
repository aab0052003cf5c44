-- ===== src/Hub/Dashboard/View.antt =====
-- dashboard/usecase.go: what `Overview` makes of the counts. `sort.Slice` is given an order that
-- leaves no two different entries equal, as their keys end with an identifier, so that it comes to
-- an insertion sort. The ranges over maps give their entries in any order.
pub mod Shared
use constellate.Common.{
  ℕ, ◌+◌, ◌==◌, Bool, true, false, not, ◌&&◌, ◌||◌, ltb, if◌then◌else◌, Option, none, some, List,
  [], ◌∷◌, ◌++◌, ◌>>=◌,
}
use mathlib.Core.List.{map}
use constellate.Maps.{Text, same_text, is_empty, Map}
use constellate.Hub.Session.{Session}
use constellate.Hub.Machines.{Machine}
use constellate.Hub.Projects.{Project}
use constellate.Hub.Audit.{Event}
use constellate.Hub.Dashboard.{
  Totals, MachineEntry, ProjectRollup, Kind, awaiting_input, disconnected_sessions, lost_session,
  AttentionItem, Progress, roll_all, start,
}

-- `a < b` of two strings
unfoldable pub less_text : Text → Text → Bool
less_text [] [] = false
less_text [] (d ∷ ds) = true
less_text (c ∷ cs) [] = false
less_text (c ∷ cs) (d ∷ ds) = ltb c d || (c == d && less_text cs ds)

module _ {A : Type 0} (less : A → A → Bool) where
  unfoldable pub insert : A → List A → List A
  insert a [] = a ∷ []
  insert a (b ∷ bs) = if less b a then b ∷ insert a bs else a ∷ b ∷ bs

  unfoldable pub sort : List A → List A
  sort [] = []
  sort (a ∷ as') = insert a (sort as')

unfoldable pub values : {V : Type 0} → Map V → List V
values [] = []
values ((k, v) ∷ m) = v ∷ values m

unfoldable pub less_machine : MachineEntry → MachineEntry → Bool
less_machine a b = if same_text a.name b.name then less_text a.id b.id else less_text a.name b.name

-- The bucket of the others sorts last.
unfoldable pub less_project : ProjectRollup → ProjectRollup → Bool
less_project a b =
    if is_empty a.id
    then false
    else if is_empty b.id
    then true
    else if same_text a.name b.name
    then less_text a.id b.id
    else less_text a.name b.name

unfoldable pub rank : Kind → ℕ
rank awaiting_input = 0
rank disconnected_sessions = 1
rank lost_session = 2

unfoldable pub less_item : AttentionItem → AttentionItem → Bool
less_item a b =
    if not (rank a.kind == rank b.kind)
    then ltb (rank a.kind) (rank b.kind)
    else if not (same_text a.machine_id b.machine_id)
    then less_text a.machine_id b.machine_id
    else less_text a.session_id b.session_id

-- The machines that are offline and own disconnected sessions.
unfoldable pub offline_items : List MachineEntry → List AttentionItem
offline_items [] = []
offline_items (m ∷ ms) =
    if not m.online && ltb 0 m.disconnected_count
    then record { kind = disconnected_sessions; machine_id = m.id; session_id = []; label = m.name }
      ∷ offline_items ms
    else offline_items ms

-- The bucket of the others is left out where it is empty.
unfoldable pub shown : List ProjectRollup → List ProjectRollup
shown [] = []
shown (p ∷ ps) = if is_empty p.id && p.total == 0 then shown ps else p ∷ shown ps

pub record AuditEntry : Type 0 where
  pub ts : ℕ
  pub actor : Text
  pub action : Text
  pub machine_id : Text
  pub session_id : Text
  pub detail : Text

abbrev pub audit_entry : Event → AuditEntry
audit_entry e = record {
  ts = e.ts;
  actor = e.actor;
  action = e.action;
  machine_id = e.machine_id;
  session_id = e.session_id;
  detail = e.detail;
}

pub record View : Type 0 where
  pub totals : Totals
  pub machines : List MachineEntry
  pub projects : List ProjectRollup
  pub attention : List AttentionItem
  pub recent_audit : List AuditEntry

unfoldable pub view_of : List Event → Progress → View
view_of events g = record {
  totals = g.totals;
  machines = sort less_machine (values g.machines);
  projects = sort less_project (shown (values g.projects));
  attention = sort less_item (g.attention ++ offline_items (values g.machines));
  recent_audit = map audit_entry events;
}

-- `Overview`: what the four stores list, `none` where one fails. The result is `none` too where a
-- pointer would be nil, which `Overview` does not meet.
unfoldable pub overview :
    (Text → Bool)
    → Option (List Machine)
    → Option (List Session)
    → Option (List Project)
    → Option (List Event)
    → Option View
overview online machines sessions projects events = machines >>= λ ms. sessions >>= λ ss.
    projects >>= λ ps.
    events >>= λ es. roll_all ss (start online ms ps) >>= λ g. some (view_of es g)
