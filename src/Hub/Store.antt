-- ===== src/Hub/Store.antt =====
-- The port `SessionStore` of internal/hub/app/sessions/ports.go, and its implementation in
-- internal/hub/adapter/secondary/memory/session_store.go. The Go map is an association list, in an
-- order about which nothing is assumed. Every method holds the mutex for its whole body.
pub mod Keyed
pub mod Laws
use constellate.Common.{
  ℕ, Bool, true, false, not, ◌&&◌, ◌||◌, if◌then◌else◌, ◌+◌, Option, none, some, ◌⊎◌, inl, inr,
  List, [], ◌∷◌, Word, lt_int,
}
unfoldable pub use constellate.Maps.{find, put, remove}
use constellate.Maps.{Map, is_empty}
use constellate.Hub.Session.{
  Text, same_text, Session, running, lost, disconnected, set_status, set_exited, touch, set_title,
  set_activity, set_pwd, set_auto_relaunch, is_running, is_disconnected,
}

pub data Error : Type 0 where
  not_found : Error
  session_running : Error
  external : ℕ → Error

abbrev pub Store : Type 0
Store = Map Session

-- `NewSessionStore`
abbrev pub empty : Store
empty = []

unfoldable pub select : (Session → Bool) → Store → List Session
select p [] = []
select p ((k, s) ∷ st) = if p s then s ∷ select p st else select p st

-- A loop over the map that changes the sessions of which `p` holds.
unfoldable pub update_where : (Session → Bool) → (Session → Session) → Store → Store
update_where p f [] = []
update_where p f ((k, s) ∷ st) = (k, if p s then f s else s) ∷ update_where p f st

-- The shape that the methods on one session share.
unfoldable pub modify : Text → (Session → Session) → Store → Option Error × Store
modify id f st = elim (find id st) [
  | none ↦ (some not_found, st)
  | some s ↦ (none, put id (f s) st)
]

-- `ByID`
unfoldable pub by_id : Text → Store → Error ⊎ Session
by_id id st = elim (find id st) [ none ↦ inl not_found | some s ↦ inr s ]

-- `Create`
unfoldable pub create : Session → Store → Option Error × Store
create s st = (none, put s.id s st)

unfoldable pub of_machine : Text → Session → Bool
of_machine machine_id s = same_text s.machine_id machine_id

unfoldable pub is_live : Session → Bool
is_live s = is_running s || is_disconnected s

-- `List` and `ListByMachine`
pub list_all : Store → List Session
list_all st = select (λ s. true) st

pub list_by_machine : Text → Store → List Session
list_by_machine machine_id st = select (of_machine machine_id) st

unfoldable pub relaunches : Text → Session → Bool
relaunches machine_id s = of_machine machine_id s && is_live s && s.auto_relaunch

-- `AutoRelaunchSessions`, which another store may refuse
unfoldable pub auto_relaunch_sessions : Text → Store → Error ⊎ List Session
auto_relaunch_sessions machine_id st = inr (select (relaunches machine_id) st)

-- `CountByProject`
pub count_by_project : Text → Store → ℕ
count_by_project project_id [] = 0
count_by_project project_id ((k, s) ∷ st) =
    let n = count_by_project project_id st in if same_text s.project_id project_id then n + 1 else n

-- `SetExited`
unfoldable pub store_exited : Text → Word → Word → Store → Option Error × Store
store_exited id code ts st = modify id (set_exited code ts) st

-- `MarkRunningLost`
unfoldable pub mark_running_lost : Text → Word → Store → Option Error × Store
mark_running_lost machine_id ts st = (
  none,
  update_where (λ s. of_machine machine_id s && is_live s && not s.auto_relaunch)
      (λ s. touch ts (set_status lost s)) st,
)

-- `MarkRunningDisconnected`
unfoldable pub mark_running_disconnected : Text → Word → Store → Option Error × Store
mark_running_disconnected machine_id ts st = (
  none,
  update_where (λ s. of_machine machine_id s && is_running s)
      (λ s. touch ts (set_status disconnected s)) st,
)

-- `MarkDisconnectedRunning`
unfoldable pub mark_disconnected_running : Text → Store → Option Error × Store
mark_disconnected_running machine_id st =
    (none, update_where (λ s. of_machine machine_id s && is_disconnected s) (set_status running) st)

-- `SetRunning`
unfoldable pub set_running : Text → Store → Option Error × Store
set_running id st = modify id (set_status running) st

-- `SetLost`
unfoldable pub set_lost : Text → Word → Store → Option Error × Store
set_lost id ts st = modify id (λ s. touch ts (set_status lost s)) st

-- `SetTitle` and `SetAutoRelaunch`
unfoldable pub store_title : Text → Text → Store → Option Error × Store
store_title id title st = modify id (set_title title) st

unfoldable pub store_auto_relaunch : Text → Bool → Store → Option Error × Store
store_auto_relaunch id v st = modify id (set_auto_relaunch v) st

-- `Delete`
unfoldable pub delete : Text → Store → Option Error × Store
delete id st = elim (find id st) [ none ↦ (some not_found, st) | some s ↦ (none, remove id st) ]

unfoldable pub stat_of : Text → Text → Word → Session → Session
stat_of activity pwd last_active_at s =
    let s1 = if is_empty activity then s else set_activity activity s in
    let s2 = if is_empty pwd then s1 else set_pwd pwd s1 in
    if lt_int 0 last_active_at then touch last_active_at s2 else s2

-- `SetStat`
unfoldable pub set_stat : Text → Text → Text → Word → Store → Option Error × Store
set_stat id activity pwd last_active_at st = modify id (stat_of activity pwd last_active_at) st
