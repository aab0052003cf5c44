-- ===== src/Hub/UseCase.antt =====
-- internal/hub/app/sessions/usecase.go: the lifecycle of a session, over the in-memory store.
-- The agents are a parameter: what `OpenSession` and `CloseSession` of the gateway answer, and the
-- state that they keep. The clock, the new id and the random name are read once at most in each
-- operation, so they are arguments. Audit records are kept in the order in which they are made,
-- and their result is ignored, as in the source. Log lines are left out, and so is the process id,
-- which is only logged.
pub mod Deletion
pub mod Opening
pub mod Reconcile
pub mod Restart
pub mod Stats
use constellate.Common.{
  Bool, true, false, ◌&&◌, ◌||◌, if◌then◌else◌, Option, none, some, ◌⊎◌, inl, inr, List, [], ◌∷◌,
  ◌++◌, Word, le_int, lt_int,
}
use constellate.Maps.{is_empty}
use constellate.Hub.Session.{
  Text, same_text, Session, new_session, activity_active, activity_idle, activity_awaiting_input,
  activity_unknown,
}
use constellate.Hub.Store.{
  Error, not_found, session_running, Store, by_id, create, is_live, auto_relaunch_sessions,
  store_exited, mark_running_lost, mark_running_disconnected, mark_disconnected_running,
  set_running, set_lost, store_title, store_auto_relaunch, delete, set_stat,
}

pub record OpenRequest : Type 0 where
  pub machine_id : Text
  pub session_id : Text
  pub cwd : Text
  pub shell : Text
  pub cols : Word
  pub rows : Word
  pub create_dir : Bool
  pub revive : Bool

-- The port `AgentGateway`, over the state `G` of the agents.
pub record Gateway (G : Type 0) : Type 0 where
  pub open_session : OpenRequest → G → Option Error × G
  pub close_session : Text → Text → G → Option Error × G

-- `ActionDelete` with the detail "force" is `force_deleted`.
pub data AuditAction : Type 0 where
  opened : AuditAction
  closed : AuditAction
  deleted : AuditAction
  force_deleted : AuditAction
  relaunched : AuditAction

pub record Event : Type 0 where
  pub action : AuditAction
  pub machine_id : Text
  pub session_id : Text

pub record OpenInput : Type 0 where
  pub machine_id : Text
  pub project_id : Text
  pub title : Text
  pub cwd : Text
  pub shell : Text
  pub cols : Word
  pub rows : Word
  pub create_dir : Bool

pub record World (G : Type 0) : Type 0 where
  pub store : Store
  pub agents : G
  pub audit : List Event

module _ {G : Type 0} where
  abbrev pub with_store : Store → World G → World G
  with_store st w = record w { store = st }

  abbrev pub with_agents : G → World G → World G
  with_agents g w = record w { agents = g }

  -- `u.audit.Record`
  abbrev pub recorded : AuditAction → Text → Text → World G → World G
  recorded action machine_id session_id w = record w {
    audit =
        w.audit
        ++ record { action = action; machine_id = machine_id; session_id = session_id } ∷ [];
  }

  -- An operation that only passes the store's result on.
  abbrev pub on_store : (Store → Option Error × Store) → World G → Option Error × World G
  on_store f w = let (err, st) = f w.store in (err, with_store st w)

  -- An operation that does not mind a session that is not there.
  abbrev pub ignore_missing : Option Error × World G → Option Error × World G
  ignore_missing (none, w) = (none, w)
  ignore_missing (some not_found, w) = (none, w)
  ignore_missing (some e, w) = (some e, w)

-- `MarkExited`
unfoldable pub mark_exited : {G : Type 0} → Text → Word → Word → World G → Option Error × World G
mark_exited id code now w = ignore_missing (on_store (store_exited id code now) w)

-- `MarkMachineDisconnected` and `RestoreMachineSessions`
unfoldable pub mark_machine_disconnected :
    {G : Type 0} → Text → Word → World G → Option Error × World G
mark_machine_disconnected machine_id now w = on_store (mark_running_disconnected machine_id now) w

unfoldable pub restore_machine_sessions : {G : Type 0} → Text → World G → Option Error × World G
restore_machine_sessions machine_id w = on_store (mark_disconnected_running machine_id) w

-- `SetAutoRelaunch` and `Rename`
unfoldable pub set_session_auto_relaunch :
    {G : Type 0} → Text → Bool → World G → Option Error × World G
set_session_auto_relaunch id v w = on_store (store_auto_relaunch id v) w

unfoldable pub rename : {G : Type 0} → Text → Text → World G → Option Error × World G
rename id title w = on_store (store_title id title) w

unfoldable pub is_activity : Text → Bool
is_activity a =
    same_text a activity_active
    || same_text a activity_idle
    || same_text a activity_awaiting_input
    || same_text a activity_unknown

-- `RecordStat` behind its `switch`
unfoldable pub record_known :
    {G : Type 0} → Text → Text → Text → Word → World G → Option Error × World G
record_known id activity pwd now w =
    let last_active_at = if same_text activity activity_active then now else 0 in
    if is_empty activity && is_empty pwd
    then (none, w)
    else ignore_missing (on_store (set_stat id activity pwd last_active_at) w)

-- `RecordStat`
unfoldable pub record_stat :
    {G : Type 0} → Text → Text → Text → Word → World G → Option Error × World G
record_stat id reported pwd now w =
    record_known id (if is_activity reported then reported else []) pwd now w

-- What `Open` asks for, with a size below 1 replaced.
abbrev pub open_request : Text → OpenInput → OpenRequest
open_request id i = record {
  machine_id = i.machine_id;
  session_id = id;
  cwd = i.cwd;
  shell = i.shell;
  cols = if le_int i.cols 0 then 80 else i.cols;
  rows = if le_int i.rows 0 then 24 else i.rows;
  create_dir = i.create_dir;
  revive = false;
}

-- What `ReconcileMachineRestart` asks for a session.
abbrev pub relaunch_request : Text → Session → OpenRequest
relaunch_request machine_id s = record {
  machine_id = machine_id;
  session_id = s.id;
  cwd = s.cwd;
  shell = s.shell;
  cols = 80;
  rows = 24;
  create_dir = false;
  revive = true;
}

module _ {G : Type 0} (gateway : Gateway G) where
  -- `Open`
  unfoldable pub open_new : Text → Text → Word → OpenInput → World G → (Error ⊎ Session) × World G
  open_new id name now i w =
      let (err, g) = gateway.open_session (open_request id i) w.agents in
      elim err [
        | some e ↦ (inl e, with_agents g w)
        | none ↦
            let title = if is_empty i.title then name else i.title in
            let s = new_session id i.machine_id i.project_id title i.shell i.cwd now in
            let (failed, st) = create s w.store in
            elim failed [
              | some e ↦ (inl e, with_agents (gateway.close_session i.machine_id id g).1 w)
              | none ↦ (inr s, recorded opened i.machine_id id (with_agents g (with_store st w)))
            ]
      ]

  -- `Close`
  unfoldable pub close : Text → World G → Option Error × World G
  close id w = elim (by_id id w.store) [
    | inl e ↦ (some e, w)
    | inr s ↦
        let (err, g) = gateway.close_session s.machine_id id w.agents in
        elim err [
          | some e ↦ (some e, with_agents g w)
          | none ↦ (none, recorded closed s.machine_id id (with_agents g w))
        ]
  ]

  -- `ForceDelete`
  unfoldable pub force_delete : Text → World G → Option Error × World G
  force_delete id w = elim (by_id id w.store) [
    | inl e ↦ (some e, w)
    | inr s ↦
        let g =
          if is_live s then (gateway.close_session s.machine_id id w.agents).1 else w.agents in
        let (err, st) = delete id w.store in
        elim err [
          | some e ↦ (some e, with_agents g w)
          | none ↦ (none, recorded force_deleted s.machine_id id (with_agents g (with_store st w)))
        ]
  ]

  -- One round of the loop of `ReconcileMachineRestart`.
  unfoldable pub relaunch : Text → Word → Session → World G → World G
  relaunch machine_id ts s w =
      let (err, g) = gateway.open_session (relaunch_request machine_id s) w.agents in
      elim err [
        | some e ↦ with_agents g (with_store (set_lost s.id ts w.store).1 w)
        | none ↦
            recorded relaunched machine_id s.id
              (with_agents g (with_store (set_running s.id w.store).1 w))
      ]

  unfoldable pub relaunch_all : Text → Word → List Session → World G → World G
  relaunch_all machine_id ts [] w = w
  relaunch_all machine_id ts (s ∷ ss) w = relaunch_all machine_id ts ss (relaunch machine_id ts s w)

  -- `ReconcileMachineRestart`
  unfoldable pub reconcile_machine_restart : Text → Word → World G → Option Error × World G
  reconcile_machine_restart machine_id ts w = elim (auto_relaunch_sessions machine_id w.store) [
    | inl e ↦ on_store (mark_running_lost machine_id ts) w
    | inr revivals ↦
        on_store (mark_running_lost machine_id ts) (relaunch_all machine_id ts revivals w)
  ]

-- `Delete`
unfoldable pub delete_session : {G : Type 0} → Text → World G → Option Error × World G
delete_session id w = elim (by_id id w.store) [
  | inl e ↦ (some e, w)
  | inr s ↦
      if is_live s
      then (some session_running, w)
      else let (err, st) = delete id w.store in
        elim err [
          | some e ↦ (some e, w)
          | none ↦ (none, recorded deleted s.machine_id id (with_store st w))
        ]
]
