-- ===== src/Hub/Presence.antt =====
-- internal/hub/adapter/secondary/agentlink/registry.go, the live connections, and the life of a
-- connection in internal/hub/adapter/primary/wsagent/inbound.go, over the registry of machines and
-- the session use case. A connection is a pointer, so a number; its streams, its pending opens and
-- its metrics are left out. `handleControl` holds no lock, so each call that it makes is a step of
-- its own; the reconciliation behind a restart runs in another goroutine. The port `events` is set, and
-- the in-memory stores report no error to it.
pub mod Teardown
use constellate.Common.{
  ◌==◌, Bool, true, false, if◌then◌else◌, Option, none, some, List, [], ◌∷◌, ℕ, Word,
}
use constellate.Maps.{Text, Map, find, put, remove}
use constellate.Hub.Machines.{MachineStore, RegisterInput, register}
use constellate.Hub.UseCase.{World, mark_machine_disconnected, restore_machine_sessions}

-- `Registry`
abbrev pub Links : Type 0
Links = Map ℕ

-- `Add`
unfoldable pub add : Text → ℕ → Links → Links
add machine_id c links = put machine_id c links

abbrev pub remove_found : Text → ℕ → Links → Option ℕ → Bool × Links
remove_found machine_id c links none = (false, links)
remove_found machine_id c links (some d) =
    if d == c then (true, remove machine_id links) else (false, links)

-- `RemoveIf`, of a connection that is not nil.
unfoldable pub remove_if : Text → ℕ → Links → Bool × Links
remove_if machine_id c links = remove_found machine_id c links (find machine_id links)

abbrev pub is_some : Option ℕ → Bool
is_some none = false
is_some (some c) = true

-- `IsOnline`
unfoldable pub is_online : Text → Links → Bool
is_online machine_id links = is_some (find machine_id links)

-- `OnlineIDs`
unfoldable pub online_ids : Links → List Text
online_ids [] = []
online_ids ((id, c) ∷ links) = id ∷ online_ids links

pub record Presence (G : Type 0) : Type 0 where
  pub links : Links
  pub machines : MachineStore
  pub hub : World G

module _ {G : Type 0} where
  -- `links.Add`, the first call behind a good Hello.
  unfoldable pub go_online : Text → ℕ → Presence G → Presence G
  go_online machine_id c p = record p { links = add machine_id c p.links }

  -- `reg.Register`, and the sessions that are restored if the agent has not restarted.
  unfoldable pub introduce : RegisterInput → Word → Presence G → Bool × Presence G
  introduce i now p =
      let (restarted, st) = register i now p.machines in
      let q = record p { machines = st } in
      if restarted
      then (true, q)
      else (false, record q { hub = (restore_machine_sessions i.machine_id q.hub).1 })

  -- The deferred `links.RemoveIf`
  unfoldable pub go_offline : Text → ℕ → Presence G → Bool × Presence G
  go_offline machine_id c p =
      let (removed, links) = remove_if machine_id c p.links in (removed, record p { links = links })

  -- The deferred `events.MarkMachineDisconnected`
  unfoldable pub lose_sessions : Text → Word → Presence G → Presence G
  lose_sessions machine_id now p = record p {
    hub = (mark_machine_disconnected machine_id now p.hub).1;
  }

  -- The deferred function that no other call overlaps.
  unfoldable pub tear_down : Text → ℕ → Word → Presence G → Presence G
  tear_down machine_id c now p =
      let (removed, q) = go_offline machine_id c p in
      if removed then lose_sessions machine_id now q else q
