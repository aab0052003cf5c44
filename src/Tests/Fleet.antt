-- ===== src/Tests/Fleet.antt =====
-- Machines, their connections and the overview at concrete inputs.
use constellate.Common.{ℕ, ◌≡◌, ◌≢◌, refl, ◌-◌, true, ◌==◌, some, [], ◌∷◌, suc, length, ltb}
use mathlib.Core.Option.{map}
use constellate.Maps.{Text, find, same_text}
use constellate.Hub.Overview.{
  Overview, Snapshot, new_overview, subscribe, unsubscribe, receive_snapshot, has, after_sends,
  snapshots_enabled, apply_gate, add_viewer, add_sub, after_replay,
}
use constellate.Hub.Overview.Gate.{
  IsCounted, Calls, none_yet, then_call, subscribed, received, Calls-IsCounted, after_sends_late,
}
use constellate.Hub.Machines.{RegisterInput, register}
use constellate.Hub.Session.{Session, new_session}
use constellate.Hub.Presence.{Presence, go_online, go_offline, introduce, lose_sessions, is_online}
use constellate.Hub.Presence.Teardown.{runs_on, tear_down_overlap}

abbrev frame : Snapshot
frame = record { session_id = b's' ∷ []; rev = 1 }

abbrev watched : Overview
watched = subscribe (λ s. true) 2 (subscribe (λ s. true) 1 new_overview)

-- The second browser is gone when the frame comes.
abbrev framed : Overview
framed = receive_snapshot (λ s. s == 1) frame watched

watched-Calls : Calls new_overview watched
unfolding has new_overview subscribe add_viewer add_sub after_replay apply_gate snapshots_enabled
watched-Calls =
    then_call (then_call none_yet (subscribed (λ s. true) 1 refl refl))
      (subscribed (λ s. true) 2 refl refl)

Calls-IsCounted_example : IsCounted framed
Calls-IsCounted_example =
    Calls-IsCounted (then_call watched-Calls (received (λ s. s == 1) frame refl))

after_sends_late_example :
    ((after_sends (2 ∷ []) (unsubscribe 2 watched)).viewers ≡ length watched.subs - 2)
    × (suc (length (after_sends (2 ∷ []) (unsubscribe 2 watched)).subs) ≡ length watched.subs)
    × ((after_sends (2 ∷ []) (unsubscribe 2 watched)).last_enabled ≡ ltb 2 (length watched.subs))
unfolding has new_overview subscribe add_viewer add_sub after_replay apply_gate snapshots_enabled
after_sends_late_example = after_sends_late 2 watched (Calls-IsCounted watched-Calls) refl

abbrev machine_id : Text
machine_id = b'm' ∷ []

abbrev first : RegisterInput
first = record {
  machine_id = machine_id;
  instance_id = b'1' ∷ [];
  name = [];
  os = [];
  arch = [];
  agent_version = [];
}

-- A machine with one session that runs, behind the connection 1.
abbrev shell : Session
shell = new_session (b's' ∷ []) machine_id [] [] [] [] 100

abbrev presence : Presence ℕ
presence = record {
  links = (machine_id, 1) ∷ [];
  machines = (register first 100 []).1;
  hub = record { store = (b's' ∷ [], shell) ∷ []; agents = 0; audit = [] };
}

abbrev reconnected : Presence ℕ
reconnected =
    lose_sessions machine_id 300
      (introduce first 200 (go_online machine_id 2 (go_offline machine_id 1 presence).1)).1

tear_down_overlap_example :
    ((go_offline machine_id 1 presence).0 ≡ true)
    × (is_online machine_id reconnected.links ≡ true)
    × (map (runs_on machine_id) (find (b's' ∷ []) reconnected.hub.store) ≢ some true)
unfolding find same_text
tear_down_overlap_example = tear_down_overlap 1 2 first 200 300 (b's' ∷ []) presence refl
