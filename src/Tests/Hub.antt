-- ===== src/Tests/Hub.antt =====
-- The sessions of the hub at concrete inputs.
use constellate.Common.{ℕ, suc, ◌≡◌, refl, true, some, [], ◌∷◌}
use mathlib.Core.Option.{map}
use constellate.Hub.Session.{
  Text, Session, new_session, set_status, set_auto_relaunch, disconnected, touch, lost, is_running,
  is_disconnected, same_text,
}
use constellate.Hub.Store.{
  external, find, put, modify, select, update_where, of_machine, is_live, relaunches,
  auto_relaunch_sessions, set_lost, mark_running_lost,
}
use constellate.Hub.UseCase.{
  World, Gateway, restore_machine_sessions, mark_machine_disconnected, relaunch, relaunch_all,
  reconcile_machine_restart,
}
use constellate.Hub.Store.Keyed.{Keyed}
use constellate.Hub.UseCase.Restart.{blipped, restore-disconnected}
use constellate.Hub.UseCase.Reconcile.{is_settled, reconcile-settled}

abbrev machine : Text
machine = b'm' ∷ []

abbrev shell_id : Text
shell_id = b's' ∷ []

abbrev build_id : Text
build_id = b'b' ∷ []

abbrev shell : Session
shell = new_session shell_id machine [] [] [] [] 100

-- A session that is to be relaunched, behind a drop.
abbrev build : Session
build =
    set_auto_relaunch true (set_status disconnected (new_session build_id machine [] [] [] [] 100))

abbrev world : World ℕ
world = record { store = (shell_id, shell) ∷ (build_id, build) ∷ []; agents = 0; audit = [] }

-- Agents that count the requests and refuse every one.
abbrev offline : Gateway ℕ
offline = record {
  open_session = λ r g. (some (external 1), suc g);
  close_session = λ m s g. (some (external 1), suc g);
}

restore-disconnected_example :
    find shell_id
      (restore_machine_sessions machine (mark_machine_disconnected machine 200 world).1).1.store
    ≡ map (blipped machine 200) (find shell_id world.store)
restore-disconnected_example = restore-disconnected machine shell_id 200 world

-- The agents refuse the relaunch, so the session is lost.
abbrev build_after : Session
build_after = touch 200 (set_status lost build)

world-Keyed : Keyed world.store
unfolding new_session set_auto_relaunch set_status
world-Keyed = (refl, (refl, tt))

reconcile-settled_example : is_settled build_after ≡ true
unfolding new_session set_auto_relaunch set_status touch is_running is_disconnected same_text find
    put modify select update_where of_machine is_live relaunches auto_relaunch_sessions set_lost
    mark_running_lost relaunch relaunch_all reconcile_machine_restart
reconcile-settled_example =
    reconcile-settled offline machine build_id 200 world build_after world-Keyed refl refl
