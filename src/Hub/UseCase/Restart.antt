-- ===== src/Hub/UseCase/Restart.antt =====
-- `MarkMachineDisconnected` and `RestoreMachineSessions` of internal/hub/app/sessions/usecase.go.
use constellate.Common.{
  ◌≡◌, refl, sym, ap, ◌∙◌, ◌&&◌, if◌then◌else◌, Bool-cases, inl, inr, Option, none, some, ◌⊎◌, Word,
}
use mathlib.Core.Option.{map}
use constellate.Hub.Session.{
  Text, same_text, Session, Status, running, exited, lost, disconnected, set_status, touch,
  is_running, is_disconnected,
}
use constellate.Hub.Store.{
  find, update_where, of_machine, mark_running_disconnected, mark_disconnected_running,
}
use constellate.Hub.Store.Laws.{find-update_where}
use constellate.Hub.UseCase.{World, mark_machine_disconnected, restore_machine_sessions}

-- A session behind a drop and a reconnect of a machine: a running one has a new time of its last
-- activity, a disconnected one runs.
unfoldable pub blipped : Text → Word → Session → Session
blipped machine_id ts s =
    if of_machine machine_id s
    then elim s.status [
      | running ↦ touch ts s
      | disconnected ↦ set_status running s
      | exited ↦ s
      | lost ↦ s
    ]
    else s

Status-cases : (s : Status) → (s ≡ running) ⊎ ((s ≡ disconnected) ⊎ ((s ≡ exited) ⊎ (s ≡ lost)))
Status-cases running = inl refl
Status-cases disconnected = inr (inl refl)
Status-cases exited = inr (inr (inl refl))
Status-cases lost = inr (inr (inr refl))

dropped : Text → Word → Session → Session
dropped machine_id ts s =
    if of_machine machine_id s && is_running s then touch ts (set_status disconnected s) else s

back : Text → Session → Session
back machine_id s = if of_machine machine_id s && is_disconnected s then set_status running s else s

back-dropped :
    (machine_id : Text) (ts : Word) (s : Session)
    → back machine_id (dropped machine_id ts s) ≡ blipped machine_id ts s
unfolding back dropped blipped of_machine is_running is_disconnected set_status touch
back-dropped machine_id ts s = elim (Bool-cases (same_text s.machine_id machine_id)) [
  | inr other ↦ rw (other, other) refl
  | inl mine ↦ elim (Status-cases s.status) [
    | inl e ↦ rw (mine, e, mine) (ap (λ st. record s { status = st; last_active_at = ts }) (sym e))
    | inr (inl e) ↦ rw (mine, e, mine) refl
    | inr (inr (inl e)) ↦ rw (mine, e, mine) (ap (λ st. record s { status = st }) (sym e))
    | inr (inr (inr e)) ↦ rw (mine, e, mine) (ap (λ st. record s { status = st }) (sym e))
  ]
]

module _ (machine_id : Text) (ts : Word) where
  map-map :
      (o : Option Session)
      → map (back machine_id) (map (dropped machine_id ts) o) ≡ map (blipped machine_id ts) o
  map-map none = refl
  map-map (some s) = ap some (back-dropped machine_id ts s)

-- A drop of a machine's connection and a reconnect leave every stored session as it was, but that
-- the machine's running sessions have a new time of their last activity and its disconnected ones
-- run.
pub restore-disconnected :
    {G : Type 0} (machine_id id : Text) (ts : Word) (w : World G)
    → find id
        (restore_machine_sessions machine_id (mark_machine_disconnected machine_id ts w).1).1.store
      ≡ map (blipped machine_id ts) (find id w.store)
unfolding back dropped restore_machine_sessions mark_machine_disconnected mark_running_disconnected
    mark_disconnected_running
restore-disconnected machine_id id ts w =
    find-update_where _ _ id (update_where _ _ w.store)
    ∙ ap (map (back machine_id)) (find-update_where _ _ id w.store)
    ∙ map-map machine_id ts (find id w.store)
