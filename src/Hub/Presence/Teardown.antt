-- ===== src/Hub/Presence/Teardown.antt =====
-- internal/hub/adapter/primary/wsagent/inbound.go: the end of a connection and a fast reconnect.
use constellate.Common.{
  ◌≡◌, ◌≢◌, refl, ◌&&◌, ◌==◌, ℕ, Bool, true, false, Bool-cases, inl, inr, Option, none, some, Word,
  if◌then◌else◌, arith,
}
use mathlib.Core.Option.{map}
use constellate.Maps.{Text, find}
use constellate.Maps.Laws.{find-put_self}
use constellate.Hub.Session.{Session, is_running, disconnected, set_status, touch}
use constellate.Hub.Store.{of_machine, mark_running_disconnected}
use constellate.Hub.Store.Laws.{find-update_where}
use constellate.Hub.UseCase.{mark_machine_disconnected}
use constellate.Hub.Machines.{RegisterInput, register}
use constellate.Hub.Presence.{
  Presence, add, remove_if, is_online, go_online, introduce, go_offline, lose_sessions, tear_down,
}

-- Whether a session runs on the machine.
abbrev pub runs_on : Text → Session → Bool
runs_on machine_id s = of_machine machine_id s && is_running s

abbrev lost_at : Text → Word → Session → Session
lost_at machine_id now s = if runs_on machine_id s then touch now (set_status disconnected s) else s

lost_at_none :
    (machine_id : Text) (now : Word) (o : Option Session)
    → map (runs_on machine_id) (map (lost_at machine_id now) o) ≢ some true
unfolding touch set_status is_running of_machine
lost_at_none machine_id now none = λ e. cc
lost_at_none machine_id now (some s) = elim (Bool-cases (runs_on machine_id s)) [
  | inl r ↦ rw r (λ e. absurd (ground (arith, e)))
  | inr r ↦ rw r (λ e. absurd (ground (arith, e, r)))
]

module _ {G : Type 0} (machine_id : Text) (p : Presence G) where
  -- The old connection ends behind the new one.
  tear_down_replaced :
      (c d : ℕ) (now : Word)
      → (d == c) ≡ false
      → tear_down machine_id c now (go_online machine_id d p) ≡ go_online machine_id d p
  unfolding tear_down go_online go_offline remove_if add
  tear_down_replaced c d now h = rw (find-put_self, h) refl

  lose_sessions_none :
      (id : Text) (now : Word)
      → map (runs_on machine_id) (find id (lose_sessions machine_id now p).hub.store) ≢ some true
  unfolding lose_sessions mark_machine_disconnected mark_running_disconnected
  lose_sessions_none id now =
      rw find-update_where (lost_at_none machine_id now (find id p.hub.store))

  introduce-links : (i : RegisterInput) (now : Word) → (introduce i now p).1.links ≡ p.links
  unfolding introduce
  introduce-links i now = elim (Bool-cases (register i now p.machines).0) [
    | inl r ↦ rw r refl
    | inr r ↦ rw r refl
  ]

-- If an ending connection is taken out of the registry, another connection of the machine is then
-- added and introduced, and the end of the first reaches the sessions last, the machine is online
-- and none of its sessions runs.
pub tear_down_overlap :
    {G : Type 0} (c d : ℕ) (i : RegisterInput) (now later : Word) (id : Text) (p : Presence G)
    → find i.machine_id p.links ≡ some c
    → ((go_offline i.machine_id c p).0 ≡ true)
      × (is_online i.machine_id
            (lose_sessions i.machine_id later
              (introduce i now (go_online i.machine_id d (go_offline i.machine_id c p).1)).1).links
          ≡ true)
      × (map (runs_on i.machine_id) (
            find id
              (lose_sessions i.machine_id later
                (introduce i now
                  (go_online i.machine_id d (go_offline i.machine_id c p).1)).1).hub.store)
          ≢ some true)
unfolding go_offline remove_if is_online go_online add lose_sessions
tear_down_overlap c d i now later id p f =
    let q = go_online i.machine_id d (go_offline i.machine_id c p).1 in
    (
      rw f (ground arith),
      rw (introduce-links i.machine_id q i now, find-put_self) refl,
      lose_sessions_none i.machine_id (introduce i now q).1 id later,
    )
