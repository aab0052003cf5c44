-- ===== src/Hub/Machines/Restarts.antt =====
-- internal/hub/app/registry/usecase.go: two registrations of one machine, with other calls between.
use constellate.Common.{◌≡◌, ◌∙◌, sym, ap, refl, false, not, ◌&&◌, Option, none, some, Word}
use mathlib.Core.Option.{map}
use constellate.Maps.{Text, same_text, is_empty, find}
use constellate.Maps.Laws.{same_text_refl}
use constellate.Hub.Machines.{
  Machine, MachineStore, RegisterInput, new_machine, register, heartbeat, merged, has_restarted,
  update_last_seen, revoke_stored, unrevoke_stored, mark_revoked, clear_revoked,
}
use constellate.Hub.Machines.Changes.{find-change, find-upsert}

-- A call that is no registration of the machine `id`, and no deletion.
pub data Elsewhere (id : Text) : MachineStore → MachineStore → Type 0 where
  beat :
      (j : Text) (ts : Word) {st su : MachineStore}
      → su ≡ (heartbeat j ts st).1
      → Elsewhere id st su
  other_registered :
      (i : RegisterInput) (now : Word) {st su : MachineStore}
      → same_text i.machine_id id ≡ false
      → su ≡ (register i now st).1
      → Elsewhere id st su
  was_revoked :
      (j : Text) (ts : Word) {st su : MachineStore}
      → su ≡ (revoke_stored j ts st).1
      → Elsewhere id st su
  was_unrevoked :
      (j : Text) {st su : MachineStore} → su ≡ (unrevoke_stored j st).1 → Elsewhere id st su

pub data Meanwhile (id : Text) (st : MachineStore) : MachineStore → Type 0 where
  nothing_yet : Meanwhile id st st
  then_other : {su sv : MachineStore} → Meanwhile id st su → Elsewhere id su sv → Meanwhile id st sv

-- The parts of a machine that only its own registration changes.
abbrev pub kept : Machine → Text × Word
kept m = (m.instance_id, m.enrolled_at)

Elsewhere-kept :
    {id : Text} {st su : MachineStore}
    → Elsewhere id st su
    → map kept (find id su) ≡ map kept (find id st)
unfolding heartbeat update_last_seen register revoke_stored unrevoke_stored mark_revoked
    clear_revoked new_machine
Elsewhere-kept {id} {st} (beat j ts e) = rw e (find-change kept _ (λ m. refl) j id st)
Elsewhere-kept {id} {st} (other_registered i now n e) = rw (e, find-upsert, n) refl
Elsewhere-kept {id} {st} (was_revoked j ts e) = rw e (find-change kept _ (λ m. refl) j id st)
Elsewhere-kept {id} {st} (was_unrevoked j e) = rw e (find-change kept _ (λ m. refl) j id st)

kept-Meanwhile :
    {id : Text} {st su : MachineStore}
    → Meanwhile id st su
    → map kept (find id su) ≡ map kept (find id st)
kept-Meanwhile nothing_yet = refl
kept-Meanwhile (then_other h e) = Elsewhere-kept e ∙ kept-Meanwhile h

-- When a machine was enrolled that registers at `now`.
abbrev pub enrolled_since : Word → Option Machine → Word
enrolled_since now none = now
enrolled_since now (some m) = m.enrolled_at

kept-register :
    (i : RegisterInput) (now : Word) (st : MachineStore)
    → map kept (find i.machine_id (register i now st).1)
      ≡ some (i.instance_id, enrolled_since now (find i.machine_id st))
unfolding register new_machine
kept-register i now st =
    rw (find-upsert, same_text_refl i.machine_id) (kept_merged (find i.machine_id st))
  where
    kept_merged :
        (o : Option Machine)
        → some (
            kept (
              merged
                (new_machine i.machine_id i.instance_id i.name i.os i.arch i.agent_version now)
                o))
          ≡ some (i.instance_id, enrolled_since now o)
    kept_merged none = refl
    kept_merged (some m) = refl

kept_lem :
    (k : RegisterInput) (later : Word) (x : Text) (y : Word) (o : Option Machine)
    → map kept o ≡ some (x, y)
    → (has_restarted k o
        ≡ not (is_empty k.instance_id) && not (is_empty x) && not (same_text x k.instance_id))
      × (enrolled_since later o ≡ y)
unfolding has_restarted
kept_lem k later x y none e = cc
kept_lem k later x y (some m) e =
    let p : m.instance_id ≡ x = cc in let q : m.enrolled_at ≡ y = cc in (rw p refl, q)

-- Between two registrations of a machine with heartbeats, revocations and registrations of others,
-- the second reports a restart exactly if both instance ids are nonempty and differ; the machine
-- then has the second instance id and the time of enrolment from before both or from the first.
pub register_restarted :
    (i k : RegisterInput) (now later : Word) (st su : MachineStore)
    → k.machine_id ≡ i.machine_id
    → Meanwhile i.machine_id (register i now st).1 su
    → ((register k later su).0
        ≡ not (is_empty k.instance_id)
          && not (is_empty i.instance_id)
          && not (same_text i.instance_id k.instance_id))
      × (map kept (find i.machine_id (register k later su).1)
          ≡ some (k.instance_id, enrolled_since now (find i.machine_id st)))
unfolding register
register_restarted i k now later st su e h =
    let (a, b) =
      kept_lem k later i.instance_id (enrolled_since now (find i.machine_id st))
        (find i.machine_id su) (kept-Meanwhile h ∙ kept-register i now st) in
    (
      ap (λ j. has_restarted k (find j su)) e ∙ a,
      ap (λ j. map kept (find j (register k later su).1)) (sym e)
          ∙ kept-register k later su
          ∙ ap some
              (ap (λ n. (k.instance_id, n)) (ap (λ j. enrolled_since later (find j su)) e ∙ b)),
    )
