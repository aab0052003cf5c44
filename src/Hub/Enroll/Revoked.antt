-- ===== src/Hub/Enroll/Revoked.antt =====
-- internal/hub/app/enroll/usecase.go: a revoked machine along calls of the use case and the registry.
use constellate.Common.{
  ◌≡◌, ◌≢◌, ◌∙◌, ◌⊎◌, ap, refl, ◌&&◌, Bool, true, false, Bool-cases, inl, inr, Option, none, some,
  Word, ◌==◌, length, List, [], ◌∷◌, All, arith,
}
use mathlib.Core.Option.{map}
use constellate.Maps.{Text, same_text, find}
use constellate.Maps.Laws.{find-put, find-put_self, find-remove, same_text_refl, same_text_sound}
use constellate.Hub.Enroll.{
  Services, EnrollInput, Enrolment, mint_token, consume, admit, enroll, revoke, unrevoke,
  delete_machine, delete_machine_of, changed, authenticate, AuditAction, was_revoked, was_unrevoked,
  machine_deleted,
}
use constellate.Hub.Enroll.Calls.{
  Call, minting, enrolling, revoking, unrevoking, deleting, registering, beating, run, run_all,
  lets_back,
}
use constellate.Hub.Enroll.Authenticated.{authenticate-Passes}
use constellate.Hub.Machines.{
  Machine, MachineStore, is_revoked, new_machine, merged, upsert, register, heartbeat,
  update_last_seen, mark_revoked, clear_revoked, revoke_stored, unrevoke_stored, delete_stored,
  delete_found, change_found,
}
use constellate.Hub.Machines.Changes.{find-change, find-upsert}

-- A machine that is stored and revoked.
abbrev IsBarred : Text → MachineStore → Type 0
IsBarred id st = map is_revoked (find id st) ≡ some true

merged-revoked :
    (m : Machine) (o : Option Machine)
    → map is_revoked o ≡ some true
    → is_revoked (merged m o) ≡ true
unfolding is_revoked
merged-revoked m none e = cc
merged-revoked m (some old) e = cc

upsert-IsBarred :
    (m : Machine) (id : Text) (st : MachineStore) → IsBarred id st → IsBarred id (upsert m st)
upsert-IsBarred m id st e = elim (Bool-cases (same_text m.id id)) [
  | inl s ↦
      rw (find-upsert, s)
        (ap some (
          merged-revoked m (find m.id st)
            (ap (λ k. map is_revoked (find k st)) (same_text_sound m.id id s) ∙ e)))
  | inr s ↦ rw (find-upsert, s) e
]

-- A change of another machine, or one that revokes.
change_found-IsBarred :
    (j id : Text) (f : Machine → Machine) (st : MachineStore) (o : Option Machine)
    → (same_text j id ≡ false) ⊎ ((m : Machine) → is_revoked (f m) ≡ true)
    → IsBarred id st
    → IsBarred id (change_found j f st o).1
change_found-IsBarred j id f st none r e = e
change_found-IsBarred j id f st (some m) (inl s) e = rw (find-put, s) e
change_found-IsBarred j id f st (some m) (inr r) e = elim (Bool-cases (same_text j id)) [
  | inl s ↦ rw (find-put, s) (ap some (r m))
  | inr s ↦ rw (find-put, s) e
]

delete_found-IsBarred :
    (j id : Text) (st : MachineStore) (o : Option Machine)
    → same_text j id ≡ false
    → IsBarred id st
    → IsBarred id (delete_found j st o).1
delete_found-IsBarred j id st none s e = e
delete_found-IsBarred j id st (some m) s e = rw (find-remove, s) e

changed-IsBarred :
    (action : AuditAction) (j id : Text) (u : Enrolment) (r : Bool × MachineStore)
    → IsBarred id u.machines
    → IsBarred id r.1
    → IsBarred id (changed action j u r).1.machines
changed-IsBarred action j id u (true, st) e f = f
changed-IsBarred action j id u (false, st) e f = e

delete_of-IsBarred :
    (j id : Text) (u : Enrolment) (o : Option Machine)
    → same_text j id ≡ false
    → IsBarred id u.machines
    → IsBarred id (delete_machine_of j u o).1.machines
unfolding delete_stored
delete_of-IsBarred j id u none s e = e
delete_of-IsBarred j id u (some m) s e = elim (Bool-cases (is_revoked m)) [
  | inl r ↦ rw r (
      changed-IsBarred machine_deleted j id u (delete_stored j u.machines) e
        (delete_found-IsBarred j id u.machines (find j u.machines) s e))
  | inr r ↦ rw r e
]

enroll-IsBarred :
    (sv : Services) (i : EnrollInput) (j id : Text) (now : Word) (u : Enrolment)
    → IsBarred id u.machines
    → IsBarred id (enroll sv i j now u).1.machines
unfolding enroll admit
enroll-IsBarred sv i j id now u e = elim (Bool-cases (length i.public_key == 32)) [
  | inr l ↦ rw l e
  | inl l ↦ elim (Bool-cases (consume (sv.token_hash i.token) now u.tokens).0) [
    | inr c ↦ rw (l, c) e
    | inl c ↦
        rw (l, c) (upsert-IsBarred (new_machine j [] i.name i.os i.arch [] now) id u.machines e)
  ]
]

mark_revoked_lem :
    (j id : Text) (now : Word) (m : Machine)
    → same_text j id ≡ true
    → same_text j id && (now == 0) ≡ false
    → is_revoked (mark_revoked now m) ≡ true
unfolding is_revoked mark_revoked
mark_revoked_lem j id now m s n = ground (arith, s, n)

run-IsBarred :
    (sv : Services) (id : Text) (c : Call) (u : Enrolment)
    → lets_back id c ≡ false
    → IsBarred id u.machines
    → IsBarred id (run sv c u).machines
unfolding run lets_back mint_token revoke unrevoke delete_machine revoke_stored unrevoke_stored
    register heartbeat update_last_seen is_revoked
run-IsBarred sv id (minting none now) u n e = e
run-IsBarred sv id (minting (some p) now) u n e = e
run-IsBarred sv id (enrolling i j now) u n e = enroll-IsBarred sv i j id now u e
run-IsBarred sv id (revoking j now) u n e =
    changed-IsBarred was_revoked j id u (revoke_stored j now u.machines) e (
      change_found-IsBarred j id (mark_revoked now) u.machines (find j u.machines)
        (revokes_or_other (Bool-cases (same_text j id))) e)
  where
    revokes_or_other :
        (same_text j id ≡ true) ⊎ (same_text j id ≡ false)
        → (same_text j id ≡ false) ⊎ ((m : Machine) → is_revoked (mark_revoked now m) ≡ true)
    revokes_or_other (inr s) = inl s
    revokes_or_other (inl s) = inr (λ m. mark_revoked_lem j id now m s n)
run-IsBarred sv id (unrevoking j) u n e =
    changed-IsBarred was_unrevoked j id u (unrevoke_stored j u.machines) e
      (change_found-IsBarred j id clear_revoked u.machines (find j u.machines) (inl n) e)
run-IsBarred sv id (deleting j) u n e = delete_of-IsBarred j id u (find j u.machines) n e
run-IsBarred sv id (registering i now) u n e = upsert-IsBarred _ id u.machines e
run-IsBarred sv id (beating j now) u n e = find-change is_revoked _ (λ m. refl) j id u.machines ∙ e

run_all-IsBarred :
    (sv : Services) (id : Text) (cs : List Call) (u : Enrolment)
    → All (λ c. lets_back id c ≡ false) cs
    → IsBarred id u.machines
    → IsBarred id (run_all sv cs u).machines
unfolding run_all
run_all-IsBarred sv id [] u n e = e
run_all-IsBarred sv id (c ∷ cs) u (m, n) e =
    run_all-IsBarred sv id cs (run sv c u) n (run-IsBarred sv id c u m e)

revoke-IsBarred :
    (id : Text) (now : Word) (u : Enrolment)
    → (revoke id now u).0 ≡ none
    → (now == 0) ≡ false
    → IsBarred id (revoke id now u).1.machines
unfolding revoke revoke_stored
revoke-IsBarred id now u e n = revoke_found-IsBarred (find id u.machines) e
  where
    revoke_found-IsBarred :
        (o : Option Machine)
        → (changed was_revoked id u (change_found id (mark_revoked now) u.machines o)).0 ≡ none
        → IsBarred id
            (changed was_revoked id u (change_found id (mark_revoked now) u.machines o)).1.machines
    revoke_found-IsBarred none f = cc
    revoke_found-IsBarred (some m) f =
        rw (find-put_self)
          (ap some (mark_revoked_lem id id now m (same_text_refl id) (rw (same_text_refl id) n)))

barred_refused :
    (sv : Services) (bearer id : Text) (now : Word) (u : Enrolment)
    → IsBarred id u.machines
    → authenticate sv bearer now u ≢ inr id
barred_refused sv bearer id now u b e =
    let a = authenticate-Passes sv bearer id now u e in absurd (cc (b, a.is_known, a.not_revoked))

-- After `Revoke` of a stored machine at a time other than 0, and whatever calls of the use case
-- and of the registry follow that neither unrevoke nor delete it nor revoke it at the time 0,
-- `Authenticate` lets no token in as that machine.
pub revoke_refused :
    (sv : Services) (id bearer : Text) (now later : Word) (cs : List Call) (u : Enrolment)
    → (revoke id now u).0 ≡ none
    → (now == 0) ≡ false
    → All (λ c. lets_back id c ≡ false) cs
    → authenticate sv bearer later (run_all sv cs (revoke id now u).1) ≢ inr id
revoke_refused sv id bearer now later cs u e n a =
    barred_refused sv bearer id later (run_all sv cs (revoke id now u).1)
      (run_all-IsBarred sv id cs (revoke id now u).1 a (revoke-IsBarred id now u e n))
