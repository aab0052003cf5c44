-- ===== src/Hub/UseCase/Deletion.antt =====
-- `Delete` and `ForceDelete` of internal/hub/app/sessions/usecase.go.
use constellate.Common.{
  ◌≡◌, refl, subst, if◌then◌else◌, Bool-cases, Option-cases, inl, inr, Option, none, some,
}
use constellate.Hub.Session.{Text, same_text, Session}
use constellate.Hub.Store.{
  Error, not_found, session_running, Store, find, remove, is_live, delete, by_id,
}
use constellate.Hub.Store.Laws.{same_text_sound, find-remove_self, find-remove_ne}
use constellate.Hub.UseCase.{World, Gateway, delete_session, force_delete}

-- The session of `id` is gone from `after`, and every other one is as in `before`.
abbrev pub Removes : Text → Store → Store → Type 0
Removes id before after =
    (j : Text) → find j after ≡ (if same_text id j then none else find j before)

remove-Removes : (id : Text) (st : Store) → Removes id st (remove id st)
remove-Removes id st j = elim (Bool-cases (same_text id j)) [
  | inl e ↦
      rw e (
        subst (λ i. find i (remove id st) ≡ none) (same_text_sound id j e) (find-remove_self id st))
  | inr e ↦ rw e (find-remove_ne id j st e)
]

delete-found :
    (id : Text) (st : Store) (s : Session)
    → find id st ≡ some s
    → delete id st ≡ (none, remove id st)
unfolding delete
delete-found id st s e = rw (e, delete) refl

-- What deletion does to the store, by what the store held.
abbrev pub DeletesIfOver :
    {G : Type 0} → Text → World G → Option Session → Option Error × World G → Type 0
DeletesIfOver id w none r = (r.0 ≡ some not_found) × (r.1 ≡ w)
DeletesIfOver id w (some s) r =
    if is_live s
    then (r.0 ≡ some session_running) × (r.1 ≡ w)
    else (r.0 ≡ none) × Removes id w.store r.1.store

-- `Delete` of an id that is not stored reports that it is not found, and of a running or
-- disconnected session that it runs, both with nothing changed; any other session it takes from
-- the store, without an error and with every other session left as it is.
pub delete_session-removes :
    {G : Type 0} (id : Text) (w : World G)
    → DeletesIfOver id w (find id w.store) (delete_session id w)
unfolding delete_session by_id
delete_session-removes id w = elim (Option-cases (find id w.store)) [
  | inl e ↦ rw (e, delete_session, by_id) (refl, refl)
  | inr (s, e) ↦ elim (Bool-cases (is_live s)) [
    | inl live ↦ rw (e, delete_session, by_id, live) (refl, refl)
    | inr over ↦
        rw
          (e, delete_session, by_id, over, delete-found id w.store s e, delete-found id w.store s e)
          (refl, remove-Removes id w.store)
  ]
]

abbrev pub DeletesAnyway :
    {G : Type 0} → Text → World G → Option Session → Option Error × World G → Type 0
DeletesAnyway id w none r = (r.0 ≡ some not_found) × (r.1 ≡ w)
DeletesAnyway id w (some s) r = (r.0 ≡ none) × Removes id w.store r.1.store

-- `ForceDelete` of an id that is not stored reports that it is not found, with nothing changed;
-- any stored session it takes from the store whatever its status and whatever the agent answers,
-- without an error and with every other session left as it is.
pub force_delete-removes :
    {G : Type 0} (gateway : Gateway G) (id : Text) (w : World G)
    → DeletesAnyway id w (find id w.store) (force_delete gateway id w)
unfolding force_delete by_id
force_delete-removes gateway id w = elim (Option-cases (find id w.store)) [
  | inl e ↦ rw (e, force_delete, by_id) (refl, refl)
  | inr (s, e) ↦
      rw (e, force_delete, by_id, delete-found id w.store s e, delete-found id w.store s e)
        (refl, remove-Removes id w.store)
]
