-- ===== src/Hub/Store/Keyed.antt =====
-- The keys of the map of memory/session_store.go.
use constellate.Common.{
  ◌≡◌, refl, sym, subst, ◌∙◌, arith, Bool, if◌then◌else◌, Bool-cases, Option-cases, inl, inr, some,
  [], ◌∷◌, All, Word,
}
use mathlib.Core.Option.{some-injective}
use constellate.Hub.Session.{
  Text, same_text, Session, set_status, set_exited, touch, set_title, set_activity, set_pwd,
  set_auto_relaunch, lost, running, disconnected,
}
use constellate.Hub.Store.{
  Store, find, put, remove, update_where, modify, create, delete, store_exited, mark_running_lost,
  mark_running_disconnected, mark_disconnected_running, set_running, set_lost, store_title,
  store_auto_relaunch, stat_of, set_stat,
}
use constellate.Hub.Store.Laws.{same_text_sound}

-- Every session stands under its own id.
abbrev pub Keyed : Store → Type 0
Keyed st = All (λ e. e.1.id ≡ e.0) st

put-Keyed : (id : Text) (s : Session) (st : Store) → s.id ≡ id → Keyed st → Keyed (put id s st)
unfolding put
put-Keyed id s [] e k = (e, tt)
put-Keyed id s ((i, t) ∷ st) e k = elim (Bool-cases (same_text i id)) [
  | inl h ↦ rw h (e ∙ (sym (same_text_sound i id h)), k.1)
  | inr h ↦ rw h (k.0, put-Keyed id s st e k.1)
]

remove-Keyed : (id : Text) (st : Store) → Keyed st → Keyed (remove id st)
unfolding remove
remove-Keyed id [] k = tt
remove-Keyed id ((i, t) ∷ st) k = elim (Bool-cases (same_text i id)) [
  | inl h ↦ rw h (remove-Keyed id st k.1)
  | inr h ↦ rw h (k.0, remove-Keyed id st k.1)
]

find-id : (id : Text) (s : Session) (st : Store) → Keyed st → find id st ≡ some s → s.id ≡ id
unfolding find
find-id id s [] k e = cc
find-id id s ((i, t) ∷ st) k e = elim (Bool-cases (same_text i id)) [
  | inl h ↦
      let same : some t ≡ some s = subst (λ b. (if b then some t else find id st) ≡ some s) h e in
      subst (λ x. x.id ≡ id) (some-injective t s same) (k.0 ∙ same_text_sound i id h)
  | inr h ↦ find-id id s st k.1 (subst (λ b. (if b then some t else find id st) ≡ some s) h e)
]

module _ (f : Session → Session) (keeps : (s : Session) → (f s).id ≡ s.id) where
  update_where-Keyed : (p : Session → Bool) (st : Store) → Keyed st → Keyed (update_where p f st)
  unfolding update_where
  update_where-Keyed p [] k = tt
  update_where-Keyed p ((i, t) ∷ st) k = elim (Bool-cases (p t)) [
    | inl h ↦ rw h (keeps t ∙ k.0, update_where-Keyed p st k.1)
    | inr h ↦ rw h (k.0, update_where-Keyed p st k.1)
  ]

  modify-Keyed : (id : Text) (st : Store) → Keyed st → Keyed (modify id f st).1
  unfolding modify
  modify-Keyed id st k = elim (Option-cases (find id st)) [
    | inl e ↦ rw (e, modify) k
    | inr (s, e) ↦ rw (e, modify) (put-Keyed id (f s) st (keeps s ∙ find-id id s st k e) k)
  ]

delete-Keyed : (id : Text) (st : Store) → Keyed st → Keyed (delete id st).1
unfolding delete
delete-Keyed id st k = elim (Option-cases (find id st)) [
  | inl e ↦ rw (e, delete) k
  | inr (s, e) ↦ rw (e, delete) (remove-Keyed id st k)
]

stat_of-id :
    (activity pwd : Text) (now : Word) (s : Session) → (stat_of activity pwd now s).id ≡ s.id
unfolding stat_of touch set_activity set_pwd
stat_of-id activity pwd now s = ground arith

module _ (id machine_id text pwd : Text) (code ts : Word) (v : Bool) (s : Session) (st : Store)
    (k : Keyed st) where
  -- If every session of the store stands under its own id, it does after any change that a method
  -- of the store makes: creation, exit, the three bulk changes of a machine, the single changes of
  -- status, title, flag and activity, and deletion.
  pub store-Keyed :
      Keyed (create s st).1
      × Keyed (store_exited id code ts st).1
      × Keyed (mark_running_lost machine_id ts st).1
      × Keyed (mark_running_disconnected machine_id ts st).1
      × Keyed (mark_disconnected_running machine_id st).1
      × Keyed (set_running id st).1
      × Keyed (set_lost id ts st).1
      × Keyed (store_title id text st).1
      × Keyed (store_auto_relaunch id v st).1
      × Keyed (set_stat id text pwd ts st).1
      × Keyed (delete id st).1
  unfolding create store_exited mark_running_lost mark_running_disconnected
      mark_disconnected_running set_running set_lost store_title store_auto_relaunch set_stat
      set_exited touch set_status set_title set_auto_relaunch
  store-Keyed = (
    put-Keyed s.id s st refl k,
    modify-Keyed (set_exited code ts) (λ t. refl) id st k,
    update_where-Keyed (λ t. touch ts (set_status lost t)) (λ t. refl) _ st k,
    update_where-Keyed (λ t. touch ts (set_status disconnected t)) (λ t. refl) _ st k,
    update_where-Keyed (set_status running) (λ t. refl) _ st k,
    modify-Keyed (set_status running) (λ t. refl) id st k,
    modify-Keyed (λ t. touch ts (set_status lost t)) (λ t. refl) id st k,
    modify-Keyed (set_title text) (λ t. refl) id st k,
    modify-Keyed (set_auto_relaunch v) (λ t. refl) id st k,
    modify-Keyed (stat_of text pwd ts) (stat_of-id text pwd ts) id st k,
    delete-Keyed id st k,
  )
