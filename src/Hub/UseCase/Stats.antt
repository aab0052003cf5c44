-- ===== src/Hub/UseCase/Stats.antt =====
-- `RecordStat` and `MarkExited` of internal/hub/app/sessions/usecase.go.
use constellate.Common.{
  ◌≡◌, refl, sym, ap, subst, ◌∙◌, if◌then◌else◌, Bool-cases, Option-cases, inl, inr, none, some, [],
  ◌∷◌, Word, lt_int,
}
use mathlib.Core.Option.{map}
use constellate.Hub.Session.{Text, same_text, Session, set_exited, activity_active}
use constellate.Hub.Store.{not_found, Store, find, put, modify, stat_of, set_stat, store_exited}
use constellate.Hub.Store.Laws.{same_text_sound, find-put_self, find-put_ne}
use constellate.Hub.UseCase.{
  World, on_store, ignore_missing, is_activity, record_known, record_stat, mark_exited,
}

-- The session of `id` is changed by `f`, if there is one, and no other.
abbrev pub Changes : Text → (Session → Session) → Store → Store → Type 0
Changes id f before after =
    (j : Text) → find j after ≡ (if same_text id j then map f (find j before) else find j before)

module _ (id : Text) (f : Session → Session) (st : Store) where
  modify-found : (s : Session) → find id st ≡ some s → modify id f st ≡ (none, put id (f s) st)
  unfolding modify
  modify-found s e = rw (e, modify) refl

  modify-missing : find id st ≡ none → modify id f st ≡ (some not_found, st)
  unfolding modify
  modify-missing e = rw (e, modify) refl

  found-Changes : (s : Session) → find id st ≡ some s → Changes id f st (put id (f s) st)
  found-Changes s e j = elim (Bool-cases (same_text id j)) [
    | inl same ↦ rw same (
        subst (λ i. find i (put id (f s) st) ≡ map f (find i st)) (same_text_sound id j same)
          (find-put_self id (f s) st ∙ sym (ap (map f) e)))
    | inr other ↦ rw other (find-put_ne id j (f s) st other)
  ]

  same-Changes : map f (find id st) ≡ find id st → Changes id f st st
  same-Changes e j = elim (Bool-cases (same_text id j)) [
    | inl same ↦
        rw same (subst (λ i. find i st ≡ map f (find i st)) (same_text_sound id j same) (sym e))
    | inr other ↦ rw other refl
  ]

  missing-Changes : find id st ≡ none → Changes id f st st
  missing-Changes e = same-Changes (ap (map f) e ∙ sym e)

  modify_ignored :
      {G : Type 0} (w : World G)
      → w.store ≡ st
      → ((ignore_missing (on_store (modify id f) w)).0 ≡ none)
        × Changes id f st (ignore_missing (on_store (modify id f) w)).1.store
  modify_ignored w we = elim (Option-cases (find id st)) [
    | inl e ↦ rw (we, modify-missing e) (refl, missing-Changes e)
    | inr (s, e) ↦ rw (we, modify-found s e) (refl, found-Changes s e)
  ]

-- The report with an unknown activity taken out.
unfoldable pub known : Text → Text
known a = if is_activity a then a else []

unfoldable pub reported : Text → Text → Word → Session → Session
reported activity pwd now =
    stat_of (known activity) pwd (if same_text (known activity) activity_active then now else 0)

stat_of_nothing : (id : Text) (st : Store) → Changes id (stat_of [] [] 0) st st
unfolding stat_of lt_int
stat_of_nothing id st = elim (Option-cases (find id st)) [
  | inl e ↦ missing-Changes id (stat_of [] [] 0) st e
  | inr (s, e) ↦ same-Changes id (stat_of [] [] 0) st (ap (map (stat_of [] [] 0)) e ∙ sym e)
]

module _ {G : Type 0} (id : Text) (now : Word) (w : World G) where
  record_known-Changes :
      (activity pwd : Text)
      → ((record_known id activity pwd now w).0 ≡ none)
        × Changes id
            (stat_of activity pwd (if same_text activity activity_active then now else 0))
            w.store
            (record_known id activity pwd now w).1.store
  unfolding record_known set_stat same_text
  record_known-Changes [] [] = (refl, stat_of_nothing id w.store)
  record_known-Changes [] (c ∷ cs) = modify_ignored id (stat_of [] (c ∷ cs) 0) w.store w refl
  record_known-Changes (c ∷ cs) pwd =
      modify_ignored id
        (stat_of (c ∷ cs) pwd (if same_text (c ∷ cs) activity_active then now else 0)) w.store w
        refl

-- `RecordStat` never reports an error, and changes at most the session of that id: a known
-- activity and a nonempty directory are stored, an unknown activity is dropped, and the time of
-- the last activity moves only for `active`.
record_stat-Changes :
    {G : Type 0} (id activity pwd : Text) (now : Word) (w : World G)
    → ((record_stat id activity pwd now w).0 ≡ none)
      × Changes id (reported activity pwd now) w.store (record_stat id activity pwd now w).1.store
unfolding record_stat reported known
record_stat-Changes id activity pwd now w = record_known-Changes id now w (known activity) pwd

-- `MarkExited` never reports an error, whether the session is stored or not, and changes at most
-- the session of that id, which is exited with that code and time.
mark_exited-Changes :
    {G : Type 0} (id : Text) (code now : Word) (w : World G)
    → ((mark_exited id code now w).0 ≡ none)
      × Changes id (set_exited code now) w.store (mark_exited id code now w).1.store
unfolding mark_exited store_exited
mark_exited-Changes id code now w = modify_ignored id (set_exited code now) w.store w refl
