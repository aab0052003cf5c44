-- ===== src/Hub/UseCase/Reconcile.antt =====
-- `ReconcileMachineRestart` of internal/hub/app/sessions/usecase.go.
use constellate.Common.{
  ◌≡◌, refl, sym, ap, ◌∙◌, subst, Bool, true, false, not, ◌&&◌, ◌||◌, if◌then◌else◌, Bool-cases,
  Option-cases, ◌⊎◌, inl, inr, Option, none, some, List, [], ◌∷◌, Word, arith,
}
use mathlib.Core.Option.{map, some-injective}
use constellate.Hub.Session.{
  Text, same_text, Session, lost, running, set_status, touch, is_running, is_disconnected,
}
use constellate.Hub.Store.{
  Error, Store, find, modify, of_machine, is_live, relaunches, select, auto_relaunch_sessions,
  mark_running_lost, set_running, set_lost, is_live,
}
use constellate.Hub.Store.Keyed.{Keyed}
use constellate.Hub.Store.Laws.{find-update_where, find-put_self, find-put_ne, same_text_sound}
use constellate.Hub.UseCase.{
  World, Gateway, relaunch_request, relaunch, relaunch_all, reconcile_machine_restart,
}

-- What stands at `j` and is disconnected stood there before.
Leaves : Text → Store → Store → Type 0
Leaves j before after =
    (s : Session) → find j after ≡ some s → is_disconnected s ≡ true → find j before ≡ some s

Settled : Text → Store → Type 0
Settled j st = (s : Session) → find j st ≡ some s → is_disconnected s ≡ false

clash {ℓ} : {A : Type ℓ} (b : Bool) → b ≡ true → b ≡ false → A
clash b h k = cc

module _ (f : Session → Session) (settles : (s : Session) → is_disconnected (f s) ≡ false) where
  modify-Settled : (id : Text) (st : Store) → Settled id (modify id f st).1
  unfolding Settled modify
  modify-Settled id st s = elim (Option-cases (find id st)) [
    | inl e ↦ rw (e, modify) (λ h. cc)
    | inr (t, e) ↦
        rw (e, modify, find-put_self id (f t) st)
          (λ h. subst (λ x. is_disconnected x ≡ false) (some-injective (f t) s h) (settles t))
  ]

  modify-Leaves : (id j : Text) (st : Store) → Leaves j st (modify id f st).1
  unfolding Leaves Settled modify
  modify-Leaves id j st s = elim (Option-cases (find id st)) [
    | inl e ↦ rw (e, modify) (λ h d. h)
    | inr (t, e) ↦ elim (Bool-cases (same_text id j)) [
      | inl same ↦ (λ h d. clash (is_disconnected s) d (
          subst (λ i. Settled i (modify id f st).1) (same_text_sound id j same)
            (modify-Settled id st) s h))
      | inr other ↦ rw (e, modify, find-put_ne id j (f t) st other) (λ h d. h)
    ]
  ]

-- Both changes that a round of the loop may make end the disconnection.
lost-settles : (ts : Word) (s : Session) → is_disconnected (touch ts (set_status lost s)) ≡ false
unfolding is_disconnected touch set_status
lost-settles ts s = refl

running-settles : (s : Session) → is_disconnected (set_status running s) ≡ false
unfolding is_disconnected set_status
running-settles s = refl

-- A session of this id is among those to relaunch.
Has : Text → List Session → Type 0
Has j [] = ⊥
Has j (s ∷ ss) = (s.id ≡ j) ⊎ Has j ss

module _ {G : Type 0} (gateway : Gateway G) (machine_id : Text) (ts : Word) where
  abbrev answer : Session → World G → Option Error
  answer s w = (gateway.open_session (relaunch_request machine_id s) w.agents).0

  relaunch-Settled :
      (s : Session) (w : World G) → Settled s.id (relaunch gateway machine_id ts s w).store
  unfolding relaunch set_lost set_running
  relaunch-Settled s w = elim (Option-cases (answer s w)) [
    | inl e ↦ rw (e, relaunch) (modify-Settled (set_status running) running-settles s.id w.store)
    | inr (err, e) ↦
        rw (e, relaunch)
          (modify-Settled (λ t. touch ts (set_status lost t)) (lost-settles ts) s.id w.store)
  ]

  relaunch-Leaves :
      (s : Session) (w : World G) (j : Text)
      → Leaves j w.store (relaunch gateway machine_id ts s w).store
  unfolding relaunch set_lost set_running
  relaunch-Leaves s w j = elim (Option-cases (answer s w)) [
    | inl e ↦ rw (e, relaunch) (modify-Leaves (set_status running) running-settles s.id j w.store)
    | inr (err, e) ↦
        rw (e, relaunch)
          (modify-Leaves (λ t. touch ts (set_status lost t)) (lost-settles ts) s.id j w.store)
  ]

  relaunch_all-Leaves :
      (ss : List Session) (w : World G) (j : Text)
      → Leaves j w.store (relaunch_all gateway machine_id ts ss w).store
  unfolding relaunch_all Leaves
  relaunch_all-Leaves [] w j s h d = h
  relaunch_all-Leaves (r ∷ rs) w j s h d =
      relaunch-Leaves r w j s (relaunch_all-Leaves rs (relaunch gateway machine_id ts r w) j s h d)
        d

  relaunch_all-Settled :
      (ss : List Session) (w : World G) (j : Text)
      → Has j ss
      → Settled j (relaunch_all gateway machine_id ts ss w).store
  unfolding relaunch_all Leaves Settled Has
  relaunch_all-Settled [] w j m s h = elim m [ ]
  relaunch_all-Settled (r ∷ rs) w j (inr m) s h =
      relaunch_all-Settled rs (relaunch gateway machine_id ts r w) j m s h
  relaunch_all-Settled (r ∷ rs) w j (inl e) s h = elim (Bool-cases (is_disconnected s)) [
    | inr done ↦ done
    | inl d ↦ clash (is_disconnected s) d (
        subst (λ i. Settled i (relaunch gateway machine_id ts r w).store) e (relaunch-Settled r w) s
          (relaunch_all-Leaves rs (relaunch gateway machine_id ts r w) j s h d))
  ]

-- A session that is stored under its id is found among those selected.
select-Has :
    (p : Session → Bool) (st : Store) (j : Text) (s : Session)
    → Keyed st
    → find j st ≡ some s
    → p s ≡ true
    → Has j (select p st)
unfolding select find Has
select-Has p [] j s k h ps = cc
select-Has p ((i, t) ∷ st) j s k h ps = elim (Bool-cases (same_text i j)) [
  | inl e ↦
      let same : some t ≡ some s = subst (λ b. (if b then some t else find j st) ≡ some s) e h in
      rw (subst (λ x. p x ≡ true) (sym (some-injective t s same)) ps)
        (inl (k.0 ∙ same_text_sound i j e))
  | inr e ↦
      let rest : Has j (select p st) =
        select-Has p st j s k.1 (subst (λ b. (if b then some t else find j st) ≡ some s) e h) ps in
      elim (Bool-cases (p t)) [ inl pt ↦ rw pt (inr rest) | inr pt ↦ rw pt rest ]
]

none-ne : (o : Option Session) (s : Session) → o ≡ none → o ≡ some s → ⊥
none-ne o s e h = cc

-- The condition and the change of `MarkRunningLost`, on one session.
lost_after : Text → Word → Session → Session
lost_after machine_id ts s =
    if of_machine machine_id s && is_live s && not s.auto_relaunch
    then touch ts (set_status lost s)
    else s

-- A session that neither waits for a connection nor runs without having been relaunched.
unfoldable pub is_settled : Session → Bool
is_settled s = not (is_disconnected s) && (not (is_running s) || s.auto_relaunch)

lost-is_settled : (ts : Word) (s : Session) → is_settled (touch ts (set_status lost s)) ≡ true
unfolding is_settled is_running is_disconnected touch set_status
lost-is_settled ts s = refl

settle_table :
    (m d r a : Bool)
    → m ≡ true
    → (d && (m && (r || d) && a)) ≡ false
    → (m && (r || d) && not a) ≡ false
    → (not d && (not r || a)) ≡ true
settle_table m d r a em h c = ground arith

and_split : (a b : Bool) → (a && b) ≡ true → (a ≡ true) × (b ≡ true)
and_split a b h = ground arith

lost_after-settled :
    (machine_id : Text) (ts : Word) (s : Session)
    → of_machine machine_id (lost_after machine_id ts s) ≡ true
    → (is_disconnected s && relaunches machine_id s) ≡ false
    → is_settled (lost_after machine_id ts s) ≡ true
unfolding lost_after is_settled relaunches is_live
lost_after-settled machine_id ts s m h =
    elim (Bool-cases (of_machine machine_id s && is_live s && not s.auto_relaunch)) [
      | inl c ↦ rw (c, lost_after) (lost-is_settled ts s)
      | inr c ↦
          rw (c, lost_after)
            (settle_table (of_machine machine_id s) (is_disconnected s) (is_running s)
              s.auto_relaunch
              (subst
                (λ b. of_machine machine_id (if b then touch ts (set_status lost s) else s) ≡ true)
                c m)
              h c)
    ]

module _ {G : Type 0} (gateway : Gateway G) (machine_id id : Text) (ts : Word) (w : World G)
    (k : Keyed w.store) where
  abbrev looped : Store
  looped = (relaunch_all gateway machine_id ts (select (relaunches machine_id) w.store) w).store

  looped-not_disconnected :
      (s : Session)
      → find id looped ≡ some s
      → (is_disconnected s && relaunches machine_id s) ≡ false
  unfolding Leaves Settled
  looped-not_disconnected s h = elim (Bool-cases (is_disconnected s && relaunches machine_id s)) [
    | inr done ↦ done
    | inl both ↦
        let (d, r) = and_split (is_disconnected s) (relaunches machine_id s) both in
        let before : find id w.store ≡ some s =
          relaunch_all-Leaves gateway machine_id ts (select (relaunches machine_id) w.store) w id s
            h d in
        clash (is_disconnected s) d (
          relaunch_all-Settled gateway machine_id ts (select (relaunches machine_id) w.store) w id
            (select-Has (relaunches machine_id) w.store id s k before r) s h)
  ]

mark_running_lost-find :
    (machine_id id : Text) (ts : Word) (st : Store)
    → find id (mark_running_lost machine_id ts st).1 ≡ map (lost_after machine_id ts) (find id st)
unfolding mark_running_lost lost_after
mark_running_lost-find machine_id id ts st = find-update_where _ _ id st

-- After `ReconcileMachineRestart`, over a store that keeps each session under its own id and
-- whatever the agents answer, no session of the restarted machine is disconnected, and one that
-- runs has auto-relaunch set.
pub reconcile-settled :
    {G : Type 0} (gateway : Gateway G) (machine_id id : Text) (ts : Word) (w : World G)
    (s : Session)
    → Keyed w.store
    → find id (reconcile_machine_restart gateway machine_id ts w).1.store ≡ some s
    → of_machine machine_id s ≡ true
    → is_settled s ≡ true
unfolding reconcile_machine_restart auto_relaunch_sessions mark_running_lost
reconcile-settled gateway machine_id id ts w s k h m =
    let st = looped gateway machine_id id ts w k in
    let found : map (lost_after machine_id ts) (find id st) ≡ some s =
      sym (mark_running_lost-find machine_id id ts st) ∙ h in
    elim (Option-cases (find id st)) [
      | inl e ↦ absurd (none-ne _ s (ap (map (lost_after machine_id ts)) e) found)
      | inr (t, e) ↦
          let same : lost_after machine_id ts t ≡ s =
            some-injective _ s (sym (ap (map (lost_after machine_id ts)) e) ∙ found) in
          subst (λ x. is_settled x ≡ true) same
            (lost_after-settled machine_id ts t
              (subst (λ x. of_machine machine_id x ≡ true) (sym same) m)
              (looped-not_disconnected gateway machine_id id ts w k t e))
    ]
