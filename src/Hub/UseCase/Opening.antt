-- ===== src/Hub/UseCase/Opening.antt =====
-- `Open` of internal/hub/app/sessions/usecase.go.
use constellate.Common.{
  ◌≡◌, refl, subst, Bool-cases, Option-cases, inl, inr, ◌⊎◌, Option, none, some, Word,
  if◌then◌else◌,
}
use constellate.Hub.Session.{Text, same_text, Session, running, new_session}
use constellate.Hub.Store.{Error, Store, find, put, create}
use constellate.Hub.Store.Laws.{same_text_sound, find-put_self, find-put_ne}
use constellate.Hub.UseCase.{World, Gateway, OpenInput, open_request, open_new}

-- By what the agent answered: the new session, and what is stored then under every id; or the
-- agent's error, with nothing stored and nothing recorded.
abbrev pub Opens :
    {G : Type 0} → Text → OpenInput → World G → Option Error → (Error ⊎ Session) × World G → Type 0
Opens id i w none r =
    (s : Session) × (r.0 ≡ inr s)
    × (s.id ≡ id)
    × (s.machine_id ≡ i.machine_id)
    × (s.status ≡ running)
    × ((j : Text) → find j r.1.store ≡ (if same_text id j then some s else find j w.store))
Opens id i w (some e) r = (r.0 ≡ inl e) × (r.1.store ≡ w.store) × (r.1.audit ≡ w.audit)

put-find :
    (id : Text) (s : Session) (st : Store) (j : Text)
    → find j (put id s st) ≡ (if same_text id j then some s else find j st)
put-find id s st j = elim (Bool-cases (same_text id j)) [
  | inl e ↦
      rw e (
        subst (λ k. find k (put id s st) ≡ some s) (same_text_sound id j e) (find-put_self id s st))
  | inr e ↦ rw e (find-put_ne id j s st e)
]

-- If the agent refuses it, `Open` returns the agent's error and neither stores nor records
-- anything; otherwise it returns a running session with the new id on that machine, which is
-- stored under its id with every other session left as it is.
pub open_new-Opens :
    {G : Type 0} (gateway : Gateway G) (id name : Text) (now : Word) (i : OpenInput) (w : World G)
    → Opens id i w
        (gateway.open_session (open_request id i) w.agents).0
        (open_new gateway id name now i w)
unfolding open_new create new_session
open_new-Opens gateway id name now i w =
    elim (Option-cases (gateway.open_session (open_request id i) w.agents).0) [
      | inl e ↦ rw (e, open_new) (_, refl, refl, refl, refl, put-find id _ w.store)
      | inr (err, e) ↦ rw (e, open_new) (refl, refl, refl)
    ]
