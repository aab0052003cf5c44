-- ===== src/Hub/Dashboard/Tallies.antt =====
-- dashboard/usecase.go: the totals of the loop over the sessions, against counts of the sessions that
-- have a status or an activity.
use constellate.Common.{
  ℕ, ◌+◌, ◌≡◌, refl, ap, sym, subst, ◌∙◌, Bool, true, false, ◌&&◌, Bool-cases, inl, inr, some, List,
  [], ◌∷◌, ◌>>=◌, arith, if◌then◌else◌,
}
use constellate.Maps.{Text, same_text}
use constellate.Maps.Laws.{same_text_sound}
use constellate.Hub.Session.{
  Session, Status, running, exited, lost, disconnected, activity_active, activity_idle,
  activity_awaiting_input,
}
use constellate.Hub.Dashboard.{
  Totals, Progress, count_status, count_named, count_activity, count_session, roll_all,
}
use constellate.Hub.Dashboard.Counts.{IsCounted, roll-IsCounted}

-- How many elements of a list pass a test.
unfoldable pub tally {ℓ} : {A : Type ℓ} → (A → Bool) → List A → ℕ
tally p [] = 0
tally p (a ∷ as') = (if p a then 1 else 0) + tally p as'

abbrev pub is_running : Status → Bool
is_running running = true
is_running _ = false

abbrev pub is_exited : Status → Bool
is_exited exited = true
is_exited _ = false

abbrev pub is_lost : Status → Bool
is_lost lost = true
is_lost _ = false

abbrev pub is_disconnected : Status → Bool
is_disconnected disconnected = true
is_disconnected _ = false

-- A session that runs and has the activity `a`.
abbrev pub is_running_as : Text → Session → Bool
is_running_as a s = is_running s.status && same_text s.activity a

-- A session that has a status.
abbrev pub has : (Status → Bool) → Session → Bool
has p s = p s.status

-- The totals `u` are `t` with the sessions counted.
abbrev pub Tallied : List Session → Totals → Totals → Type 0
Tallied ss t u =
    (u.sessions_running ≡ t.sessions_running + tally (has is_running) ss)
    × (u.sessions_exited ≡ t.sessions_exited + tally (has is_exited) ss)
    × (u.sessions_lost ≡ t.sessions_lost + tally (has is_lost) ss)
    × (u.sessions_disconnected ≡ t.sessions_disconnected + tally (has is_disconnected) ss)
    × (u.sessions_active ≡ t.sessions_active + tally (is_running_as activity_active) ss)
    × (u.sessions_idle ≡ t.sessions_idle + tally (is_running_as activity_idle) ss)
    × (u.sessions_awaiting_input
        ≡ t.sessions_awaiting_input + tally (is_running_as activity_awaiting_input) ss)

-- A text is one of the three names at most.
one_name : (a b c : Text) → same_text b c ≡ false → same_text a b ≡ true → same_text a c ≡ false
one_name a b c n h = subst (λ x. same_text x c ≡ false) (sym (same_text_sound a b h)) n

count_session-Tallied : (s : Session) (t : Totals) → Tallied (s ∷ []) t (count_session s t)
unfolding count_session count_status count_activity count_named tally same_text
count_session-Tallied s t = of_status s.status refl
  where
    of_status : (st : Status) → s.status ≡ st → Tallied (s ∷ []) t (count_session s t)
    of_status running e = elim (Bool-cases (same_text s.activity activity_active)) [
      | inl a ↦
          let i = one_name s.activity activity_active activity_idle refl a in
          let w = one_name s.activity activity_active activity_awaiting_input refl a in
          rw (e, a, i, w) (ground arith)
      | inr a ↦ elim (Bool-cases (same_text s.activity activity_idle)) [
        | inl i ↦
            let w = one_name s.activity activity_idle activity_awaiting_input refl i in
            rw (e, a, i, w) (ground arith)
        | inr i ↦ elim (Bool-cases (same_text s.activity activity_awaiting_input)) [
          | inl w ↦ rw (e, a, i, w) (ground arith)
          | inr w ↦ rw (e, a, i, w) (ground arith)
        ]
      ]
    ]
    of_status exited e = rw e (ground arith)
    of_status lost e = rw e (ground arith)
    of_status disconnected e = rw e (ground arith)

cons-Tallied :
    (s : Session) (ss : List Session) (t u w : Totals)
    → Tallied (s ∷ []) t u
    → Tallied ss u w
    → Tallied (s ∷ ss) t w
unfolding tally
cons-Tallied s ss t u w a b = ground (arith, a, b)

pub roll_all-Tallied :
    (ss : List Session) (g h : Progress)
    → IsCounted g
    → roll_all ss g ≡ some h
    → Tallied ss g.totals h.totals
unfolding roll_all tally
roll_all-Tallied [] g h v e =
    let q : g ≡ h = cc e in subst (λ (x : Progress). Tallied [] g.totals x.totals) q (ground arith)
roll_all-Tallied (s ∷ ss) g h v e =
    let (t, f, w, n, a, b) = roll-IsCounted s g v in
    cons-Tallied s ss g.totals t.totals h.totals
      (subst (Tallied (s ∷ []) g.totals) (sym b) (count_session-Tallied s g.totals))
      (roll_all-Tallied ss t h w (sym (ap (λ o. o >>= λ x. roll_all ss x) f) ∙ e))
