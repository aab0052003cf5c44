-- ===== src/Hub/Dashboard/View/Shared.antt =====
-- dashboard/usecase.go: the counts of the view that `Overview` returns.
use constellate.Common.{
  ℕ, ◌+◌, ◌≡◌, ◌≤◌, refl, ap, Bool, if_ind, some, List, [], ◌∷◌, ◌>>=◌, arith, length,
}
use constellate.Maps.{Text, Map}
use constellate.Maps.Sums.{sum_by}
use constellate.Hub.Session.{Session, activity_active, activity_idle, activity_awaiting_input}
use constellate.Hub.Machines.{Machine}
use constellate.Hub.Projects.{Project}
use constellate.Hub.Audit.{Event}
use constellate.Hub.Dashboard.{ProjectRollup, start}
use constellate.Hub.Dashboard.Counts.{total_of, roll_all-IsCounted, start-IsCounted}
use constellate.Hub.Dashboard.Tallies.{
  tally, has, is_running, is_exited, is_lost, is_disconnected, is_running_as, roll_all-Tallied,
}
use constellate.Hub.Dashboard.View.{
  insert, sort, values, less_project, shown, View, view_of, overview,
}

-- The sessions of all the rollups of a list.
unfoldable pub all_sessions : List ProjectRollup → ℕ
all_sessions [] = 0
all_sessions (p ∷ ps) = p.total + all_sessions ps

all_sessions-insert :
    (less : ProjectRollup → ProjectRollup → Bool) (p : ProjectRollup) (ps : List ProjectRollup)
    → all_sessions (insert less p ps) ≡ p.total + all_sessions ps
unfolding insert all_sessions
all_sessions-insert less p [] = refl
all_sessions-insert less p (q ∷ ps) =
    if_ind (λ (l : List ProjectRollup). all_sessions l ≡ p.total + (q.total + all_sessions ps))
      (less q p) (omega (arith, all_sessions-insert less p ps)) refl

all_sessions-sort :
    (less : ProjectRollup → ProjectRollup → Bool) (ps : List ProjectRollup)
    → all_sessions (sort less ps) ≡ all_sessions ps
unfolding sort all_sessions
all_sessions-sort less [] = refl
all_sessions-sort less (p ∷ ps) =
    omega (arith, all_sessions-insert less p (sort less ps), all_sessions-sort less ps)

all_sessions-shown : (ps : List ProjectRollup) → all_sessions (shown ps) ≡ all_sessions ps
unfolding shown all_sessions
all_sessions-shown [] = refl
all_sessions-shown (p ∷ ps) = ground (arith, all_sessions-shown ps)

all_sessions-values : (m : Map ProjectRollup) → all_sessions (values m) ≡ sum_by total_of m
unfolding values sum_by all_sessions
all_sessions-values [] = refl
all_sessions-values ((k, p) ∷ m) = ap (λ n. p.total + n) (all_sessions-values m)

-- If no store fails, `Overview` returns a view, whose totals are the numbers of the sessions that
-- have each status, and of those that run and have each activity, and in which every session is
-- counted once: by its status, and in one of the projects or in the bucket of the others.
pub overview_counts :
    (online : Text → Bool) (ms : List Machine) (ss : List Session) (ps : List Project)
    (es : List Event)
    → (v : View) × (overview online (some ms) (some ss) (some ps) (some es) ≡ some v)
      × (v.totals.sessions_total ≡ length ss)
      × (v.totals.sessions_total
          ≡ v.totals.sessions_running + v.totals.sessions_exited + v.totals.sessions_lost
            + v.totals.sessions_disconnected)
      × (v.totals.sessions_active + v.totals.sessions_idle + v.totals.sessions_awaiting_input
          ≤ v.totals.sessions_running)
      × (all_sessions v.projects ≡ length ss)
      × (v.totals.sessions_running ≡ tally (has is_running) ss)
      × (v.totals.sessions_exited ≡ tally (has is_exited) ss)
      × (v.totals.sessions_lost ≡ tally (has is_lost) ss)
      × (v.totals.sessions_disconnected ≡ tally (has is_disconnected) ss)
      × (v.totals.sessions_active ≡ tally (is_running_as activity_active) ss)
      × (v.totals.sessions_idle ≡ tally (is_running_as activity_idle) ss)
      × (v.totals.sessions_awaiting_input ≡ tally (is_running_as activity_awaiting_input) ss)
unfolding overview view_of start
overview_counts online ms ss ps es =
    let (g, e, w, n) = roll_all-IsCounted ss (start online ms ps) (start-IsCounted online ms ps) in
    let (n1, n2, n3, n4, n5, n6, n7) =
      roll_all-Tallied ss (start online ms ps) g (start-IsCounted online ms ps) e in
    (
      view_of es g,
      ap (λ o. o >>= λ t. some (view_of es t)) e,
      omega (arith, n),
      w.shared,
      w.named,
      omega (
        arith,
        n,
        w.grouped,
        all_sessions-sort less_project (shown (values g.projects)),
        all_sessions-shown (values g.projects),
        all_sessions-values g.projects,
      ),
      omega (arith, n1),
      omega (arith, n2),
      omega (arith, n3),
      omega (arith, n4),
      omega (arith, n5),
      omega (arith, n6),
      omega (arith, n7),
    )
