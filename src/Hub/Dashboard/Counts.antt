-- ===== src/Hub/Dashboard/Counts.antt =====
-- dashboard/usecase.go: what the loop over the sessions counts.
use constellate.Common.{
  ℕ, ◌+◌, ◌≡◌, ◌≤◌, refl, ap, ◌∙◌, Bool, true, if_ind, Bool-cases, inl, inr, Option, none, some,
  List, [], ◌∷◌, ◌++◌, ◌>>=◌, arith, length,
}
use constellate.Maps.{Text, same_text, Map, find, put}
use constellate.Maps.Laws.{find-put, find-put_self}
use constellate.Maps.Sums.{IsDistinct, sum_by, weight, put-IsDistinct, sum_by-put}
use constellate.Hub.Session.{
  Session, Status, running, exited, lost, disconnected, activity_active, activity_idle,
  activity_awaiting_input,
}
use constellate.Hub.Machines.{Machine}
use constellate.Hub.Projects.{Project}
use constellate.Hub.Dashboard.{
  Totals, ProjectRollup, Progress, index_projects, project_rollup, ungrouped, project_index,
  count_status, count_named, count_activity, count_session, roll_machine, count_in_project,
  is_there, bucket_of, roll_project, roll, roll_all, start, attend,
}

abbrev pub total_of : Text → ProjectRollup → ℕ
total_of k p = p.total

-- The four statuses share out the sessions that are counted, the three activities some of those
-- that run, and the projects with the bucket of the others all of them.
pub record IsCounted (g : Progress) : Type 0 where
  pub shared :
      g.totals.sessions_total
      ≡ g.totals.sessions_running + g.totals.sessions_exited + g.totals.sessions_lost
        + g.totals.sessions_disconnected
  pub named :
      g.totals.sessions_active + g.totals.sessions_idle + g.totals.sessions_awaiting_input
      ≤ g.totals.sessions_running
  pub grouped : sum_by total_of g.projects ≡ g.totals.sessions_total
  pub distinct : IsDistinct g.projects
  pub bucket : is_there (find [] g.projects) ≡ true

count_session_lem :
    (s : Session) (t : Totals)
    → t.sessions_total
      ≡ t.sessions_running + t.sessions_exited + t.sessions_lost + t.sessions_disconnected
    → t.sessions_active + t.sessions_idle + t.sessions_awaiting_input ≤ t.sessions_running
    → ((count_session s t).sessions_total
        ≡ (count_session s t).sessions_running
          + (count_session s t).sessions_exited
          + (count_session s t).sessions_lost
          + (count_session s t).sessions_disconnected)
      × ((count_session s t).sessions_active
            + (count_session s t).sessions_idle
            + (count_session s t).sessions_awaiting_input
          ≤ (count_session s t).sessions_running)
      × ((count_session s t).sessions_total ≡ t.sessions_total + 1)
unfolding count_session count_status count_activity count_named
count_session_lem s t h k = of_status s.status
  where
    of_status :
        (st : Status)
        → let u =
            count_activity st s.activity
              (count_status st (record t { sessions_total = t.sessions_total + 1 })) in
          (u.sessions_total
            ≡ u.sessions_running + u.sessions_exited + u.sessions_lost + u.sessions_disconnected)
          × (u.sessions_active + u.sessions_idle + u.sessions_awaiting_input ≤ u.sessions_running)
          × (u.sessions_total ≡ t.sessions_total + 1)
    of_status running = elim (Bool-cases (same_text s.activity activity_active)) [
      | inl a ↦ rw a (ground (arith, h, k))
      | inr a ↦ rw a elim (Bool-cases (same_text s.activity activity_idle)) [
        | inl i ↦ rw i (ground (arith, h, k))
        | inr i ↦ rw i elim (Bool-cases (same_text s.activity activity_awaiting_input)) [
          | inl w ↦ rw w (ground (arith, h, k))
          | inr w ↦ rw w (ground (arith, h, k))
        ]
      ]
    ]
    of_status exited = ground (arith, h, k)
    of_status lost = ground (arith, h, k)
    of_status disconnected = ground (arith, h, k)

is_there-some : {V : Type 0} (o : Option V) → is_there o ≡ true → (v : V) × (o ≡ some v)
is_there-some none h = absurd (cc h)
is_there-some (some v) h = (v, refl)

bucket_of-found :
    (s : Session) (ps : Map ProjectRollup)
    → is_there (find [] ps) ≡ true
    → (p : ProjectRollup) × (find (bucket_of s ps) ps ≡ some p)
unfolding bucket_of
bucket_of-found s ps h = elim (Bool-cases (is_there (find s.project_id ps))) [
  | inl e ↦ rw e (is_there-some (find s.project_id ps) e)
  | inr e ↦ rw e (is_there-some (find [] ps) h)
]

total-count_in_project :
    (st : Status) (p : ProjectRollup) → (count_in_project st p).total ≡ p.total + 1
unfolding count_in_project
total-count_in_project running p = refl
total-count_in_project exited p = refl
total-count_in_project lost p = refl
total-count_in_project disconnected p = refl

is_there-put :
    (k : Text) (p : ProjectRollup) (ps : Map ProjectRollup)
    → is_there (find [] ps) ≡ true
    → is_there (find [] (put k p ps)) ≡ true
is_there-put k p ps h =
    ap is_there (find-put k [] p ps)
    ∙ if_ind (λ (o : Option ProjectRollup). is_there o ≡ true) (same_text k []) refl h

-- The turn of the loop for a session.
pub roll-IsCounted :
    (s : Session) (g : Progress)
    → IsCounted g
    → (h : Progress) × (roll s g ≡ some h)
      × IsCounted h
      × (h.totals.sessions_total ≡ g.totals.sessions_total + 1)
      × (h.machines ≡ roll_machine s (find s.machine_id g.machines) g.machines)
      × (h.totals ≡ count_session s g.totals)
unfolding roll roll_project
roll-IsCounted s g v =
    let (p, e) = bucket_of-found s g.projects v.bucket in
    let k = bucket_of s g.projects in
    let q = count_in_project s.status p in
    let c = count_session_lem s g.totals v.shared v.named in
    let w = sum_by-put total_of k q g.projects in
    let h : Progress = record {
      totals = count_session s g.totals;
      machines = roll_machine s (find s.machine_id g.machines) g.machines;
      projects = put k q g.projects;
      attention = g.attention ++ attend s.status s;
    } in
    (
      h,
      ap (λ o. roll_project s.status k o g.projects >>= λ ps. some (record h { projects = ps })) e,
      record {
        shared = c.0;
        named = c.1;
        grouped =
            omega (
              arith,
              c.2,
              w,
              total-count_in_project s.status p,
              v.grouped,
              ap (weight total_of k) e,
            );
        distinct = put-IsDistinct k q g.projects v.distinct;
        bucket = is_there-put k q g.projects v.bucket;
      },
      c.2,
      refl,
      refl,
    )

pub roll_all-IsCounted :
    (ss : List Session) (g : Progress)
    → IsCounted g
    → (h : Progress) × (roll_all ss g ≡ some h)
      × IsCounted h
      × (h.totals.sessions_total ≡ g.totals.sessions_total + length ss)
unfolding roll_all
roll_all-IsCounted [] g v = (g, refl, v, omega arith)
roll_all-IsCounted (s ∷ ss) g v =
    let (h, e, w, n, a, b) = roll-IsCounted s g v in
    let (k, f, x, m) = roll_all-IsCounted ss h w in
    (k, ap (λ o. o >>= λ t. roll_all ss t) e ∙ f, x, omega (arith, m, n))

index_projects_lem :
    (ps : List Project) (m : Map ProjectRollup)
    → IsDistinct m
    → sum_by total_of m ≡ 0
    → IsDistinct (index_projects ps m) × (sum_by total_of (index_projects ps m) ≡ 0)
unfolding index_projects project_rollup
index_projects_lem [] m d z = (d, z)
index_projects_lem (p ∷ ps) m d z =
    let q = project_rollup p.id p.name p.machine_id in
    index_projects_lem ps (put p.id q m) (put-IsDistinct p.id q m d)
      (omega (arith, sum_by-put total_of p.id q m, z))

pub start-IsCounted :
    (online : Text → Bool) (ms : List Machine) (ps : List Project) → IsCounted (start online ms ps)
unfolding start project_index IsDistinct sum_by project_rollup
start-IsCounted online ms ps =
    let w = index_projects_lem ps [] (omega arith) refl in
    record {
      shared = refl;
      named = omega arith;
      grouped = omega (arith, sum_by-put total_of [] ungrouped (index_projects ps []), w.1);
      distinct = put-IsDistinct [] ungrouped (index_projects ps []) w.0;
      bucket = ap is_there (find-put_self [] ungrouped (index_projects ps []));
    }
