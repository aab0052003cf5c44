-- ===== src/Tests/Board.antt =====
-- The dashboard, and the replies of agents, at concrete inputs.
use constellate.Common.{
  ◌+◌, ◌≡◌, ◌≤◌, Bool, true, false, ℕ, arith, refl, some, none, List, [], ◌∷◌, length,
}
use constellate.Maps.{Text, find, put, same_text}
use constellate.Hub.Session.{
  Session, new_session, activity_active, activity_idle, activity_awaiting_input,
}
use mathlib.Core.Option.{map}
use constellate.Hub.Machines.{Machine, new_machine}
use constellate.Hub.Projects.{Project, ProjectStore, create_project, delete_project, has_path}
use constellate.Hub.Dashboard.{Progress, roll_all, start}
use constellate.Hub.Dashboard.Rollups.{sessions_of, with_counts, find-roll_all_machines}
use constellate.Hub.Dashboard.Tallies.{
  tally, has, is_running, is_exited, is_lost, is_disconnected, is_running_as,
}
use constellate.Hub.Dashboard.View.{View, overview}
use constellate.Hub.Dashboard.View.Shared.{all_sessions, overview_counts}
use constellate.Hub.Gateway.{opened, Link, await_open, receive}
use constellate.Hub.Inbound
use constellate.Hub.Inbound.{Side, beats, handle_frame, handle_frames}
use constellate.Hub.Inbound.Rounds.{
  Returns, handle_frames-Returns, inbound_of, outcome, receive-handle_control_frame,
}
use constellate.Hub.Projects.Owned.{HasDistinctPaths, keeps_distinct_paths}
use constellate.Agent.Control.{Agent, Answers, Reply, open_session_msg, handle_control_frame}
use constellate.Agent.Sessions.{new_manager, open_session}
use constellate.Hub.Gateway.Replies.{IsWaiting, resolve_open_returns}

abbrev machines : List Machine
machines = new_machine (b'm' ∷ []) [] (b'x' ∷ []) [] [] [] 5 ∷ []

-- One in a project, one in a project that is not stored.
abbrev sessions : List Session
sessions =
    new_session (b'1' ∷ []) (b'm' ∷ []) (b'p' ∷ []) [] [] [] 6
    ∷ new_session (b'2' ∷ []) (b'm' ∷ []) (b'q' ∷ []) [] [] [] 7
    ∷ []

abbrev projects : List Project
projects =
    record {
      id = b'p' ∷ [];
      machine_id = b'm' ∷ [];
      name = b'p' ∷ [];
      path = b'/' ∷ [];
      color = [];
      created_at = 4;
    }
    ∷ []

abbrev online : Text → Bool
online id = true

overview_counts_example :
    (v : View) × (overview online (some machines) (some sessions) (some projects) (some [])
      ≡ some v)
    × (v.totals.sessions_total ≡ length sessions)
    × (v.totals.sessions_total
        ≡ v.totals.sessions_running + v.totals.sessions_exited + v.totals.sessions_lost
          + v.totals.sessions_disconnected)
    × (v.totals.sessions_active + v.totals.sessions_idle + v.totals.sessions_awaiting_input
        ≤ v.totals.sessions_running)
    × (all_sessions v.projects ≡ length sessions)
    × (v.totals.sessions_running ≡ tally (has is_running) sessions)
    × (v.totals.sessions_exited ≡ tally (has is_exited) sessions)
    × (v.totals.sessions_lost ≡ tally (has is_lost) sessions)
    × (v.totals.sessions_disconnected ≡ tally (has is_disconnected) sessions)
    × (v.totals.sessions_active ≡ tally (is_running_as activity_active) sessions)
    × (v.totals.sessions_idle ≡ tally (is_running_as activity_idle) sessions)
    × (v.totals.sessions_awaiting_input ≡ tally (is_running_as activity_awaiting_input) sessions)
overview_counts_example = overview_counts online machines sessions projects []

find-roll_all_machines_example :
    (h : Progress) × (roll_all sessions (start online machines projects) ≡ some h)
    × (find (b'm' ∷ []) h.machines
        ≡ map
            (with_counts (sessions_of (b'm' ∷ []) sessions))
            (find (b'm' ∷ []) (start online machines projects).machines))
find-roll_all_machines_example =
    find-roll_all_machines online (b'm' ∷ []) machines sessions projects

abbrev link : Link
link = record { pending = []; channels = [] }

link-IsWaiting : IsWaiting link
unfolding find
link-IsWaiting = record { blank = λ id ch e. absurd (cc e); apart = λ i j ch e f. absurd (cc e) }

-- An open that waits at the channel 0.
abbrev waiting : Link
waiting = record { pending = (b'1' ∷ [], 0) ∷ []; channels = none ∷ [] }

waiting-IsWaiting : IsWaiting waiting
unfolding await_open put
waiting-IsWaiting = (resolve_open_returns (b'1' ∷ []) (opened 3) link link-IsWaiting).1

-- The agent that the machine `m` has sends what it likes.
abbrev side : Side ℕ ℕ
side = record {
  presence = record {
    links = (b'm' ∷ [], 0) ∷ [];
    machines = [];
    hub = record { store = []; agents = 0; audit = [] };
  };
  link = waiting;
  overview = record { latest = []; subs = []; viewers = 0; last_enabled = false; calls = [] };
  metrics = [];
}

handle_frames-Returns_example : Returns (
    handle_frames
      (b'm' ∷ [])
      ((5, beats (some record { metrics = some 7; stats = [] }))
        ∷ (6, Inbound.session_opened (b'1' ∷ []) 3)
        ∷ (7, Inbound.session_opened (b'1' ∷ []) 4)
        ∷ [])
      side)
handle_frames-Returns_example =
    handle_frames-Returns (b'm' ∷ [])
      ((5, beats (some record { metrics = some 7; stats = [] }))
        ∷ (6, Inbound.session_opened (b'1' ∷ []) 3)
        ∷ (7, Inbound.session_opened (b'1' ∷ []) 4)
        ∷ [])
      side waiting-IsWaiting

-- An agent with no session yet, whose factory gives a process.
abbrev agent : Agent ℕ
agent = record { manager = new_manager 100 none 5; toggle = none }

abbrev answers : Answers ℕ
answers = record {
  pty = some 3;
  missing = false;
  reads = true;
  removes = true;
  screen = some 0;
  fit = λ s. s;
}

waits_at : find (b'1' ∷ []) side.link.pending ≡ some 0
unfolding find same_text
waits_at = refl

receive-handle_control_frame_example :
    (r : Reply) × (t : Side ℕ ℕ) × ((handle_control_frame
        (open_session_msg (b'1' ∷ []))
        answers
        agent).0
      ≡ some r)
    × (handle_frame (b'm' ∷ []) 8 (inbound_of r) side ≡ some t)
    × ((receive 0 t.link).0
        ≡ some (
            outcome
              (some 3)
              false
              (open_session true (b'1' ∷ []) (some 3) (some 0) agent.manager).0))
receive-handle_control_frame_example =
    receive-handle_control_frame (b'm' ∷ []) 8 (b'1' ∷ []) answers agent side 0 waiting-IsWaiting
      refl waits_at

-- One project, at its path.
abbrev project_store : ProjectStore
project_store =
    (
      b'p' ∷ [],
      record {
        id = b'p' ∷ [];
        machine_id = b'm' ∷ [];
        name = b'p' ∷ [];
        path = b'/' ∷ [];
        color = [];
        created_at = 4;
      },
    )
    ∷ []

abbrev second_project : Project
second_project = record {
  id = b'q' ∷ [];
  machine_id = b'm' ∷ [];
  name = b' ' ∷ b'q' ∷ [];
  path = b'/' ∷ b'q' ∷ [];
  color = [];
  created_at = 5;
}

project_store-HasDistinctPaths : HasDistinctPaths project_store
unfolding HasDistinctPaths has_path
project_store-HasDistinctPaths = (refl, omega arith)

keeps_distinct_paths_example :
    HasDistinctPaths (create_project second_project project_store).1
    × HasDistinctPaths (delete_project (b'p' ∷ []) [] project_store).1
keeps_distinct_paths_example =
    keeps_distinct_paths second_project (b'p' ∷ []) [] project_store project_store-HasDistinctPaths
