-- ===== src/Agent/Sessions/Views.antt =====
-- manager.go: what an agent reports of its sessions. A screen is a port: its revision, what it
-- renders with the revision, its prompt and the text of its last line are arguments. So is `range`,
-- which puts the entries of the map into the order in which a range over it takes them: Go leaves it
-- open, and each range has its own.
pub mod Ticks
use constellate.Common.{ℕ, Bool, true, false, Option, none, some, List, [], ◌∷◌, Word, get_elem?}
use constellate.Maps.{Text, Map, find}
use constellate.Vt.Emulator.State.{PromptState}
use constellate.Terminal.Activity.{Activity, compute_activity}
use constellate.Agent.Producer.{SessionScreen, SessionRev}
use constellate.Agent.Sessions.{Live, Manager, lookup, deref}

-- `SessionActivity`; a session without a screen has an empty activity.
pub record SessionActivity : Type 0 where
  pub id : Text
  pub activity : Option Activity
  pub pwd : Text

abbrev pub active_window_sec : Word
active_window_sec = 2

module _ {S : Type 0} where
  abbrev pub screen_of : Option (Live S) → Option S
  screen_of none = none
  screen_of (some l) = l.screen

  module _ (rev : S → ℕ) where
    unfoldable pub add_rev : Text → Option S → List SessionRev → List SessionRev
    add_rev id none rs = rs
    add_rev id (some s) rs = (id, rev s) ∷ rs

    unfoldable pub revs_of : List (Live S) → Map ℕ → List SessionRev
    revs_of h [] = []
    revs_of h ((id, r) ∷ m) = add_rev id (screen_of (get_elem? h r)) (revs_of h m)

    -- `RunningScreenRevs`
    unfoldable pub running_screen_revs : (Map ℕ → Map ℕ) → Manager S → List SessionRev
    running_screen_revs range m = revs_of m.heap (range m.sessions)

  module _ {G : Type 0} (render : S → G × ℕ) where
    unfoldable pub render_found : Text → Option S → Option (SessionScreen G)
    render_found id none = none
    render_found id (some s) =
        let (g, rev) = render s in some record { id = id; screen = g; rev = rev }

    -- `RenderScreen`
    unfoldable pub render_screen : Manager S → Text → Option (SessionScreen G)
    render_screen m id = render_found id (screen_of (lookup id m))

    unfoldable pub add_screen :
        Option (SessionScreen G) → List (SessionScreen G) → List (SessionScreen G)
    add_screen none ss = ss
    add_screen (some s) ss = s ∷ ss

    unfoldable pub screens_of : List (Live S) → Map ℕ → List (SessionScreen G)
    screens_of h [] = []
    screens_of h ((id, r) ∷ m) =
        add_screen (render_found id (screen_of (get_elem? h r))) (screens_of h m)

    -- `RunningScreens`
    unfoldable pub running_screens : (Map ℕ → Map ℕ) → Manager S → List (SessionScreen G)
    running_screens range m = screens_of m.heap (range m.sessions)

  module _ (prompt : S → PromptState) (tail : S → List ℕ) (question : List ℕ → Bool)
      (cwd : Word → Text) where
    unfoldable pub activity_of : Word → Word → Option S → Option Activity
    activity_of now last none = none
    activity_of now last (some s) =
        some (compute_activity now last active_window_sec (prompt s) (question (tail s)))

    unfoldable pub add_activity :
        Word → Text → Option (Live S) → List SessionActivity → List SessionActivity
    add_activity now id none as' = as'
    add_activity now id (some l) as' =
        record { id = id; activity = activity_of now l.last_output_at l.screen; pwd = cwd l.pid }
        ∷ as'

    unfoldable pub activities_of : Word → List (Live S) → Map ℕ → List SessionActivity
    activities_of now h [] = []
    activities_of now h ((id, r) ∷ m) = add_activity now id (get_elem? h r) (activities_of now h m)

    -- `Activities`, where `cwd` asks the process and answers the empty text where that fails.
    unfoldable pub activities : (Map ℕ → Map ℕ) → Word → Manager S → List SessionActivity
    activities range now m = activities_of now m.heap (range m.sessions)
