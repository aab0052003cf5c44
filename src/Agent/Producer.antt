-- ===== src/Agent/Producer.antt =====
-- internal/agent/app/snapshot/producer.go: the agent's snapshots, sent when a screen has changed.
-- The screens are a port: what `RunningScreenRevs` lists, and what `RenderScreen` answers for each
-- session, which has its own revision. The result of a send is only logged, so a tick gives the screens
-- that it sends, in order. The mutex is held from the loop to the end of a tick, and the enabled flag is
-- read before it.
pub mod Ticks
use constellate.Common.{
  ℕ, ◌==◌, Bool, true, false, not, ◌++◌, if◌then◌else◌, Option, none, some, List, [], ◌∷◌,
}
use constellate.Maps.{Text, same_text, Map, find, put, remove}

-- `SessionScreen` as far as the producer reads it, over the type of the screens.
pub record SessionScreen (S : Type 0) : Type 0 where
  pub id : Text
  pub screen : S
  pub rev : ℕ

-- `SessionRev`
abbrev pub SessionRev : Type 0
SessionRev = Text × ℕ

pub record Producer : Type 0 where
  pub enabled : Bool
  pub last_rev : Map ℕ

-- `New`
unfoldable pub new_producer : Producer
new_producer = record { enabled = false; last_rev = [] }

-- `SetEnabled`
unfoldable pub set_enabled : Bool → Producer → Producer
set_enabled true p = record { enabled = true; last_rev = [] }
set_enabled false p = record p { enabled = false }

-- `!seen || sr.Rev != last`
abbrev pub is_due : ℕ → Option ℕ → Bool
is_due rev none = true
is_due rev (some last) = not (rev == last)

unfoldable pub is_live : Text → List SessionRev → Bool
is_live id [] = false
is_live id ((j, rev) ∷ rs) = if same_text j id then true else is_live id rs

-- The revisions of sessions that are gone are dropped.
unfoldable pub prune : List SessionRev → Map ℕ → Map ℕ
prune rs [] = []
prune rs ((id, rev) ∷ m) = if is_live id rs then (id, rev) ∷ prune rs m else prune rs m

module _ {S : Type 0} where
  abbrev pub send_rendered :
      Text → Map ℕ → Option (SessionScreen S) → List (SessionScreen S) × Map ℕ
  send_rendered id m none = ([], m)
  send_rendered id m (some s) = (s ∷ [], put id s.rev m)

  -- One turn of the loop: what it sends, and the revisions behind it.
  unfoldable pub send_one :
      (Text → Option (SessionScreen S)) → SessionRev → Map ℕ → List (SessionScreen S) × Map ℕ
  send_one render (id, rev) m =
      if is_due rev (find id m) then send_rendered id m (render id) else ([], m)

  unfoldable pub send_all :
      (Text → Option (SessionScreen S)) → List SessionRev → Map ℕ → List (SessionScreen S) × Map ℕ
  send_all render [] m = ([], m)
  send_all render (r ∷ rs) m =
      let (sent, n) = send_one render r m in
      let (more, o) = send_all render rs n in (sent ++ more, o)

  -- `runOnce`
  unfoldable pub run_once :
      (Text → Option (SessionScreen S))
      → List SessionRev
      → Producer
      → List (SessionScreen S) × Producer
  run_once render revs p =
      let (sent, m) = send_all render revs p.last_rev in
      if p.enabled then (sent, record p { last_rev = prune revs m }) else ([], p)
