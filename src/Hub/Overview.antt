-- ===== src/Hub/Overview.antt =====
-- internal/hub/app/overview/overview.go: the fan-out of snapshots to the browsers that watch.
-- A subscriber is a pointer, so a number; whether a send to it succeeds is a parameter. The mutex
-- `mu` is let go between the parts of `ReceiveSnapshot` and `Subscribe`, so each part is a step of
-- its own, and `controlMu` makes `applyGate` one step. A snapshot, of numbers and strings, can always
-- be marshalled.
pub mod Gate
pub mod Subscribers
use constellate.Common.{
  ℕ, suc, ◌-◌, ◌==◌, Bool, true, false, not, ltb, length, if◌then◌else◌, List, [], ◌∷◌,
}
use constellate.Maps.{Text, Map, put, remove}

-- `Snapshot`, but for the fields that only the browser reads.
pub record Snapshot : Type 0 where
  pub session_id : Text
  pub rev : ℕ

pub record Overview : Type 0 where
  pub latest : Map Snapshot
  pub subs : List ℕ
  pub viewers : ℕ
  pub last_enabled : Bool
  -- the calls of `SetSnapshotsEnabled`, the last one first
  pub calls : List Bool

-- `New`
unfoldable pub new_overview : Overview
new_overview = record { latest = []; subs = []; viewers = 0; last_enabled = false; calls = [] }

unfoldable pub has : ℕ → List ℕ → Bool
has s [] = false
has s (t ∷ ts) = if s == t then true else has s ts

-- `delete(u.subs, sub)`
unfoldable pub drop_sub : ℕ → List ℕ → List ℕ
drop_sub s [] = []
drop_sub s (t ∷ ts) = if s == t then drop_sub s ts else t ∷ drop_sub s ts

-- `u.subs[sub] = struct{}{}`
unfoldable pub add_sub : ℕ → List ℕ → List ℕ
add_sub s ts = if has s ts then ts else s ∷ ts

unfoldable pub drop_all : List ℕ → List ℕ → List ℕ
drop_all [] ts = ts
drop_all (s ∷ ss) ts = drop_all ss (drop_sub s ts)

-- `SnapshotsEnabled`
unfoldable pub snapshots_enabled : Overview → Bool
snapshots_enabled u = ltb 0 u.viewers

same_bool : Bool → Bool → Bool
same_bool true b = b
same_bool false b = not b

-- `applyGate`
unfoldable pub apply_gate : Overview → Overview
unfolding same_bool
apply_gate u =
    if same_bool (snapshots_enabled u) u.last_enabled
    then u
    else record u { last_enabled = snapshots_enabled u; calls = snapshots_enabled u ∷ u.calls }

-- The first part of `ReceiveSnapshot`, which also copies the subscribers.
unfoldable pub keep_latest : Snapshot → Overview → Overview
keep_latest s u = record u { latest = put s.session_id s u.latest }

-- `u.viewers -= n`, and no less than 0
unfoldable pub fewer_viewers : ℕ → Overview → Overview
fewer_viewers n u = record u { viewers = u.viewers - n }

-- The part of `ReceiveSnapshot` behind its sends, before the gate: those that failed are dropped.
unfoldable pub drop_failed : List ℕ → Overview → Overview
drop_failed failed u = fewer_viewers (length failed) (record u { subs = drop_all failed u.subs })

unfoldable pub failed_of : (ℕ → Bool) → List ℕ → List ℕ
failed_of sends [] = []
failed_of sends (s ∷ ss) = if sends s then failed_of sends ss else s ∷ failed_of sends ss

-- `ReceiveSnapshot` behind its copy of the subscribers.
unfoldable pub after_sends : List ℕ → Overview → Overview
after_sends [] u = u
after_sends (s ∷ ss) u = apply_gate (drop_failed (s ∷ ss) u)

-- `ReceiveSnapshot` that no other call overlaps.
unfoldable pub receive_snapshot : (ℕ → Bool) → Snapshot → Overview → Overview
receive_snapshot sends s u = after_sends (failed_of sends u.subs) (keep_latest s u)

-- The first part of `Subscribe`.
unfoldable pub add_viewer : ℕ → Overview → Overview
add_viewer s u = record u { subs = add_sub s u.subs; viewers = suc u.viewers }

-- `Subscribe` behind its gate: the cached snapshots are sent until a send fails.
unfoldable pub after_replay : ℕ → Bool → Overview → Overview
after_replay s sent u =
    if sent then u else apply_gate (fewer_viewers 1 (record u { subs = drop_sub s u.subs }))

-- `Subscribe` that no other call overlaps; with no cached snapshot nothing is sent.
unfoldable pub subscribe : (ℕ → Bool) → ℕ → Overview → Overview
subscribe sends s u =
    after_replay s (if ltb 0 (length u.latest) then sends s else true) (apply_gate (add_viewer s u))

-- `Unsubscribe`
unfoldable pub unsubscribe : ℕ → Overview → Overview
unsubscribe s u =
    if has s u.subs then apply_gate (fewer_viewers 1 (record u { subs = drop_sub s u.subs })) else u

-- `DropSession`
unfoldable pub drop_session : Text → Overview → Overview
drop_session id u = record u { latest = remove id u.latest }
