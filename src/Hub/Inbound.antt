-- ===== src/Hub/Inbound.antt =====
-- internal/hub/adapter/primary/wsagent/inbound.go: what the hub does with the messages of an agent
-- behind its Hello, over the registry of machines, the sessions, the opens that wait on the
-- connection and the overview, which are all there. A message is what its JSON stands for, or
-- `garbled`; a heartbeat counts before it is decoded. `none` is a loop that blocks.
pub mod Hello
pub mod Rounds
use constellate.Common.{
  ℕ, Bool, true, false, ◌&&◌, if◌then◌else◌, Option, none, some, List, [], ◌∷◌, Word, ◌>>=◌,
}
use constellate.Maps.{Text, Map, find, is_empty}
use constellate.Hub.Machines.{heartbeat}
use constellate.Hub.UseCase.{World, mark_exited, record_stat}
use constellate.Hub.Presence.{Presence}
use constellate.Hub.Overview.{Overview, drop_session}
use constellate.Hub.Gateway.{OpenResult, opened, failed, Link, resolve_open}

-- `SessionStat`
pub record Stat : Type 0 where
  pub id : Text
  pub activity : Text
  pub pwd : Text

-- `Heartbeat`, over the type of the metrics
pub record Beat (M : Type 0) : Type 0 where
  pub metrics : Option M
  pub stats : List Stat

pub data Inbound (M : Type 0) : Type 0 where
  beats : Option (Beat M) → Inbound M
  session_opened : Text → Word → Inbound M
  error_msg : Text → Text → Inbound M
  session_exited : Text → Word → Inbound M
  garbled : Inbound M
  other : Inbound M

-- What the loop changes. A connection has the metrics that were set last, which come first.
pub record Side (G M : Type 0) : Type 0 where
  pub presence : Presence G
  pub link : Link
  pub overview : Overview
  pub metrics : List (ℕ × M)

-- `UpdateMetrics`: of the connection that the machine has now.
unfoldable pub set_metrics : {M : Type 0} → Option ℕ → M → List (ℕ × M) → List (ℕ × M)
set_metrics none x ms = ms
set_metrics (some c) x ms = (c, x) ∷ ms

unfoldable pub record_stats : {G : Type 0} → Word → List Stat → World G → World G
record_stats now [] w = w
record_stats now (st ∷ sts) w = record_stats now sts (
    if is_empty st.activity && is_empty st.pwd
    then w
    else (record_stat st.id st.activity st.pwd now w).1)

module _ {G M : Type 0} where
  unfoldable pub update_metrics : Text → Option M → Side G M → Side G M
  update_metrics machine_id none s = s
  update_metrics machine_id (some x) s = record s {
    metrics = set_metrics (find machine_id s.presence.links) x s.metrics;
  }

  abbrev pub with_hub : (World G → World G) → Side G M → Side G M
  with_hub f s = record s { presence = record s.presence { hub = f s.presence.hub } }

  unfoldable pub take_beat : Text → Word → Option (Beat M) → Side G M → Side G M
  take_beat machine_id now none s = s
  take_beat machine_id now (some b) s =
      with_hub (record_stats now b.stats) (update_metrics machine_id b.metrics s)

  unfoldable pub beat : Text → Word → Side G M → Side G M
  beat machine_id now s = record s {
    presence = record s.presence { machines = (heartbeat machine_id now s.presence.machines).1 };
  }

  unfoldable pub resolve : Text → OpenResult → Side G M → Option (Side G M)
  resolve id r s = resolve_open id r s.link >>= λ l. some (record s { link = l })

  -- One turn of the loop of `handleControl`.
  unfoldable pub handle_frame : Text → Word → Inbound M → Side G M → Option (Side G M)
  handle_frame machine_id now (beats b) s =
      some (take_beat machine_id now b (beat machine_id now s))
  handle_frame machine_id now (session_opened id pid) s = resolve id (opened pid) s
  handle_frame machine_id now (error_msg id code) s =
      if is_empty id then some s else resolve id (failed code) s
  handle_frame machine_id now (session_exited id code) s =
      some (record (with_hub (λ w. (mark_exited id code now w).1) s) {
        overview = drop_session id s.overview;
      })
  handle_frame machine_id now garbled s = some s
  handle_frame machine_id now other s = some s

  unfoldable pub handle_frames : Text → List (Word × Inbound M) → Side G M → Option (Side G M)
  handle_frames machine_id [] s = some s
  handle_frames machine_id ((now, f) ∷ fs) s =
      handle_frame machine_id now f s >>= λ t. handle_frames machine_id fs t
