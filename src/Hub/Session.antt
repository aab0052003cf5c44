-- ===== src/Hub/Session.antt =====
-- internal/hub/domain/session/session.go and status.go: the metadata of a terminal session.
-- A Go string is the list of its bytes; the accessors are the fields.
unfoldable pub use constellate.Maps.{same_text}
pub use constellate.Maps.{Text}
use constellate.Common.{Bool, true, false, [], ◌∷◌, Word}

-- The type `Status`, of whose strings only these four constants are ever stored.
pub data Status : Type 0 where
  running : Status
  exited : Status
  lost : Status
  disconnected : Status

pub record Session : Type 0 where
  pub id : Text
  pub project_id : Text
  pub machine_id : Text
  pub title : Text
  pub shell : Text
  pub cwd : Text
  pub status : Status
  pub exit_code : Word
  pub auto_relaunch : Bool
  pub created_at : Word
  pub last_active_at : Word
  pub activity : Text
  pub pwd : Text

-- `New`
unfoldable pub new_session : Text → Text → Text → Text → Text → Text → Word → Session
new_session id machine_id project_id title shell cwd created_at = record {
  id = id;
  project_id = project_id;
  machine_id = machine_id;
  title = title;
  shell = shell;
  cwd = cwd;
  status = running;
  exit_code = 0;
  auto_relaunch = false;
  created_at = created_at;
  last_active_at = created_at;
  activity = [];
  pwd = [];
}

unfoldable pub set_status : Status → Session → Session
set_status st s = record s { status = st }

unfoldable pub set_exited : Word → Word → Session → Session
set_exited code ts s = record s { status = exited; exit_code = code; last_active_at = ts }

unfoldable pub touch : Word → Session → Session
touch ts s = record s { last_active_at = ts }

unfoldable pub set_title : Text → Session → Session
set_title t s = record s { title = t }

unfoldable pub set_activity : Text → Session → Session
set_activity a s = record s { activity = a }

unfoldable pub set_pwd : Text → Session → Session
set_pwd p s = record s { pwd = p }

unfoldable pub set_auto_relaunch : Bool → Session → Session
set_auto_relaunch v s = record s { auto_relaunch = v }

unfoldable pub is_running : Session → Bool
is_running s = is_running_status s.status
  where
    is_running_status : Status → Bool
    is_running_status running = true
    is_running_status _ = false

unfoldable pub is_disconnected : Session → Bool
is_disconnected s = is_disconnected_status s.status
  where
    is_disconnected_status : Status → Bool
    is_disconnected_status disconnected = true
    is_disconnected_status _ = false

-- "active", "idle", "awaiting-input" and "unknown"
abbrev pub activity_active : Text
activity_active = b'a' ∷ b'c' ∷ b't' ∷ b'i' ∷ b'v' ∷ b'e' ∷ []

abbrev pub activity_idle : Text
activity_idle = b'i' ∷ b'd' ∷ b'l' ∷ b'e' ∷ []

abbrev pub activity_awaiting_input : Text
activity_awaiting_input =
    b'a' ∷ b'w' ∷ b'a' ∷ b'i' ∷ b't' ∷ b'i' ∷ b'n' ∷ b'g' ∷ b'-' ∷ b'i' ∷ b'n' ∷ b'p' ∷ b'u' ∷ b't'
    ∷ []

abbrev pub activity_unknown : Text
activity_unknown = b'u' ∷ b'n' ∷ b'k' ∷ b'n' ∷ b'o' ∷ b'w' ∷ b'n' ∷ []
