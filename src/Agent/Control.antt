-- ===== src/Agent/Control.antt =====
-- internal/agent/adapter/primary/hubclient/control.go: what an agent does with a message of the hub,
-- over the manager of its sessions and the producer of its snapshots. A message is what its JSON
-- stands for, or `garbled`. What the process, the disk and the screen answer is an argument.
use constellate.Common.{Bool, if◌then◌else◌, Option, none, some, Word, [], ◌∷◌}
use constellate.Maps.{Text}
use constellate.Agent.Producer.{Producer, set_enabled}
use constellate.Agent.Sessions.{
  Manager, SessionError, already_exists, not_found, pty_failed, open_session, resize, close_session,
}

pub data Message : Type 0 where
  open_session_msg : Text → Message
  resize_msg : Text → Message
  close_session_msg : Text → Message
  enable_snaps : Bool → Message
  error_msg : Message
  garbled : Message
  other : Message

pub data Reply : Type 0 where
  session_opened : Text → Word → Reply
  error_reply : Text → Text → Reply

-- What the ports answer; `missing` says whether the factory's error is `ErrCwdNotFound`.
pub record Answers (S : Type 0) : Type 0 where
  pub pty : Option Word
  pub missing : Bool
  pub reads : Bool
  pub removes : Bool
  pub screen : Option S
  pub fit : S → S

-- `toggle` is nil until it is set.
pub record Agent (S : Type 0) : Type 0 where
  pub manager : Manager S
  pub toggle : Option Producer

-- "open_failed" and "cwd_not_found"
abbrev pub open_failed : Text
open_failed = b'o' ∷ b'p' ∷ b'e' ∷ b'n' ∷ b'_' ∷ b'f' ∷ b'a' ∷ b'i' ∷ b'l' ∷ b'e' ∷ b'd' ∷ []

abbrev pub cwd_not_found : Text
cwd_not_found =
    b'c' ∷ b'w' ∷ b'd' ∷ b'_' ∷ b'n' ∷ b'o' ∷ b't' ∷ b'_' ∷ b'f' ∷ b'o' ∷ b'u' ∷ b'n' ∷ b'd' ∷ []

unfoldable pub code_of : Bool → SessionError → Text
code_of missing pty_failed = if missing then cwd_not_found else open_failed
code_of missing already_exists = open_failed
code_of missing not_found = open_failed

-- An open without an error has a process.
abbrev pub pid_of : Option Word → Word
pid_of none = 0
pid_of (some pid) = pid

unfoldable pub reply_of : Text → Option Word → Bool → Option SessionError → Reply
reply_of id pty missing none = session_opened id (pid_of pty)
reply_of id pty missing (some e) = error_reply id (code_of missing e)

unfoldable pub toggled : Bool → Option Producer → Option Producer
toggled enabled none = none
toggled enabled (some p) = some (set_enabled enabled p)

-- `handleControlFrame`: the reply that it sends, if any, and the agent behind it.
unfoldable pub handle_control_frame :
    {S : Type 0} → Message → Answers S → Agent S → Option Reply × Agent S
handle_control_frame (open_session_msg id) w a =
    let (e, m) = open_session w.reads id w.pty w.screen a.manager in
    (some (reply_of id w.pty w.missing e), record a { manager = m })
handle_control_frame (resize_msg id) w a =
    (none, record a { manager = (resize w.fit id a.manager).1 })
handle_control_frame (close_session_msg id) w a =
    (none, record a { manager = (close_session w.removes id a.manager).1 })
handle_control_frame (enable_snaps enabled) w a =
    (none, record a { toggle = toggled enabled a.toggle })
handle_control_frame error_msg w a = (none, a)
handle_control_frame garbled w a = (none, a)
handle_control_frame other w a = (none, a)
