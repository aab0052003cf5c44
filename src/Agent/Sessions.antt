-- ===== src/Agent/Sessions.antt =====
-- internal/agent/app/session/manager.go: the sessions that run on an agent. The map of the manager
-- holds pointers, and the goroutine of a session keeps its own, so that the live sessions are a
-- heap and a pointer is a place in it. What runs without the mutex is cut where other goroutines
-- may come between; each part is a function. The pseudo-terminals and the screens are ports: what
-- they do or answer is an argument.
pub mod Flush
pub mod Races
pub mod Valid
pub mod Views
use constellate.Common.{
  ℕ, zero, suc, ◌+◌, Bool, true, false, if◌then◌else◌, Option, none, some, List, [], ◌∷◌, ◌++◌,
  Word, length, get_elem?, set,
}
use constellate.Maps.{Text, Map, find, put, remove}
use constellate.Terminal.Scrollback.{Bytes, Scrollback, new, new_with_data, write, close, snapshot}
use constellate.Agent.Archive.{
  Disk, System, SaveError, save, Loaded, loaded, bad_id, unreadable, load, DeleteError, delete,
}

-- `liveSession`, over the type of the screens
pub record Live (S : Type 0) : Type 0 where
  pub pid : Word
  pub sb : Scrollback
  pub screen : Option S
  pub last_output_at : Word
  pub dirty : Bool

-- `Manager`; the archive is `none` where persistence is disabled.
pub record Manager (S : Type 0) : Type 0 where
  pub scrollback_bytes : Word
  pub sessions : Map ℕ
  pub heap : List (Live S)
  pub archive : Option Disk
  pub cap : ℕ

-- "\r\n──── session restored after restart ────\r\n"
abbrev pub dashes : Bytes
dashes = 0xe2 ∷ 0x94 ∷ 0x80 ∷ 0xe2 ∷ 0x94 ∷ 0x80 ∷ 0xe2 ∷ 0x94 ∷ 0x80 ∷ 0xe2 ∷ 0x94 ∷ 0x80 ∷ []

abbrev pub separator : Bytes
separator =
    13
    ∷ 10
    ∷ (dashes
        ++ (32 ∷ b's' ∷ b'e' ∷ b's' ∷ b's' ∷ b'i' ∷ b'o' ∷ b'n' ∷ 32 ∷ b'r' ∷ b'e' ∷ b's' ∷ b't'
              ∷ b'o' ∷ b'r' ∷ b'e' ∷ b'd' ∷ 32 ∷ b'a' ∷ b'f' ∷ b't' ∷ b'e' ∷ b'r' ∷ 32 ∷ b'r' ∷ b'e'
              ∷ b's' ∷ b't' ∷ b'a' ∷ b'r' ∷ b't' ∷ 32 ∷ []
            ++ (dashes ++ (13 ∷ 10 ∷ []))))

-- The restored scrollback of `Open`, from what the archive has.
unfoldable pub restored : Word → Bytes → Scrollback
restored max [] = new max
restored max (b ∷ prior) = write separator (new_with_data max (b ∷ prior))

-- An archive that cannot be read is logged and counts as none.
unfoldable pub prior_of : Loaded → Bytes
prior_of (loaded p) = p
prior_of bad_id = []
prior_of unreadable = []

-- The scrollback of `Open`; `reads` says whether the file can be read.
unfoldable pub open_scrollback : Bool → Word → Text → Option Disk → Scrollback
open_scrollback reads max id none = new max
open_scrollback reads max id (some d) = restored max (prior_of (load reads id d))

unfoldable pub nonempty : Bytes → Option Bytes
nonempty [] = none
nonempty (b ∷ p) = some (b ∷ p)

abbrev pub is_some : {A : Type 0} → Option A → Bool
is_some none = false
is_some (some a) = true

unfoldable pub delete_archive : Bool → Text → Option Disk → Option Disk
delete_archive removes id none = none
delete_archive removes id (some d) = some (delete removes id d).1

pub data SessionError : Type 0 where
  already_exists : SessionError
  not_found : SessionError
  pty_failed : SessionError

module _ {S : Type 0} where
  -- `NewManager`
  unfoldable pub new_manager : Word → Option Disk → ℕ → Manager S
  new_manager bytes a cap = record {
    scrollback_bytes = bytes;
    sessions = [];
    heap = [];
    archive = a;
    cap = cap;
  }

  -- The first part of `Open`, under the mutex: whether the identifier is taken.
  unfoldable pub is_taken : Text → Manager S → Bool
  is_taken id m = is_some (find id m.sessions)

  -- The last part of `Open`, under the mutex, behind the load of the scrollback and the factory.
  unfoldable pub register : Text → Scrollback → Word → Option S → Manager S → Manager S
  register id sb pid screen m = record m {
    sessions = put id (length m.heap) m.sessions;
    heap =
        m.heap
        ++ (record { pid = pid; sb = sb; screen = screen; last_output_at = 0; dirty = false } ∷ []);
  }

  -- The middle and the last part of `Open`, where the factory gives a process or fails.
  unfoldable pub open_rest :
      Bool → Text → Option Word → Option S → Manager S → Option SessionError × Manager S
  open_rest reads id none screen m = (some pty_failed, m)
  open_rest reads id (some pid) screen m =
      (none, register id (open_scrollback reads m.scrollback_bytes id m.archive) pid screen m)

  -- `Open`, where nothing comes between its parts
  unfoldable pub open_session :
      Bool → Text → Option Word → Option S → Manager S → Option SessionError × Manager S
  open_session reads id pty screen m =
      if is_taken id m then (some already_exists, m) else open_rest reads id pty screen m

  abbrev pub deref : Option ℕ → List (Live S) → Option (Live S)
  deref none h = none
  deref (some r) h = get_elem? h r

  -- `lookup`
  unfoldable pub lookup : Text → Manager S → Option (Live S)
  lookup id m = deref (find id m.sessions) m.heap

  -- A change of the live session at a place.
  unfoldable pub update_at : ℕ → (Live S → Live S) → List (Live S) → List (Live S)
  update_at r f [] = []
  update_at zero f (l ∷ ls) = f l ∷ ls
  update_at (suc r) f (l ∷ ls) = l ∷ update_at r f ls

  unfoldable pub map_screen : (S → S) → Option S → Option S
  map_screen f none = none
  map_screen f (some s) = some (f s)

  -- `readPump`: one chunk, where `draw` is the screen's `Write`. An empty read does nothing.
  unfoldable pub pump : (Bytes → S → S) → Word → Bytes → Live S → Live S
  pump draw now [] l = l
  pump draw now (b ∷ p) l = record l {
    sb = write (b ∷ p) l.sb;
    screen = map_screen (draw (b ∷ p)) l.screen;
    last_output_at = now;
    dirty = true;
  }

  unfoldable pub pump_chunk : (Bytes → S → S) → Word → ℕ → Bytes → Manager S → Manager S
  pump_chunk draw now r p m = record m { heap = update_at r (pump draw now p) m.heap }

  unfoldable pub close_live : Live S → Live S
  close_live l = record l { sb = close l.sb }

  -- `readPump` behind the wait for the process: the scrollback is closed, and then, under the mutex,
  -- the identifier is deleted.
  unfoldable pub pump_close : ℕ → Manager S → Manager S
  pump_close r m = record m { heap = update_at r close_live m.heap }

  unfoldable pub pump_forget : Text → Manager S → Manager S
  pump_forget id m = record m { sessions = remove id m.sessions }

  -- Both, where nothing comes between them.
  unfoldable pub pump_exit : Text → ℕ → Manager S → Manager S
  pump_exit id r m = pump_forget id (pump_close r m)

  -- `Close`: the process is told to end, which the goroutine of the session then sees.
  unfoldable pub close_found :
      Bool → Text → Option (Live S) → Manager S → Option SessionError × Manager S
  close_found removes id none m = (some not_found, m)
  close_found removes id (some l) m =
      (none, record m { archive = delete_archive removes id m.archive })

  unfoldable pub close_session : Bool → Text → Manager S → Option SessionError × Manager S
  close_session removes id m = close_found removes id (lookup id m) m

  -- `Resize`, where `fit` is the screen's
  unfoldable pub resize_live : (S → S) → Live S → Live S
  resize_live fit l = record l { screen = map_screen fit l.screen }

  unfoldable pub resize_found : (S → S) → Option ℕ → Manager S → Option SessionError × Manager S
  resize_found fit none m = (some not_found, m)
  resize_found fit (some r) m = (none, record m { heap = update_at r (resize_live fit) m.heap })

  unfoldable pub resize : (S → S) → Text → Manager S → Option SessionError × Manager S
  resize fit id m = resize_found fit (find id m.sessions) m

  unfoldable pub clean : Live S → Live S
  clean l = record l { dirty = false }

  -- What follows a `Save` that was made for the session at `r`.
  unfoldable pub saved : ℕ → Option SaveError × Disk → Manager S → Manager S
  saved r (some e, d) m = record m { archive = some d }
  saved r (none, d) m = record m { archive = some d; heap = update_at r clean m.heap }

  -- The second part of one turn of a flush: the bytes that the first part took are saved.
  unfoldable pub save_taken : System → Text → ℕ → Bytes → Option Disk → Manager S → Manager S
  save_taken s id r p none m = m
  save_taken s id r p (some d) m = saved r (save s m.cap id p d) m

  -- The first part: the bytes of a session, if there are any.
  unfoldable pub take_bytes : Option (Live S) → Option Bytes
  take_bytes none = none
  take_bytes (some l) = nonempty (snapshot l.sb)

  unfoldable pub save_bytes : System → Text → ℕ → Option Bytes → Manager S → Manager S
  save_bytes s id r none m = m
  save_bytes s id r (some p) m = save_taken s id r p m.archive m

  -- One turn of the loop of `FlushAll`, where nothing comes between its parts.
  unfoldable pub flush_one : System → Text → ℕ → Manager S → Manager S
  flush_one s id r m = save_bytes s id r (take_bytes (get_elem? m.heap r)) m

  -- The loop, over the sessions as they were listed; the system answers for each its own.
  unfoldable pub flush_listed : (Text → System) → Map ℕ → Manager S → Manager S
  flush_listed s [] m = m
  flush_listed s ((id, r) ∷ rs) m = flush_listed s rs (flush_one (s id) id r m)

  unfoldable pub flush_archived : (Text → System) → Option Disk → Manager S → Manager S
  flush_archived s none m = m
  flush_archived s (some d) m = flush_listed s m.sessions m

  -- `FlushAll`
  unfoldable pub flush_all : (Text → System) → Manager S → Manager S
  flush_all s m = flush_archived s m.archive m

  abbrev pub is_dirty : Option (Live S) → Bool
  is_dirty none = false
  is_dirty (some l) = l.dirty

  -- `flushDirty`
  unfoldable pub flush_dirty_one : System → Text → ℕ → Manager S → Manager S
  flush_dirty_one s id r m = if is_dirty (get_elem? m.heap r) then flush_one s id r m else m

  unfoldable pub flush_dirty : (Text → System) → Map ℕ → Manager S → Manager S
  flush_dirty s [] m = m
  flush_dirty s ((id, r) ∷ rs) m = flush_dirty s rs (flush_dirty_one (s id) id r m)

  abbrev pub pid_of : Option (Live S) → Option Word
  pid_of none = none
  pid_of (some l) = some l.pid

  -- `Sessions`
  unfoldable pub session_infos : List (Live S) → Map ℕ → List (Text × Option Word)
  session_infos h [] = []
  session_infos h ((id, r) ∷ rs) = (id, pid_of (get_elem? h r)) ∷ session_infos h rs
