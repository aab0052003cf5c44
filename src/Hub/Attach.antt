-- ===== src/Hub/Attach.antt =====
-- internal/hub/app/attach/usecase.go: the checks before a browser's stream is joined to an agent's.
-- The agent's answers are arguments, `none` where it gives a stream or takes the size.
use constellate.Common.{◌≡◌, refl, Option, none, some, ◌⊎◌, inl, inr, List, [], ◌∷◌}
use constellate.Maps.{Text}
use constellate.Hub.Session.{Session, Status, running, exited, lost, disconnected}
use constellate.Hub.Store.{Error, Store, by_id}

pub data AttachError : Type 0 where
  unknown_session : Error → AttachError
  ended : AttachError
  agent_error : Text → AttachError

-- What `OpenStream` does: the agents that it asks for a stream, the sessions whose attachment it
-- records, and the machine or an error.
pub record Attached : Type 0 where
  pub asked : List (Text × Text)
  pub recorded : List (Text × Text)
  pub answer : AttachError ⊎ Text

abbrev pub refuse : AttachError → Attached
refuse e = record { asked = []; recorded = []; answer = inl e }

unfoldable pub join : Session → Text → Option Text → Attached
join s id (some e) = record {
  asked = (s.machine_id, id) ∷ [];
  recorded = [];
  answer = inl (agent_error e);
}
join s id none = record {
  asked = (s.machine_id, id) ∷ [];
  recorded = (s.machine_id, id) ∷ [];
  answer = inr s.machine_id;
}

unfoldable pub join_if_live : Status → Session → Text → Option Text → Attached
join_if_live exited s id o = refuse ended
join_if_live lost s id o = refuse ended
join_if_live running s id o = join s id o
join_if_live disconnected s id o = join s id o

unfoldable pub open_found : Text → Option Text → Error ⊎ Session → Attached
open_found id o (inl e) = refuse (unknown_session e)
open_found id o (inr s) = join_if_live s.status s id o

-- `OpenStream`
unfoldable pub open_stream : Text → Option Text → Store → Attached
open_stream id o st = open_found id o (by_id id st)

-- What an answer goes with: the agent was asked for the stream that it gave, and the attachment is
-- recorded; with an error nothing is recorded.
abbrev pub GoesWith : Text → AttachError ⊎ Text → Attached → Type 0
GoesWith id (inl e) a = a.recorded ≡ []
GoesWith id (inr machine_id) a =
    (a.asked ≡ (machine_id, id) ∷ []) × (a.recorded ≡ (machine_id, id) ∷ [])

join_if_live-GoesWith :
    (st : Status) (s : Session) (id : Text) (o : Option Text)
    → GoesWith id (join_if_live st s id o).answer (join_if_live st s id o)
unfolding join_if_live join
join_if_live-GoesWith exited s id o = refl
join_if_live-GoesWith lost s id o = refl
join_if_live-GoesWith running s id none = (refl, refl)
join_if_live-GoesWith running s id (some e) = refl
join_if_live-GoesWith disconnected s id none = (refl, refl)
join_if_live-GoesWith disconnected s id (some e) = refl

pub open_stream-GoesWith :
    (id : Text) (o : Option Text) (st : Store)
    → GoesWith id (open_stream id o st).answer (open_stream id o st)
unfolding open_stream open_found
open_stream-GoesWith id o st = of_found (by_id id st)
  where
    of_found : (x : Error ⊎ Session) → GoesWith id (open_found id o x).answer (open_found id o x)
    of_found (inl e) = refl
    of_found (inr s) = join_if_live-GoesWith s.status s id o
