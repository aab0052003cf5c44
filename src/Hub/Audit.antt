-- ===== src/Hub/Audit.antt =====
-- internal/hub/domain/audit/event.go, the use case of internal/hub/app/audit/usecase.go, and the
-- store of internal/hub/adapter/secondary/memory/audit_store.go. The actor of a context is an
-- argument: `none` where the context has none. The accessors are the fields.
pub mod Newest
use constellate.Common.{
  ℕ, zero, suc, ◌-◌, Option, none, some, List, [], ◌∷◌, ◌++◌, Word, ltb, if◌then◌else◌, length,
  ◌>>=◌, get_elem?,
}
use constellate.Maps.{Text}

pub record Event : Type 0 where
  pub ts : Word
  pub actor : Text
  pub action : Text
  pub machine_id : Text
  pub session_id : Text
  pub detail : Text

-- "operator"
abbrev pub operator : Text
operator = b'o' ∷ b'p' ∷ b'e' ∷ b'r' ∷ b'a' ∷ b't' ∷ b'o' ∷ b'r' ∷ []

-- `ActorFromContext`
unfoldable pub actor_of : Option Text → Text
actor_of none = operator
actor_of (some []) = operator
actor_of (some (c ∷ cs)) = c ∷ cs

-- `Append`
unfoldable pub append : Event → List Event → List Event
append e es = es ++ (e ∷ [])

-- The loop of `List`: `i` events are left, of which the first is `es[n - i]` from the end. `none` is
-- an index out of range, a negative one included.
unfoldable pub list_from : ℕ → ℕ → List Event → Option (List Event)
list_from n zero es = some []
list_from zero (suc i) es = none
list_from (suc n) (suc i) es =
    let rest = list_from n i es in get_elem? es n >>= λ e. rest >>= λ out. some (e ∷ out)

-- `List`; the limit is not negative.
unfoldable pub list : ℕ → List Event → Option (List Event)
list limit es = let n = length es in list_from n (if ltb n limit then n else limit) es

-- `Record`, over the store of this package, whose `Append` cannot fail
unfoldable pub record_event :
    Word → Option Text → Text → Text → Text → Text → List Event → List Event
record_event now actor action machine_id session_id detail es =
    append
      record {
        ts = now;
        actor = actor_of actor;
        action = action;
        machine_id = machine_id;
        session_id = session_id;
        detail = detail;
      }
      es
