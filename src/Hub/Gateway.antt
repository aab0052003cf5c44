-- ===== src/Hub/Gateway.antt =====
-- internal/hub/adapter/secondary/agentlink/gateway.go and the calls of registry.go that pair the
-- replies of an agent with the opens that wait for them. A channel is a place in a list, with the
-- one result that its buffer can hold. Which case of the `select` of `OpenSession` is taken, and
-- whether a message can be sent, are arguments.
pub mod Replies
use constellate.Common.{
  ℕ, zero, suc, ◌≡◌, Bool, true, false, if◌then◌else◌, Option, none, some, List, [], ◌∷◌, ◌++◌,
  ◌>>=◌, Word, length, get_elem?, set,
}
use constellate.Maps.{Text, Map, find, put, remove}

-- `openResult`; an error of the agent has a code.
pub data OpenResult : Type 0 where
  opened : Word → OpenResult
  failed : Text → OpenResult

-- What a `Conn` holds for the opens: `pending`, and the channels that were ever made.
pub record Link : Type 0 where
  pub pending : Map ℕ
  pub channels : List (Option OpenResult)

-- `awaitOpen`
unfoldable pub await_open : Text → Link → ℕ × Link
await_open id l = (
  length l.channels,
  record l { pending = put id (length l.channels) l.pending; channels = l.channels ++ (none ∷ []) },
)

-- `cancelOpen`
unfoldable pub cancel_open : Text → Link → Link
cancel_open id l = record l { pending = remove id l.pending }

-- A send to a channel with a buffer of one: `none` is a send that blocks.
unfoldable pub send : ℕ → OpenResult → Option (Option OpenResult) → Link → Option Link
send ch r none l = none
send ch r (some none) l = some (record l { channels = set l.channels ch (some r) })
send ch r (some (some q)) l = none

unfoldable pub resolve_found : Text → OpenResult → Option ℕ → Link → Option Link
resolve_found id r none l = some l
resolve_found id r (some ch) l = send ch r (get_elem? l.channels ch) (cancel_open id l)

-- `ResolveOpen`
unfoldable pub resolve_open : Text → OpenResult → Link → Option Link
resolve_open id r l = resolve_found id r (find id l.pending) l

-- A receive: what the buffer holds, if anything.
unfoldable pub take_result : Option (Option OpenResult) → Option OpenResult
take_result none = none
take_result (some o) = o

unfoldable pub receive : ℕ → Link → Option OpenResult × Link
receive ch l =
    (take_result (get_elem? l.channels ch), record l { channels = set l.channels ch none })

-- `OpenSession` before the `select`; `sent` says whether the message could be sent.
unfoldable pub start_open : Bool → Text → Link → Option ℕ × Link
start_open sent id l =
    let (ch, m) = await_open id l in if sent then (some ch, m) else (none, cancel_open id m)

-- `SetSnapshotsEnabled`: the agents that the message is sent to, of those that are listed; `get` is
-- the registry's, and a failed send is only logged.
unfoldable pub enable_snaps : {C : Type 0} → (Text → Option C) → List Text → List C
enable_snaps get [] = []
enable_snaps get (id ∷ ids) = add_conn (get id) (enable_snaps get ids)
  where
    add_conn : {C : Type 0} → Option C → List C → List C
    add_conn none cs = cs
    add_conn (some c) cs = c ∷ cs
