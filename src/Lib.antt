-- ===== src/Lib.antt =====
-- Constellate runs terminal sessions on many machines and shows them in a browser. An agent on
-- each machine keeps the sessions' processes: their output goes into a scrollback, for readers that
-- attach, and through a terminal emulator, whose screen the overview shows. The hub keeps what is
-- known of every session, and moves it through its life as agents connect, drop and restart. It enrols
-- machines, authenticates their agents and the operator, and passes snapshots on to the browsers.
--
-- Parts and files:
--   Common                     shared names, Boolean tests, Go slices as lists, Go's `int` as a word
--   Vt.Parser                  internal/agent/adapter/secondary/vt/parser.go: `feedByte`, `handleC0`,
--                              `parseParams` and the builders, one function for each state
--   Vt.Sgr                     vt/sgr.go: `applySGR`, `parseExtendedColor`
--   Vt.Screen                  vt/emulator.go: the type `screen` and all that changes one screen
--   Vt.Utf8                    vt/emulator.go: `utf8RuneLen`, and the documented behaviour of
--                              `utf8.DecodeRune` of Go's standard library
--   Vt.Emulator                vt/emulator.go: State has the type `Emulator`, its two screens and the
--                              operations on it, Csi `dispatchCSI` and `dispatchESC`, Write `Write`
--                              with `feedUTF8`, View `Render` and `TailText`
--   Terminal.Scrollback        internal/agent/domain/terminal/scrollback.go
--   Terminal.Activity          internal/agent/domain/terminal/activity.go: `ComputeActivity`,
--                              and `TailLooksLikeQuestion`
--   Strings                    the trimming functions of Go's package `strings`
--   Maps                       Go's strings and maps
--   Transport.AgentToken       internal/transport/auth.go
--   Transport.Codec            internal/transport/codec.go, and the type `Frame` of frame.go
--   Hub.Session                internal/hub/domain/session/session.go and status.go
--   Hub.Store                  internal/hub/adapter/secondary/memory/session_store.go
--   Hub.UseCase                internal/hub/app/sessions/usecase.go
--   Agent.Encode               internal/agent/adapter/primary/hubclient/snapshot_encode.go
--   Agent.Producer             internal/agent/app/snapshot/producer.go
--   Agent.Archive              internal/agent/adapter/secondary/scrollbackfile/archive.go
--   Agent.Sessions             internal/agent/app/session/manager.go, with its reports in Views
--   Agent.Control              internal/agent/adapter/primary/hubclient/control.go
--   Hub.Attach                 internal/hub/app/attach/usecase.go: `OpenStream`
--   Hub.Inbound                the checks of the Hello and the loop of `handleControl`, with
--                              internal/transport/protocol.go
--   Hub.Audit                  internal/hub/domain/audit/event.go, memory/audit_store.go,
--                              internal/hub/app/audit/usecase.go
--   Hub.Projects               internal/hub/domain/project/project.go, memory/project_store.go,
--                              internal/hub/app/projects/usecase.go
--   Hub.Dashboard              internal/hub/app/dashboard/usecase.go
--   Hub.Gateway                internal/hub/adapter/secondary/agentlink/gateway.go, and the opens that
--                              wait in registry.go
--   Hub.Overview               internal/hub/app/overview/overview.go
--   Hub.Machines               internal/hub/domain/machine/machine.go, memory/machine_store.go of
--                              internal/hub/adapter/secondary, internal/hub/app/registry/usecase.go
--   Hub.Enroll                 internal/hub/app/enroll/usecase.go, memory/enroll_token_store.go
--   Hub.Presence               internal/hub/adapter/secondary/agentlink/registry.go, and the start and
--                              the end of `handleControl` of
--                              internal/hub/adapter/primary/wsagent/inbound.go
--   Hub.Auth                   internal/hub/app/auth/usecase.go; Stores has memory/operator_store.go,
--                              operator_session_store.go and challenge_store.go, Passkeys the
--                              WebAuthn ceremonies
--   Hub.RateLimit              internal/hub/adapter/primary/httpapi/ratelimit.go
--   Tests                      the theorems at concrete inputs
--
-- State is passed explicitly. The emulator's `cur`, a pointer to one of its two screens, is read off
-- the flag `use_alt`, with which the source always sets it. A Go function that can panic returns an
-- Option, and `none` is the panic: every index and slice of the emulator is checked as Go checks it.
-- An `int` is a natural number below 2 ^ 64, its bit pattern, with wrapping sums and differences and
-- the signed order. Screens are smaller than 2 ^ 32 in both directions.
--
-- `feedUTF8` is recursion on the bytes, and the loop of `Write` runs on fuel, the number of bytes,
-- which is enough since each turn consumes one or more.
--
-- The store's map is an association list in any order. The agents are a parameter, the answers that
-- they give and the state that they keep; the clock, new ids and random names are arguments. Every
-- method of the scrollback and the store holds a mutex for its whole body, so it is one step, and a
-- blocked reader is a sequence of turns of its loop.
--
-- Where the hub lets a lock go within an operation, the operation is the composition of its parts,
-- and the parts are also definitions, so that two operations can be interleaved. Cryptography, base64,
-- JSON, one-time passwords and WebAuthn are parameters, with what their documentation says as
-- hypotheses. Random values are arguments, `none` where the source of random bytes fails.
--
-- A range over a map takes its entries in an order that Go leaves open. Where two reports of an agent
-- are compared, each has its order as an argument; other ranges take the order of the list.
--
-- The live sessions of an agent are a heap, to which the manager's map and the goroutines point. The
-- archive is a directory, a map from names to files; each call of the operating system is an argument
-- that says whether it succeeds.
--
-- Not modelled: the JSON of the messages, the copying of an attachment; SQL, HTTP, WebSocket
-- and process adapters; logging; the web front end.
pub mod Agent
pub mod Common
pub mod Hub
pub mod Maps
pub mod Strings
pub mod Terminal
pub mod Tests
pub mod Transport
pub mod Vt
