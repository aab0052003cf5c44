-- ===== src/Vt/Emulator.antt =====
-- internal/agent/adapter/secondary/vt/emulator.go: the `Emulator` and the actions that move it.
-- `e.cur` always points at the primary or the alternate screen as `useAlt` says, so it is the
-- function `cur`. Every method runs under the mutex `mu` from its first line to its last.
pub mod State
pub mod Csi
pub mod View
pub mod Write
