-- ===== src/Vt.antt =====
-- internal/agent/adapter/secondary/vt: the terminal emulator that follows each session's output.
pub mod Screen
pub mod Parser
pub mod Sgr
pub mod Utf8
pub mod Emulator
