-- ===== src/Terminal.antt =====
-- internal/agent/domain/terminal: the agent's view of one terminal session.
pub mod Activity
pub mod Scrollback
