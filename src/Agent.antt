-- ===== src/Agent.antt =====
-- internal/agent: what an agent sends to the hub besides the output of its sessions.
pub mod Archive
pub mod Control
pub mod Encode
pub mod Producer
pub mod Sessions
