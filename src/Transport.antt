-- ===== src/Transport.antt =====
-- internal/transport: what the hub and an agent say to each other.
pub mod AgentToken
pub mod Codec
