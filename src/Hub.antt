-- ===== src/Hub.antt =====
-- internal/hub: the side that the browser and the agents connect to.
pub mod Attach
pub mod Audit
pub mod Auth
pub mod Dashboard
pub mod Enroll
pub mod Gateway
pub mod Inbound
pub mod Machines
pub mod Overview
pub mod Presence
pub mod Projects
pub mod RateLimit
pub mod Session
pub mod Store
pub mod UseCase
