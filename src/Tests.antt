-- ===== src/Tests.antt =====
-- The theorems at concrete inputs, by part of the program.
mod Access
mod Agent
mod Board
mod Codec
mod Enrolled
mod Fleet
mod Hub
mod Sessions
mod Terminal
mod Vt
