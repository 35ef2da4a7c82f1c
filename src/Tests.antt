-- ===== src/Tests.antt =====
-- Concrete runs, and the theorems at concrete inputs.
mod Grpc
mod Knst
mod Invite
mod Sort
mod Storage
mod Orchestrator
mod Streaming
mod Config
mod Client
mod Login
mod Screens
mod App
