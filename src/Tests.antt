-- ===== src/Tests.antt =====
-- Concrete inputs, and the theorems applied to them.
mod Data
mod Core
mod Client
mod Stream
mod Tls
mod Sessions
mod Handlers
mod Outbox
mod Commands
mod Network
mod Storage
mod Access
mod Wire
mod Agent
mod Router
mod Tunnels
mod Runs
