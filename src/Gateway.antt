-- ===== src/Gateway.antt =====
-- crates/hackline-gateway/src: the gateway.
pub mod Error
pub mod Sql
pub mod Schema
pub mod Page
pub mod Ring
pub mod Metrics
pub mod Fanin
pub mod Liveliness
pub mod Claim
pub mod Middleware
pub mod HttpRouter
pub mod Tunnels
pub mod Stream
pub mod Session
pub mod ApiCall
pub mod AuditView
pub mod Health
pub mod Tls
pub mod TlsConfig
pub mod Manager
pub mod RttCache
pub mod Users
pub mod UserCalls
pub mod DeviceCalls
pub mod Scope
pub mod Audit
pub mod Commands
pub mod Delivery
pub mod Orgs
pub mod Devices
pub mod Events
pub mod Logs
pub mod Outbox
