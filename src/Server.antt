-- ===== src/Server.antt =====
-- internal/server: the handlers of the RPC service.
pub mod Messages
pub mod Backend
pub mod Outcomes
pub mod Modules
pub mod Dependencies
pub mod Config
pub mod Connection
pub mod Health
pub mod Rpc
pub mod Start
pub mod Samples
