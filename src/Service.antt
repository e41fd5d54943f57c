-- ===== src/Service.antt =====
-- internal/broker/service.go: the checks on a configuration that its operations rest on.
pub mod Upstreams
pub mod Validate
pub mod Groups
pub mod Client
pub mod Create
pub mod Settings
pub mod App
mod Tests
