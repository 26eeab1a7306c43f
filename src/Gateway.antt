-- ===== src/Gateway.antt =====
-- The package internal/gateway.
pub mod Types
pub mod Limiter
pub mod RedisLimiter
pub mod IpFilter
pub mod Pick
pub mod Keys
pub mod Schedule
pub mod Rules
pub mod Select
pub mod Snapshot
pub mod Health
pub mod Forward
pub mod Auth
pub mod Admit
pub mod Proxy
pub mod Compat
pub mod Models
pub mod Messages
pub mod Admin
mod Fixtures
mod Tests
