-- ===== src/Store.antt =====
-- The package internal/store.
pub mod Gorm
pub mod Rows
pub mod Tables
pub mod Billing
pub mod Prices
pub mod Tenants
pub mod Lists
pub mod Providers
pub mod ApiKeys
pub mod Routing
pub mod Admins
pub mod Audit
pub mod Seed
mod Tests
