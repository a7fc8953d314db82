-- ===== src/Frontend.antt =====
-- The web frontend: src/frontend/src.
pub mod Money
pub mod CardOrder
pub mod Transactions
pub mod Auth
pub mod StatusDisplay
pub mod FeatureFlags
pub mod Forms
pub mod Queries
pub mod Cache
pub mod Versions
pub mod Prices
pub mod Routes
pub mod Shell
pub mod Tables
pub mod Formatter
pub mod Services
pub mod Instrument
pub mod Tour
pub mod Env
