-- ===== src/Correlation/Investigation.antt =====
-- The investigation engines of M3 (backend/app/engines/correlation/investigation).
pub mod Context
pub mod Generator
pub mod Rules
pub mod Validator
pub mod RootCauses
pub mod Impacts
pub mod Pipeline
mod Examples
