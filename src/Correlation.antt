-- ===== src/Correlation.antt =====
-- The M3 correlation engine (backend/app/engines/correlation).
pub mod Domain
pub mod Samples
pub mod Input
pub mod Investigation
pub mod Mitre
pub mod Entities
pub mod Rules
pub mod Observations
pub mod Timeline
pub mod CaseBuilder
pub mod Assembly
