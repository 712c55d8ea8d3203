-- ===== src/Reporting.antt =====
-- The evidence records of the reporting engine, M4 (backend/app/engines/reporting).
pub mod Custody
pub mod Integrity
mod Examples
