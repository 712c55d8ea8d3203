-- ===== src/Analysis.antt =====
-- The analysis engine M2 (backend/app/engines/analysis): the states of its decisions and its findings.
pub mod Decision
pub mod Rationale
pub mod Findings
pub mod Samples
