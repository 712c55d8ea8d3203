-- ===== src/Correlation/CaseBuilder.antt =====
-- `InvestigationCaseBuilder` (backend/app/engines/correlation/investigation/case_builder.py).
pub mod Document
pub mod Entries
pub mod Assessed
pub mod AttackChain
pub mod Build
mod Examples
