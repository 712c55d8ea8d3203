-- ===== src/Cases.antt =====
-- Investigation cases: `CaseService` (backend/app/services/case_service.py).
pub mod Service
pub mod Graph
pub mod Transitions
mod Examples
