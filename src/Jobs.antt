-- ===== src/Jobs.antt =====
-- Analysis jobs: `AnalysisRepository` (backend/app/persistence/repositories/analysis_repository.py)
-- and `AnalysisOrchestratorService` (backend/app/services/analysis_orchestrator.py).
pub mod Table
pub mod Service
pub mod Runs
mod Examples
