-- ===== src/Analysis/Decision.antt =====
-- The states of a decision of M2 (backend/app/engines/analysis/decision/result.py).
pub data DecisionState : Type 0 where
  benign anomalous suspicious_activity high_confidence_activity : DecisionState
