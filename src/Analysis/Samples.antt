-- ===== src/Analysis/Samples.antt =====
-- A decision of M2 and its features (backend/app/engines/analysis) that tests share.
use net_sleuth_ai.Shared.{String, true, some, [], ◌∷◌}
use net_sleuth_ai.Analysis.Decision.{high_confidence_activity}
use net_sleuth_ai.Analysis.Rationale.{FeatureVector, AnalysisDecisionResult}

abbrev pub vector : FeatureVector
vector = record {
  acquisition_id = "acq";
  features = ("dns_query_count", some 4200) ∷ ("flow_rate_per_sec", some 725) ∷ [];
}

abbrev pub decision : AnalysisDecisionResult
decision = record {
  anomaly_score = 62;
  anomaly_detected = true;
  predicted_activity = "DNS_ANOMALY_TUNNELING";
  confidence = 90;
  risk_score = 70;
  decision_state = high_confidence_activity;
}

-- The rationale of the finding.
abbrev pub rationale : String
rationale =
    "Observed behavioral pattern for DNS_ANOMALY_TUNNELING supported by measurable signals: elevated connection rate (7.2/s), elevated DNS query volume (42) (anomaly score: 0.62, confidence: 0.90)"
