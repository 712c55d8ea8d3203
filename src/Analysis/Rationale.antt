-- ===== src/Analysis/Rationale.antt =====
-- The text that explains a finding, and the data it is made from
-- (backend/app/engines/analysis/findings: `generate_rationale` of attribution.py, and errors.py).
-- Scores and features are exact, finite hundredths: the rounding of other floats, and the
-- OverflowError of `int` on an infinite feature, are outside the model.
pub mod Values
use net_sleuth_ai.Shared.{
  ℕ, ◌/◌, String, Bool, true, false, not, ◌&&◌, ◌||◌, Option, none, some, List, [], ◌∷◌, ◌++◌, map,
  ◌==◌, ltb, if◌then◌else◌, any, is_empty, elem, lookup, Dict, concat, join, decimal, two_places,
  one_place, Result, ok, err, raise_if, ◌>>=◌, ◌>>◌,
}
use net_sleuth_ai.Correlation.Domain.{
  Timestamp, Flow, ProtocolEvent, Artifact, NetworkIntelligencePackage, EvidenceReference, Finding,
  FindingsPackage,
}
use net_sleuth_ai.Correlation.Investigation.Context.{first_of, last_of}
use net_sleuth_ai.Analysis.Decision.{DecisionState, benign}

pub data FindingsError : Type 0 where
  missing_source_package : FindingsError
  fabricated_flow fabricated_event fabricated_artifact : String → FindingsError
  feature_without_value mixed_time_zones : FindingsError

-- `as_numeric_dict()`: a feature may have no numeric value.
pub record FeatureVector : Type 0 where
  pub acquisition_id : String
  pub features : Dict (Option ℕ)

pub record AnalysisDecisionResult : Type 0 where
  pub anomaly_score : ℕ
  pub anomaly_detected : Bool
  pub predicted_activity : String
  pub confidence : ℕ
  pub risk_score : ℕ
  pub decision_state : DecisionState

-- One test of a feature: `if value > limit: signals.append(text)`.
pub record Signal : Type 0 where
  pub name : String
  pub limit : ℕ
  pub text : ℕ → List String

abbrev pub high_ips : Signal
high_ips = record {
  name = "unique_destination_ips";
  limit = 500;
  text = λ n. "high unique destination count (" ∷ decimal (n / 100) ∷ ")" ∷ [];
}

abbrev pub high_ports : Signal
high_ports = record {
  name = "unique_destination_ports";
  limit = 500;
  text = λ n. "high unique destination-port count (" ∷ decimal (n / 100) ∷ ")" ∷ [];
}

abbrev pub high_failed : Signal
high_failed = record {
  name = "failed_connection_ratio";
  limit = 30;
  text = λ n. "high failed-connection ratio (" ∷ two_places n ∷ ")" ∷ [];
}

abbrev pub high_rate : Signal
high_rate = record {
  name = "flow_rate_per_sec";
  limit = 500;
  text = λ n. "elevated connection rate (" ∷ one_place n ∷ "/s)" ∷ [];
}

abbrev pub high_dns : Signal
high_dns = record {
  name = "dns_query_count";
  limit = 1000;
  text = λ n. "elevated DNS query volume (" ∷ decimal (n / 100) ∷ ")" ∷ [];
}

abbrev pub high_http : Signal
high_http = record {
  name = "http_request_count";
  limit = 1000;
  text = λ n. "elevated HTTP request volume (" ∷ decimal (n / 100) ∷ ")" ∷ [];
}

-- A value against the limit; a comparison with None raises. A feature that is not there is 0, which
-- no limit is below.
pub compared : Signal → Option (Option ℕ) → Result FindingsError (List String)
compared s none = ok []
compared s (some none) = err feature_without_value
compared s (some (some n)) = ok (if ltb s.limit n then concat (s.text n) ∷ [] else [])

abbrev pub signal : Signal → Dict (Option ℕ) → Result FindingsError (List String)
signal s features = compared s (lookup s.name features)

pub signals : Dict (Option ℕ) → Result FindingsError (List String)
unfolding compared
signals features = do
  ips ← signal high_ips features
  ports ← signal high_ports features
  failed ← signal high_failed features
  rate ← signal high_rate features
  dns ← signal high_dns features
  http ← signal high_http features
  ok (ips ++ (ports ++ (failed ++ (rate ++ (dns ++ http)))))

-- The text that `generate_rationale` returns for its signals.
abbrev pub rationale_of : String → AnalysisDecisionResult → List String → String
rationale_of activity decision found =
    let shown = if is_empty found then "elevated behavioral anomaly score" ∷ [] else found in
    concat (
      "Observed behavioral pattern for "
      ∷ activity
      ∷ " supported by measurable signals: "
      ∷ join ", " shown
      ∷ " (anomaly score: "
      ∷ two_places decision.anomaly_score
      ∷ ", confidence: "
      ∷ two_places decision.confidence
      ∷ ")"
      ∷ [])

-- On features that are finite hundredths. A rate that is halfway between two tenths is rounded to the
-- even one, where Python rounds the float that is nearest to it.
unfoldable pub generate_rationale :
    String → AnalysisDecisionResult → Dict (Option ℕ) → Result FindingsError String
unfolding signals
generate_rationale activity decision features =
    signals features >>= λ found. ok (rationale_of activity decision found)
