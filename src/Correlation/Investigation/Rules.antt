-- ===== src/Correlation/Investigation/Rules.antt =====
-- The rules of `HypothesisValidator.validate` (backend/app/engines/correlation/investigation/
-- hypothesis_validator.py): the evidence that a hypothesis matches, and the verdict that the rule of
-- its type gives on it. Ports are told apart by their decimal text.
pub mod Signals
pub mod Sources
use net_sleuth_ai.Shared.{
  ℕ, ◌+◌, ◌-◌, ◌*◌, min, String, Bool, true, false, not, ◌&&◌, ◌||◌, Option, none, some, List, [],
  ◌∷◌, ◌++◌, map, ◌==◌, if◌then◌else◌, ltb, leb, eqb, any, select, elem, is_empty, length, lookup,
  member, concat, join, decimal, lower, prefix, sorted, set_of,
}
use net_sleuth_ai.Correlation.Domain.{Timestamp, Flow, ProtocolEvent, EvidenceIndex}
use net_sleuth_ai.Correlation.Investigation.Context.{
  ValidationStatus, validated, rejected, inconclusive, Hypothesis, HypothesisValidation,
  TimelineEvent, latest,
}

-- The identifier with what the index holds for it, if it holds something.
unfoldable pub keep {ℓ} : {A : Type ℓ} → String → Option A → List (String × A) → List (String × A)
keep i none rest = rest
keep i (some a) rest = (i, a) ∷ rest

-- The two lists that the loop over `supporting_evidence_ids` fills.
unfoldable pub matched_flows : EvidenceIndex → List String → List (String × Flow)
unfolding keep
matched_flows index [] = []
matched_flows index (i ∷ ids) = keep i (lookup i index.flows) (matched_flows index ids)

unfoldable pub matched_events : EvidenceIndex → List String → List (String × ProtocolEvent)
unfolding keep
matched_events index [] = []
matched_events index (i ∷ ids) =
    let rest = matched_events index ids in
    if member i index.flows then rest else keep i (lookup i index.events) rest

-- The local variables of the loop's body.
pub record Verdict : Type 0 where
  pub status : ValidationStatus
  pub supporting : List String
  pub contradicting : List String
  pub supporting_reasons : List String
  pub contradicting_reasons : List String
  pub missing_evidence : List String

abbrev pub undecided : Verdict
undecided = record {
  status = inconclusive;
  supporting = [];
  contradicting = [];
  supporting_reasons = [];
  contradicting_reasons = [];
  missing_evidence = [];
}

abbrev pub found_by : List String → String → Verdict
found_by ids reason = record undecided {
  status = validated;
  supporting = ids;
  supporting_reasons = reason ∷ [];
}

abbrev pub lacking : String → Verdict
lacking what = record undecided { missing_evidence = what ∷ [] }

abbrev pub refuted_by : List String → String → Verdict
refuted_by ids reason = record undecided {
  status = rejected;
  contradicting = ids;
  contradicting_reasons = reason ∷ [];
}

abbrev pub ids_of {ℓ} : {A : Type ℓ} → List (String × A) → List String
ids_of = map (λ p. p.0)

abbrev text_or : String → Option String → String
text_or d none = d
text_or d (some s) = s

abbrev was_rejected : String × Flow → Bool
was_rejected p = text_or "" p.1.connection_state == "REJ"

unfoldable pub c2_verdict : List (String × Flow) → List (String × ProtocolEvent) → Verdict
c2_verdict flows events =
    if leb 2 (length flows) || leb 2 (length events) || leb 2 (length flows + length events)
    then found_by (set_of (ids_of events ++ ids_of flows))
        "Observed multiple supporting network events or flows for C2 communication."
    else if any was_rejected flows
    then refuted_by (set_of (ids_of (select was_rejected flows)))
        "C2 connection attempts were explicitly rejected by the network."
    else if eqb (length flows) 1 || eqb (length events) 1
    then lacking "Requires more than one distinct network signal for confirmation."
    else lacking "Insufficient evidence to validate C2 communication."

abbrev is_dns : String × ProtocolEvent → Bool
is_dns p = lower p.1.protocol == "dns"

pub dns_verdict : List (String × ProtocolEvent) → Verdict
dns_verdict events =
    let dns_events = select is_dns events in
    if is_empty dns_events
    then lacking "Missing explicit DNS protocol events."
    else found_by (set_of (ids_of dns_events))
        "Observed actual DNS query evidence corresponding to anomalous behavior."

-- An address or port that is empty or 0 is not counted.
abbrev destinations : List (String × Flow) → List String
destinations flows = select (λ ip. not (ip == "")) (map (λ p. p.1.destination.ip) flows)

abbrev ports : List (String × Flow) → List String
ports flows = map decimal (select (λ n. not (eqb n 0)) (map (λ p. p.1.destination.port) flows))

pub recon_verdict : List (String × Flow) → Verdict
recon_verdict flows =
    let targets = length (set_of (destinations flows)) in
    let services = length (set_of (ports flows)) in
    if ltb 1 targets || ltb 1 services
    then found_by (set_of (ids_of flows)) (
        concat (
          "Observed reconnaissance-like pattern involving "
          ∷ decimal targets
          ∷ " distinct destinations and "
          ∷ decimal services
          ∷ " distinct ports."
          ∷ []))
    else lacking "Requires connections to multiple targets or ports to validate scanning."

abbrev bytes_out : Option ℕ → ℕ
bytes_out none = 0
bytes_out (some n) = n

abbrev is_outbound : String × Flow → Bool
is_outbound p = ltb 0 (bytes_out p.1.orig_bytes)

pub exfiltration_verdict : List (String × Flow) → Verdict
exfiltration_verdict flows =
    let outbound_flows = ids_of (select is_outbound flows) in
    if is_empty outbound_flows
    then lacking "No outbound data transfer observed in network flows."
    else record (found_by (set_of outbound_flows)
        "Network flow evidence shows outbound data transfer.") {
          missing_evidence =
              "Endpoint process telemetry unavailable to confirm actual data theft." ∷ [];
        }

abbrev is_web : String × ProtocolEvent → Bool
is_web p = lower p.1.protocol == "http" || lower p.1.protocol == "tls"

pub web_verdict : List (String × ProtocolEvent) → Verdict
web_verdict events =
    let http_events = select is_web events in
    if is_empty http_events
    then lacking "No HTTP or TLS events present in evidence index."
    else found_by (set_of (ids_of http_events))
        "Suspicious HTTP/TLS events directly support the hypothesis."

unfoldable pub unknown_verdict : String → Verdict
unknown_verdict type = refuted_by [] (concat ("Unrecognized hypothesis type: " ∷ type ∷ []))

-- The `if` chain on the type of the hypothesis.
unfoldable pub verdict : String → List (String × Flow) → List (String × ProtocolEvent) → Verdict
verdict type flows events =
    if type == "C2_COMMUNICATION"
    then c2_verdict flows events
    else if type == "DNS_C2"
    then dns_verdict events
    else if type == "NETWORK_RECONNAISSANCE"
    then recon_verdict flows
    else if type == "POTENTIAL_EXFILTRATION"
    then exfiltration_verdict flows
    else if type == "SUSPICIOUS_WEB_ACTIVITY"
    then web_verdict events
    else unknown_verdict type
