-- ===== src/Correlation/Mitre/Mapper/Telemetry.antt =====
-- Which techniques `MitreMapper._evaluate_technique` maps, and what it needs for them.
use net_sleuth_ai.Shared.{
  String, Bool, true, not, ◌&&◌, ◌||◌, ◌==◌, ◌≡◌, ◌≢◌, refl, arith, ==-exclusive,
}
use net_sleuth_ai.Correlation.Domain.{Finding, TelemetryCapability}
use net_sleuth_ai.Correlation.Mitre.{MappingStatus}
use net_sleuth_ai.Correlation.Mitre.Mapper.{
  evaluate_c2, evaluate_exfiltration, evaluate_web, evaluate_technique, is_mapped,
  or_not_applicable,
}

abbrev is_c2_evidenced : TelemetryCapability → String → Bool
is_c2_evidenced t technique =
    technique == "T1071.001" && (t.http || t.tls)
    || technique == "T1071.004" && t.dns
    || technique == "T1095" && not (t.http || t.tls || t.dns)

-- The technique is one of the behavior's and the telemetry shows what it needs.
abbrev pub is_evidenced : TelemetryCapability → String → String → Bool
is_evidenced t behavior technique =
    behavior == "C2_MALWARE_COMMUNICATION" && is_c2_evidenced t technique
    || behavior == "DNS_ANOMALY_TUNNELING" && technique == "T1071.004" && t.dns
    || behavior == "SCANNING_RECONNAISSANCE" && technique == "T1046" && t.network_flow
    || behavior == "POSSIBLE_EXFILTRATION" && technique == "T1041" && t.network_flow
    || behavior == "SUSPICIOUS_WEB_ACTIVITY" && technique == "T1071.001" && t.http

evaluate_c2-is_c2_evidenced :
    (t : TelemetryCapability) (technique : String)
    → is_mapped (or_not_applicable (evaluate_c2 t technique)).0 ≡ is_c2_evidenced t technique
unfolding evaluate_c2
evaluate_c2-is_c2_evidenced t technique =
    let x = ==-exclusive technique in
    ground (
      arith,
      x "T1071.001" "T1071.004" refl,
      x "T1071.001" "T1095" refl,
      x "T1071.004" "T1095" refl,
    )

is_mapped-evaluate_exfiltration :
    (t : TelemetryCapability) (f : Finding)
    → is_mapped (evaluate_exfiltration t f).0 ≡ t.network_flow
unfolding evaluate_exfiltration
is_mapped-evaluate_exfiltration t f = ground arith

is_mapped-evaluate_web :
    (t : TelemetryCapability) (f : Finding) → is_mapped (evaluate_web t f).0 ≡ t.http
unfolding evaluate_web
is_mapped-evaluate_web t f = ground arith

-- A technique is mapped if and only if it is one of the behavior's and the telemetry shows what it
-- needs: HTTP or TLS for web command-and-control, DNS for DNS, none of the three for the
-- non-application layer, flows for scanning and exfiltration, HTTP for suspicious web activity.
pub evaluate_technique-is_evidenced :
    (t : TelemetryCapability) (f : Finding) (behavior technique : String)
    → is_mapped (evaluate_technique t f behavior technique).0 ≡ is_evidenced t behavior technique
unfolding evaluate_technique
evaluate_technique-is_evidenced t f behavior technique =
    let b = ==-exclusive behavior in
    ground (
      arith,
      evaluate_c2-is_c2_evidenced t technique,
      is_mapped-evaluate_exfiltration t f,
      is_mapped-evaluate_web t f,
      b "C2_MALWARE_COMMUNICATION" "DNS_ANOMALY_TUNNELING" refl,
      b "C2_MALWARE_COMMUNICATION" "SCANNING_RECONNAISSANCE" refl,
      b "C2_MALWARE_COMMUNICATION" "POSSIBLE_EXFILTRATION" refl,
      b "C2_MALWARE_COMMUNICATION" "SUSPICIOUS_WEB_ACTIVITY" refl,
      b "DNS_ANOMALY_TUNNELING" "SCANNING_RECONNAISSANCE" refl,
      b "DNS_ANOMALY_TUNNELING" "POSSIBLE_EXFILTRATION" refl,
      b "DNS_ANOMALY_TUNNELING" "SUSPICIOUS_WEB_ACTIVITY" refl,
      b "SCANNING_RECONNAISSANCE" "POSSIBLE_EXFILTRATION" refl,
      b "SCANNING_RECONNAISSANCE" "SUSPICIOUS_WEB_ACTIVITY" refl,
      b "POSSIBLE_EXFILTRATION" "SUSPICIOUS_WEB_ACTIVITY" refl,
    )

-- The two techniques that network evidence alone never establishes.
abbrev pub is_network_only : String → Bool
is_network_only technique = technique == "T1046" || technique == "T1041"

-- Scanning and exfiltration are never mapped as SUPPORTED.
pub evaluate_technique-is_not_supported :
    (t : TelemetryCapability) (f : Finding) (behavior technique : String)
    → is_network_only technique ≡ true
    → (evaluate_technique t f behavior technique).0 ≢ MappingStatus.supported
unfolding evaluate_technique evaluate_c2 evaluate_exfiltration evaluate_web
evaluate_technique-is_not_supported t f behavior technique n h =
    let x = ==-exclusive technique in
    ground (
      arith,
      x "T1046" "T1071.001" refl,
      x "T1046" "T1071.004" refl,
      x "T1046" "T1095" refl,
      x "T1041" "T1071.001" refl,
      x "T1041" "T1071.004" refl,
      x "T1041" "T1095" refl,
    )
