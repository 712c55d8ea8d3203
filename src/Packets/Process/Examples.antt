-- ===== src/Packets/Process/Examples.antt =====
-- A capture of one flow and one query, from the logs of Zeek to the case.
use net_sleuth_ai.Shared.{
  String, Bool, true, false, none, List, [], ◌∷◌, All, ◌==◌, ◌≡◌, ◌⊎◌, refl, arith, Result, ok, err,
  decimal, concat, join, lookup, insert, strip, prefix, before_suffix, sort_by, place,
}
use net_sleuth_ai.Correlation.Domain.{domain, ip, NetworkIntelligencePackage, FindingsPackage}
use net_sleuth_ai.Correlation.Samples.{at, snapshot}
use net_sleuth_ai.Correlation.CaseBuilder.Document.{CaseDocument}
use net_sleuth_ai.Correlation.CaseBuilder.Build.{invalid_document}
use net_sleuth_ai.Correlation.CaseBuilder.Build.Acceptance.{is_schema_valid}
use net_sleuth_ai.Correlation.Assembly.{not_built, m3_phase}
use net_sleuth_ai.Analysis.Findings.{generate}
use net_sleuth_ai.Analysis.Findings.Generation.{package_of, finding_of}
use net_sleuth_ai.Analysis.Samples.{vector, decision, rationale}
use net_sleuth_ai.Packets.Json.{get, has, float_of, int_of, str_of, from_timestamp}
use net_sleuth_ai.Packets.Zeek.{timeout, controlled, ZeekRunnerResult, Entry, raw, malformed, read}
use net_sleuth_ai.Packets.Runner.{
  timed_out, Host, check_docker_env, get_zeek_version, is_under, check_resolved,
  validate_input_path, execute, run_zeek,
}
use net_sleuth_ai.Packets.Runner.Guard.{IsAllowed, run_zeek-IsAllowed}
use net_sleuth_ai.Packets.Adapters.{
  adapter_error, on_bad_value, parse_or_none, parse_string, time_of, find_flow, known_flow,
  find_parent, event_of,
}
use net_sleuth_ai.Packets.Adapters.Conn.{
  lacks_required, is_port, required_of, optionals_of, flow_of, convert_conn,
}
use net_sleuth_ai.Packets.Adapters.Dns.{listed_answers, separated, answers_of, convert_dns}
use net_sleuth_ai.Packets.Artifacts.{
  of_field, of_answers, extracts, build_artifact, build_all, extract, validate_artifact_provenance,
}
use net_sleuth_ai.Packets.Process.{
  Failure, zeek_failed, check_all, add_flow, first_step, first_pass, convert_event, check_artifact,
  add_event, second_step, second_pass, check_flow, check_event_references,
  check_artifact_references, assemble_package, process_entries, process_acquisition,
}
use net_sleuth_ai.Packets.Process.Flows.{IsExternal}
use net_sleuth_ai.Packets.Process.Assembly.{IsAssembled}
use net_sleuth_ai.Packets.Process.Outcome.{
  process_acquisition-IsAssembled, process_acquisition-IsExternal,
}
use net_sleuth_ai.Packets.Process.Refusals.{IsReadable}
use net_sleuth_ai.Packets.Process.Record.{IsRecordOf, process_acquisition-IsRecordOf}
use net_sleuth_ai.Packets.Process.Answer.{process_acquisition-returns}
use net_sleuth_ai.Packets.Process.Pipeline.{m3_phase-process_acquisition}
use net_sleuth_ai.Packets.Samples.{
  flow, event, unary, unary-IsSupply, python, loads, host, conn_line, dns_line,
}

abbrev is_address : String → Bool
is_address s = s == "203.0.113.9"

abbrev processed : Host → Result Failure NetworkIntelligencePackage
processed h = process_acquisition python false is_address unary loads h "acq" "a.pcap"

abbrev package_here : NetworkIntelligencePackage
package_here = record {
  package_id = "uuuuuu";
  acquisition_id = "acq";
  flows = flow ∷ [];
  protocol_events = event ∷ [];
  artifacts =
      build_artifact is_address "uuuu" event (domain, "evil.example")
      ∷ build_artifact is_address "uuuuu" event (ip, "203.0.113.9")
      ∷ [];
}

process_run : processed host ≡ ok package_here
unfolding process_acquisition run_zeek check_docker_env get_zeek_version validate_input_path
    check_resolved is_under execute read process_entries first_pass first_step add_flow second_pass
    second_step add_event convert_event check_artifact check_all check_flow check_event_references
    check_artifact_references assemble_package extract build_all build_artifact extracts of_field
    of_answers validate_artifact_provenance convert_conn required_of optionals_of flow_of
    lacks_required is_port convert_dns listed_answers separated answers_of adapter_error
    on_bad_value parse_or_none parse_string time_of find_flow known_flow find_parent event_of get
    has float_of int_of str_of from_timestamp lookup insert strip prefix before_suffix sort_by place
    unary
process_run = refl

process_acquisition-IsAssembled_example : IsAssembled "acq" package_here
process_acquisition-IsAssembled_example =
    process_acquisition-IsAssembled python false is_address unary unary-IsSupply loads host "acq"
      "a.pcap" package_here process_run

abbrev slow_host : Host
slow_host = record host { execution = timed_out }

slow_run : processed slow_host ≡ err (zeek_failed (controlled timeout))
unfolding process_acquisition run_zeek check_docker_env get_zeek_version validate_input_path
    check_resolved is_under execute
slow_run = refl

process_acquisition-IsExternal_example : IsExternal (zeek_failed (controlled timeout))
process_acquisition-IsExternal_example =
    process_acquisition-IsExternal python false is_address unary unary-IsSupply loads slow_host
      "acq" "a.pcap" (zeek_failed (controlled timeout)) slow_run

abbrev result : ZeekRunnerResult
result = record {
  acquisition_id = "acq";
  output_directory = host.output_directory;
  generated_logs = "conn.log" ∷ "dns.log" ∷ [];
}

zeek_run : run_zeek host "acq" "a.pcap" ≡ ok result
unfolding run_zeek check_docker_env get_zeek_version validate_input_path check_resolved is_under
    execute sort_by place
zeek_run = refl

run_zeek-IsAllowed_example : IsAllowed host "a.pcap" × (result.acquisition_id ≡ "acq")
run_zeek-IsAllowed_example = run_zeek-IsAllowed host "acq" "a.pcap" result zeek_run

abbrev findings : FindingsPackage
findings =
    package_of true "0A1B" "2C3D" package_here vector decision
      (finding_of true "0A1B" "2C3D" package_here vector decision rationale ∷ [])

generated : generate true "0A1B" "2C3D" package_here vector decision ≡ ok findings
unfolding generate concat decimal join lookup build_artifact
generated = refl

m3_phase-process_acquisition_example :
    ((doc : CaseDocument) × (is_schema_valid (λ t. "2023-11-14T22:13:20+00:00") (λ s doc. true) doc
        ≡ false)
      × (m3_phase
            (λ s. s)
            (λ ip. false)
            (at 99)
            snapshot
            (λ t. "2023-11-14T22:13:20+00:00")
            (λ s doc. true)
            none
            package_here
            findings
          ≡ err (not_built invalid_document)))
    ⊎ ((doc : CaseDocument) × (m3_phase
            (λ s. s)
            (λ ip. false)
            (at 99)
            snapshot
            (λ t. "2023-11-14T22:13:20+00:00")
            (λ s doc. true)
            none
            package_here
            findings
          ≡ ok doc))
m3_phase-process_acquisition_example =
    m3_phase-process_acquisition python false is_address unary unary-IsSupply loads host "acq"
      "a.pcap" package_here process_run true "0A1B" "2C3D" vector decision findings generated
      (λ s. s) (λ ip. false) (at 99) snapshot (λ t. "2023-11-14T22:13:20+00:00") (λ s doc. true)
      none ((refl, refl), tt) (omega arith) refl refl

abbrev entries : List Entry
entries =
    raw (record {
      acquisition_id = "acq";
      source_log = "conn.log";
      log_type = "conn";
      fields = conn_line;
      line_number = 2;
    })
    ∷ malformed (record {
      acquisition_id = "acq";
      source_log = "conn.log";
      line_number = 3;
      error_type = "JSON_DECODE_ERROR";
      raw_line = "{";
    })
    ∷ raw (record {
      acquisition_id = "acq";
      source_log = "dns.log";
      log_type = "dns";
      fields = dns_line;
      line_number = 1;
    })
    ∷ []

read_run : read loads result ≡ ok entries
unfolding read strip prefix before_suffix lookup
read_run = refl

readable : All (IsReadable python) entries
unfolding get time_of float_of from_timestamp
readable = (
  record {
    uid = refl;
    ts = λ h. cc;
    numbers = (refl, (refl, (refl, (refl, (refl, (refl, (refl, (refl, (refl, tt)))))))));
  },
  (
    tt,
    (
      record {
        uid = refl;
        ts = λ h. cc;
        numbers = (refl, (refl, (refl, (refl, (refl, (refl, (refl, (refl, (refl, tt)))))))));
      },
      tt,
    ),
  ),
)

process_acquisition-returns_example : (p : NetworkIntelligencePackage) × (processed host ≡ ok p)
process_acquisition-returns_example =
    process_acquisition-returns python false is_address unary loads host "acq" "a.pcap" result
      entries unary-IsSupply zeek_run read_run readable

process_acquisition-IsRecordOf_example : IsRecordOf python false entries package_here
process_acquisition-IsRecordOf_example =
    process_acquisition-IsRecordOf python false is_address unary loads host "acq" "a.pcap" result
      entries package_here zeek_run read_run process_run
