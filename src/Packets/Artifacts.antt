-- ===== src/Packets/Artifacts.antt =====
-- `ArtifactExtractor` (backend/app/engines/packet_intelligence/artifacts/extractor.py) and
-- `ProvenanceValidator` (provenance/validator.py of that folder). The addresses that the ipaddress
-- module reads and the new identifiers, in the order in which they are drawn, are parameters.
use net_sleuth_ai.Shared.{
  ℕ, suc, String, Bool, true, not, Option, none, some, List, [], ◌∷◌, ◌++◌, ◌==◌, if◌then◌else◌,
  Result, raise_if, ◌>>◌,
}
use net_sleuth_ai.Correlation.Domain.{
  ProtocolData, dns_data, http_data, tls_data, other_data, ProtocolEvent, ArtifactType, ip, domain,
  user_agent, Artifact,
}

abbrev pub Extract : Type 0
Extract = ArtifactType × String

-- A field that is there and not empty.
unfoldable pub of_field : ArtifactType → Option String → List Extract
of_field type none = []
of_field type (some s) = if s == "" then [] else (type, s) ∷ []

module _ (is_ip : String → Bool) where
  unfoldable pub of_answers : List String → List Extract
  of_answers [] = []
  of_answers (a ∷ answers) =
      let rest = of_answers answers in
      if a == "" then rest else (if is_ip a then ip else domain, a) ∷ rest

  unfoldable pub extracts : ProtocolData → List Extract
  unfolding of_field of_answers
  extracts (dns_data d) = of_field domain d.query ++ of_answers d.answers
  extracts (http_data d) = of_field domain d.host ++ of_field user_agent d.user_agent
  extracts (tls_data d) = of_field domain d.server_name
  extracts (other_data d) = []

  -- `_build_artifact`
  unfoldable pub build_artifact : String → ProtocolEvent → Extract → Artifact
  build_artifact fresh event e = record {
    artifact_id = fresh;
    type = e.0;
    value = e.1;
    source_event_id = some event.event_id;
    flow_id = some event.flow_id;
    acquisition_id = event.acquisition_id;
    first_seen = some event.timestamp;
    last_seen = some event.timestamp;
  }

  unfoldable pub build_all : (ℕ → String) → ℕ → ProtocolEvent → List Extract → List Artifact
  build_all fresh n event [] = []
  build_all fresh n event (e ∷ es) =
      build_artifact (fresh n) event e ∷ build_all fresh (suc n) event es

  -- `extract`, where `n` identifiers have been drawn before.
  unfoldable pub extract : (ℕ → String) → ℕ → ProtocolEvent → List Artifact
  extract fresh n event = build_all fresh n event (extracts event.protocol_data)

pub data ProvenanceError : Type 0 where
  missing_required_reference mismatched_event_id mismatched_flow_id mismatched_acquisition_id :
      ProvenanceError

abbrev pub names_other : Option String → String → Bool
names_other none s = true
names_other (some t) s = not (t == s)

abbrev pub is_missing : Option String → Bool
is_missing none = true
is_missing (some s) = s == ""

unfoldable pub validate_artifact_provenance :
    Artifact → ProtocolEvent → Result ProvenanceError (Unit {0})
validate_artifact_provenance artifact source_event = do
  raise_if (is_missing artifact.source_event_id) missing_required_reference
  raise_if (names_other artifact.source_event_id source_event.event_id) mismatched_event_id
  raise_if (names_other artifact.flow_id source_event.flow_id) mismatched_flow_id
  raise_if (not (artifact.acquisition_id == source_event.acquisition_id)) mismatched_acquisition_id
