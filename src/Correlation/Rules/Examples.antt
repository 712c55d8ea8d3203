-- ===== src/Correlation/Rules/Examples.antt =====
-- Two addresses, a domain and a finding: the relationships that the rules find.
use net_sleuth_ai.Shared.{◌≡◌, refl, String, none, some, [], ◌∷◌, count}
use net_sleuth_ai.Correlation.Entities.{Entity, InvestigationContext}
use net_sleuth_ai.Correlation.Rules.{
  is_link, relationship, apply_rules, relation_exists, add_rel, add_rels, rule_links, pairs,
  communications, associations,
}

abbrev entity : String → String → Entity
entity type id = record {
  entity_id = id;
  entity_type = type;
  value = id;
  first_seen = none;
  last_seen = none;
  attributes = [];
}

abbrev context : InvestigationContext
context = record {
  acquisition_id = some "acq";
  case_id = none;
  entities =
      entity "ip" "ip:a"
      ∷ entity "domain" "domain:d"
      ∷ entity "ip" "ip:b"
      ∷ entity "finding" "finding:f"
      ∷ [];
  relationships =
      relationship
        (record { src = "ip:a"; tgt = "ip:gone"; rel_type = "communicates_with"; reason = "old" })
      ∷ relationship
          (record { src = "ip:a"; tgt = "domain:d"; rel_type = "queries_domain"; reason = "old" })
      ∷ [];
  timeline_events = [];
  findings = [];
  evidence_references = [];
  mitre_mappings = [];
  hypotheses = [];
  hypothesis_validations = [];
  root_causes = [];
  impact_assessments = [];
}

-- The old relationship to an unknown entity goes, and the old one to the domain is not repeated.
rules_run :
    (count (is_link "ip:a" "ip:b" "communicates_with") (apply_rules context).relationships ≡ 1)
    × (count (is_link "ip:a" "ip:gone" "communicates_with") (apply_rules context).relationships ≡ 0)
    × (count (is_link "ip:a" "domain:d" "queries_domain") (apply_rules context).relationships ≡ 1)
unfolding apply_rules relation_exists add_rel add_rels rule_links pairs communications associations
rules_run = (refl, refl, refl)
