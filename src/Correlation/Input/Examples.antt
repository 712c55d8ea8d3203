-- ===== src/Correlation/Input/Examples.antt =====
-- Runs of `M3InputAdapter.adapt` on small packages, and its contract at them.
use net_sleuth_ai.Shared.{◌≡◌, refl, ◌↔◌, [], ◌∷◌, ok, err, lookup, insert, none, some}
use net_sleuth_ai.Correlation.Domain.{NetworkIntelligencePackage, M3InvestigationInput}
use net_sleuth_ai.Correlation.Samples.{flow_to, network, found}
use net_sleuth_ai.Correlation.Input.{
  duplicate_flow, missing_flow, contract_failed, index_by, index_flows, index_events, note_protocol,
  note_all, index_artifacts, check_ids, check_references, index_findings, merge, adapt,
}
use net_sleuth_ai.Correlation.Input.Index.{insert_all}
use net_sleuth_ai.Correlation.Input.Loops.{AllInIndex}
use net_sleuth_ai.Correlation.Input.Integrity.{IsWellFormed, merged}
use net_sleuth_ai.Correlation.Input.Contract.{
  merge-accepts_iff, IsLossless, merge-IsLossless, merge-Resolves,
}

abbrev pub input : M3InvestigationInput
input = merged network found

pub merge_run : merge network found ≡ ok input
unfolding merge index_flows index_events index_artifacts index_findings check_references check_ids
    index_by note_protocol note_all insert_all lookup insert
merge_run = refl

merge_twice :
    merge (record network { flows = flow_to "f1" 53 10 ∷ flow_to "f1" 80 11 ∷ [] }) found
    ≡ err (duplicate_flow "f1")
unfolding merge index_flows index_by lookup insert
merge_twice = refl

merge_dangling :
    merge (record network { flows = flow_to "f1" 53 10 ∷ [] }) found ≡ err (missing_flow "f2")
unfolding merge index_flows index_events index_artifacts index_findings check_references check_ids
    index_by note_protocol lookup insert
merge_dangling = refl

adapt_rejects :
    adapt (λ (p : NetworkIntelligencePackage). some p) (λ p. none) network network
    ≡ err contract_failed
unfolding adapt
adapt_rejects = refl

merge-accepts_iff_example :
    ((i : M3InvestigationInput) × (merge network found ≡ ok i)) ↔ IsWellFormed network found
merge-accepts_iff_example = merge-accepts_iff network found

merge-IsLossless_example : IsLossless network found input.evidence_index
merge-IsLossless_example = merge-IsLossless network found input merge_run

merge-Resolves_example : AllInIndex input.evidence_index input.findings
merge-Resolves_example = merge-Resolves network found input merge_run
