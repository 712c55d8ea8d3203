-- ===== src/Packets/Process/Answer.antt =====
-- When `process_acquisition` (backend/app/engines/packet_intelligence/orchestrator.py) returns.
use net_sleuth_ai.Shared.{
  ℕ, String, Bool, Option, List, ◌≡◌, refl, subst, All, Result, ok, err, Outcome,
}
use net_sleuth_ai.Correlation.Domain.{NetworkIntelligencePackage}
use net_sleuth_ai.Packets.Json.{Json, Python}
use net_sleuth_ai.Packets.Zeek.{ZeekRunnerResult, Entry, read}
use net_sleuth_ai.Packets.Zeek.Entries.{IsOf, read-IsOf}
use net_sleuth_ai.Packets.Runner.{Host, run_zeek}
use net_sleuth_ai.Packets.Runner.Guard.{run_zeek-IsAllowed}
use net_sleuth_ai.Packets.Process.{
  Failure, zeek_failed, undecodable_log, conversion_raised, provenance_refused, assembly_refused,
  process_entries, process_acquisition,
}
use net_sleuth_ai.Packets.Process.Drawn.{IsSupply}
use net_sleuth_ai.Packets.Process.Flows.{IsExternal}
use net_sleuth_ai.Packets.Process.Assembly.{IsAssembled, process_entries-IsAssembled}
use net_sleuth_ai.Packets.Process.Refusals.{IsRefusal, IsReadable, Holds, process_entries-Holds}

-- An exception is not both.
not_both : (f : Failure) → IsExternal f → IsRefusal f → ⊥
not_both (zeek_failed e) h k = k
not_both undecodable_log h k = k
not_both (conversion_raised raised) h k = k
not_both (provenance_refused e) h k = h
not_both (assembly_refused code) h k = h

answered :
    (P : NetworkIntelligencePackage → Type 0) (r : Result Failure NetworkIntelligencePackage)
    → Outcome P IsExternal r
    → Holds r
    → (p : NetworkIntelligencePackage) × (r ≡ ok p)
answered P (ok p) h k = (p, refl)
answered P (err f) h k = absurd (not_both f h k)

-- If the identifiers that are drawn are distinct and not empty, Zeek runs, the folder of its logs is
-- there, no log holds bytes that are not UTF-8, and in every record the uid is a text, the platform
-- has the time or the time is no number, and no number is infinite, then `process_acquisition`
-- returns a package. Lines that are no records and records that the adapters refuse are skipped.
pub process_acquisition-returns :
    (py : Python) (takes_nan : Bool) (is_ip : String → Bool) (fresh : ℕ → String)
    (loads : String → Option Json) (host : Host) (acquisition_id capture_reference : String)
    (result : ZeekRunnerResult) (entries : List Entry)
    → IsSupply fresh
    → run_zeek host acquisition_id capture_reference ≡ ok result
    → read loads result ≡ ok entries
    → All (IsReadable py) entries
    → (p : NetworkIntelligencePackage) × (process_acquisition py takes_nan is_ip fresh loads host
          acquisition_id capture_reference
        ≡ ok p)
unfolding process_acquisition
process_acquisition-returns py takes_nan is_ip fresh loads host acquisition_id capture_reference
      result entries supply ran logs readable =
    let (_, same) = run_zeek-IsAllowed host acquisition_id capture_reference result ran in
    let own = subst (λ id. All (IsOf id) entries) same (read-IsOf loads result entries logs) in
    rw ran (
      rw logs (
        answered (IsAssembled acquisition_id)
          (process_entries py takes_nan is_ip fresh acquisition_id entries)
          (process_entries-IsAssembled py takes_nan is_ip fresh supply acquisition_id entries own)
          (process_entries-Holds py takes_nan is_ip fresh acquisition_id entries readable)))
