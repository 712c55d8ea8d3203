-- ===== src/Packets/Process/Outcome.antt =====
-- What `process_acquisition` (backend/app/engines/packet_intelligence/orchestrator.py) returns, and
-- what it can raise.
use net_sleuth_ai.Shared.{
  ℕ, String, Bool, ◌≡◌, refl, subst, All, ok-injective, err-injective, Option, Result, ok, err,
  Outcome, >>=-Outcome,
}
use net_sleuth_ai.Correlation.Domain.{NetworkIntelligencePackage}
use net_sleuth_ai.Packets.Json.{Json, Python}
use net_sleuth_ai.Packets.Zeek.{ZeekFailure, read}
use net_sleuth_ai.Packets.Zeek.Entries.{IsOf, read-IsOf}
use net_sleuth_ai.Packets.Runner.{Host, run_zeek}
use net_sleuth_ai.Packets.Runner.Guard.{run_zeek-IsAllowed}
use net_sleuth_ai.Packets.Process.{Failure, zeek_error, process_acquisition}
use net_sleuth_ai.Packets.Process.Drawn.{IsSupply}
use net_sleuth_ai.Packets.Process.Flows.{IsExternal}
use net_sleuth_ai.Packets.Process.Assembly.{IsAssembled, process_entries-IsAssembled}

zeek_error-Outcome :
    {A : Type 0} (P : A → Type 0) (r : Result ZeekFailure A)
    → ((a : A) → r ≡ ok a → P a)
    → Outcome P IsExternal (zeek_error r)
zeek_error-Outcome P (ok a) h = h a refl
zeek_error-Outcome P (err e) h = tt

Outcome-of_ok :
    (P : NetworkIntelligencePackage → Type 0) (r : Result Failure NetworkIntelligencePackage)
    (p : NetworkIntelligencePackage)
    → Outcome P IsExternal r
    → r ≡ ok p
    → P p
Outcome-of_ok P (ok q) p h e = subst P (ok-injective e) h
Outcome-of_ok P (err f) p h e = cc

Outcome-of_err :
    (P : NetworkIntelligencePackage → Type 0) (r : Result Failure NetworkIntelligencePackage)
    (f : Failure)
    → Outcome P IsExternal r
    → r ≡ err f
    → IsExternal f
Outcome-of_err P (ok q) f h e = cc
Outcome-of_err P (err g) f h e = subst IsExternal (err-injective e) h

module _ (py : Python) (takes_nan : Bool) (is_ip : String → Bool) (fresh : ℕ → String)
    (supply : IsSupply fresh) (loads : String → Option Json) (host : Host)
    (acquisition_id capture_reference : String) where
  abbrev processed : Result Failure NetworkIntelligencePackage
  processed =
      process_acquisition py takes_nan is_ip fresh loads host acquisition_id capture_reference

  process_acquisition-Outcome : Outcome (IsAssembled acquisition_id) IsExternal processed
  unfolding process_acquisition
  process_acquisition-Outcome =
      let ran = run_zeek host acquisition_id capture_reference in
      >>=-Outcome (λ r. r.acquisition_id ≡ acquisition_id) (IsAssembled acquisition_id) IsExternal
        (zeek_error ran) _
        (zeek_error-Outcome (λ r. r.acquisition_id ≡ acquisition_id) ran
          (λ r e. (run_zeek-IsAllowed host acquisition_id capture_reference r e).1))
        λ result same.
          >>=-Outcome (All (IsOf acquisition_id)) (IsAssembled acquisition_id) IsExternal
            (zeek_error (read loads result)) _
            (zeek_error-Outcome (All (IsOf acquisition_id)) (read loads result) (λ entries e.
              subst (λ id. All (IsOf id) entries) same (read-IsOf loads result entries e)))
            λ entries own.
              process_entries-IsAssembled py takes_nan is_ip fresh supply acquisition_id entries own

  -- If the identifiers that are drawn are distinct and not empty, then a package that
  -- `process_acquisition` returns is of the acquisition, like all its parts, and its identifiers are
  -- distinct. A flow's time has a zone and is its start, its end is unknown, and its ports are at
  -- most 65535. An event's time has a zone, and its flow is in the package. An artifact names an
  -- event and a flow that are in the package, and was seen first and last at times with zones.
  pub process_acquisition-IsAssembled :
      (p : NetworkIntelligencePackage)
      → process_acquisition py takes_nan is_ip fresh loads host acquisition_id capture_reference
        ≡ ok p
      → IsAssembled acquisition_id p
  process_acquisition-IsAssembled p h =
      Outcome-of_ok (IsAssembled acquisition_id) processed p process_acquisition-Outcome h

  -- If the identifiers that are drawn are distinct and not empty, then what `process_acquisition`
  -- raises comes from Zeek, from a log that is not UTF-8 or from a conversion: it never refuses the
  -- provenance of its own artifacts nor the references of its own package.
  pub process_acquisition-IsExternal :
      (f : Failure)
      → process_acquisition py takes_nan is_ip fresh loads host acquisition_id capture_reference
        ≡ err f
      → IsExternal f
  process_acquisition-IsExternal f h =
      Outcome-of_err (IsAssembled acquisition_id) processed f process_acquisition-Outcome h
