-- ===== src/Packets/Process/Flows.antt =====
-- What the first pass of `process_acquisition`
-- (backend/app/engines/packet_intelligence/orchestrator.py) gathers.
use net_sleuth_ai.Shared.{
  ℕ, suc, ◌≤◌, String, Bool, true, none, some, List, [], ◌∷◌, ◌++◌, map, map-append, ◌==◌, ◌≡◌,
  refl, ◌∙◌, subst, arith, eq_refl, elem, elem-append, All, All-append, Result, ok, err, Outcome,
  >>=-Outcome, Values, Values-insert, Values-empty, if_ind,
}
use net_sleuth_ai.Correlation.Domain.{Flow}
use net_sleuth_ai.Packets.Json.{Python}
use net_sleuth_ai.Packets.Zeek.{RawZeekRecord, Entry, raw, malformed, stopped}
use net_sleuth_ai.Packets.Zeek.Entries.{IsOf}
use net_sleuth_ai.Packets.Adapters.{Stop, returned, passed}
use net_sleuth_ai.Packets.Conversion.{Aware, IsFlowOf, convert_conn-IsFlowOf}
use net_sleuth_ai.Packets.Process.{
  Failure, zeek_failed, undecodable_log, conversion_raised, provenance_refused, assembly_refused,
  FirstPass, add_flow, first_step, first_pass,
}
use net_sleuth_ai.Packets.Process.Drawn.{IsSupply, AreDrawn, AreDrawn-later, AreDrawn-snoc}

-- An exception that the process did not raise about its own package.
abbrev pub IsExternal : Failure → Type 0
IsExternal (zeek_failed code) = Unit
IsExternal undecodable_log = Unit
IsExternal (conversion_raised raised) = Unit
IsExternal (provenance_refused e) = ⊥
IsExternal (assembly_refused code) = ⊥

abbrev pub flow_ids : List Flow → List String
flow_ids flows = map (λ f. f.flow_id) flows

pub record IsFlowIn (acquisition_id : String) (f : Flow) : Type 0 where
  pub same_acquisition : f.acquisition_id ≡ acquisition_id
  pub aware : Aware f.timestamp
  pub started : f.start_time ≡ some f.timestamp
  pub unfinished : f.end_time ≡ none
  pub source_port : f.source.port ≤ 65535
  pub destination_port : f.destination.port ≤ 65535

-- The flows so far, and the index, which leads to them.
pub record AreFlows (fresh : ℕ → String) (acquisition_id : String) (s : FirstPass) : Type 0 where
  pub ids : AreDrawn fresh s.drawn (flow_ids s.flows)
  pub settled : All (IsFlowIn acquisition_id) s.flows
  pub indexed : Values (λ id. elem id (flow_ids s.flows) ≡ true) s.flow_index

module _ (py : Python) (takes_nan : Bool) (is_ip : String → Bool) (fresh : ℕ → String)
    (supply : IsSupply fresh) (acquisition_id : String) where
  AreFlows-skip :
      (s : FirstPass)
      → AreFlows fresh acquisition_id s
      → AreFlows fresh acquisition_id (record s { drawn = suc s.drawn })
  AreFlows-skip s h = record {
    ids = AreDrawn-later fresh supply s.drawn (suc s.drawn) (flow_ids s.flows) (omega arith) h.ids;
    settled = h.settled;
    indexed = h.indexed;
  }

  AreFlows-add :
      (s : FirstPass) (r : RawZeekRecord) (f : Flow)
      → r.acquisition_id ≡ acquisition_id
      → IsFlowOf (fresh s.drawn) r f
      → AreFlows fresh acquisition_id s
      → Outcome (AreFlows fresh acquisition_id) IsExternal (add_flow s (ok f))
  unfolding add_flow
  AreFlows-add s r f same made h =
      let longer = map-append (λ (g : Flow). g.flow_id) s.flows (f ∷ []) in
      let is_last = λ (id : String). elem-append id (flow_ids s.flows) (f.flow_id ∷ []) in
      record {
        ids =
            subst (AreDrawn fresh (suc s.drawn)) (cc (longer, made.drawn))
              (AreDrawn-snoc fresh supply s.drawn (flow_ids s.flows) h.ids);
        settled = All-append (IsFlowIn acquisition_id) s.flows (f ∷ []) h.settled (
          record {
            same_acquisition = made.same_acquisition ∙ same;
            aware = made.aware;
            started = made.started;
            unfinished = made.unfinished;
            source_port = made.source_port;
            destination_port = made.destination_port;
          },
          tt,
        );
        indexed =
            Values-insert (λ id. elem id (flow_ids (s.flows ++ (f ∷ []))) ≡ true) f.zeek_uid
              f.flow_id s.flow_index (ground (arith, longer, is_last f.flow_id, eq_refl f.flow_id))
              (λ k id e. ground (arith, longer, is_last id, h.indexed k id e));
      }

  add_flow-AreFlows :
      (s : FirstPass) (r : RawZeekRecord) (result : Result Stop Flow)
      → r.acquisition_id ≡ acquisition_id
      → ((f : Flow) → result ≡ ok f → IsFlowOf (fresh s.drawn) r f)
      → AreFlows fresh acquisition_id s
      → Outcome (AreFlows fresh acquisition_id) IsExternal (add_flow s result)
  unfolding add_flow
  add_flow-AreFlows s r (ok f) same made h = AreFlows-add s r f same (made f refl) h
  add_flow-AreFlows s r (err (returned e)) same made h = AreFlows-skip s h
  add_flow-AreFlows s r (err (passed raised)) same made h = tt

  first_step-AreFlows :
      (e : Entry) (s : FirstPass)
      → IsOf acquisition_id e
      → AreFlows fresh acquisition_id s
      → Outcome
          (AreFlows fresh acquisition_id)
          IsExternal
          (first_step py takes_nan is_ip fresh acquisition_id e s)
  unfolding first_step
  first_step-AreFlows (malformed e) s same h = h
  first_step-AreFlows stopped s same h = tt
  first_step-AreFlows (raw r) s same h =
      let converted = convert_conn-IsFlowOf py takes_nan (fresh s.drawn) r in
      if_ind (Outcome (AreFlows fresh acquisition_id) IsExternal) (r.log_type == "conn")
        (λ e. add_flow-AreFlows s r _ same converted h) (λ e. h)

  pub first_pass-AreFlows :
      (entries : List Entry) (s : FirstPass)
      → All (IsOf acquisition_id) entries
      → AreFlows fresh acquisition_id s
      → Outcome
          (AreFlows fresh acquisition_id)
          IsExternal
          (first_pass py takes_nan is_ip fresh acquisition_id entries s)
  unfolding first_pass
  first_pass-AreFlows [] s same h = h
  first_pass-AreFlows (e ∷ entries) s same h =
      >>=-Outcome (AreFlows fresh acquisition_id) (AreFlows fresh acquisition_id) IsExternal
        (first_step py takes_nan is_ip fresh acquisition_id e s)
        (first_pass py takes_nan is_ip fresh acquisition_id entries)
        (first_step-AreFlows e s same.0 h) (λ t k. first_pass-AreFlows entries t same.1 k)

  pub AreFlows-none :
      AreFlows fresh acquisition_id (record { flows = []; flow_index = []; drawn = 0 })
  AreFlows-none = record {
    ids = record { distinct = tt; below = tt };
    settled = tt;
    indexed = Values-empty (λ id. elem id [] ≡ true);
  }
