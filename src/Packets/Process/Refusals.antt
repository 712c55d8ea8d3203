-- ===== src/Packets/Process/Refusals.antt =====
-- What the passes of `process_acquisition` raise on records that the adapters read
-- (backend/app/engines/packet_intelligence/orchestrator.py): refusals at most.
use net_sleuth_ai.Shared.{
  ℕ, String, Bool, true, false, not, Option, none, some, List, [], ◌∷◌, ◌==◌, if_ind, elem, All,
  Result, ok, err, raise_if, ◌>>=◌, ◌>>◌, Outcome, >>=-Outcome, Dict,
}
use net_sleuth_ai.Correlation.Domain.{Flow, ProtocolEvent, Artifact}
use net_sleuth_ai.Packets.Json.{Python}
use net_sleuth_ai.Packets.Zeek.{RawZeekRecord, Entry, raw, malformed, stopped}
use net_sleuth_ai.Packets.Adapters.{Stop, returned, passed}
use net_sleuth_ai.Packets.Artifacts.{ProvenanceError, validate_artifact_provenance}
use net_sleuth_ai.Packets.Containment.{Any, Returns, IsTame}
use net_sleuth_ai.Packets.Containment.Conversions.{
  convert_conn-Returns, convert_dns-Returns, convert_http-Returns, convert_tls-Returns,
}
use net_sleuth_ai.Packets.Process.{
  Failure, provenance_refused, assembly_refused, FirstPass, SecondPass, provenance_error, check_all,
  add_flow, first_step, first_pass, convert_event, check_artifact, add_event, second_step,
  second_pass, check_flow, check_event_references, check_artifact_references, is_broken,
  assemble_package, process_entries,
}

-- An exception that the process raises about its own package.
abbrev pub IsRefusal : Failure → Type 0
IsRefusal (provenance_refused e) = Unit
IsRefusal (assembly_refused code) = Unit
IsRefusal f = ⊥

-- A record that the adapters read without an exception; a malformed line is skipped.
abbrev pub IsReadable : Python → Entry → Type 0
IsReadable py (raw r) = IsTame py r
IsReadable py (malformed e) = Unit
IsReadable py stopped = ⊥

abbrev pub Holds : {A : Type 0} → Result Failure A → Type 0
Holds r = Outcome Any IsRefusal r

next :
    {A B : Type 0} (first : Result Failure A) (rest : A → Result Failure B)
    → Holds first
    → ((a : A) → Holds (rest a))
    → Holds (first >>= rest)
next first rest h k = >>=-Outcome Any Any IsRefusal first rest h (λ a u. k a)

checked : (b : Bool) (f : Failure) → IsRefusal f → Holds (raise_if b f)
checked true f h = h
checked false f h = tt

checked_twice :
    (b c : Bool) (f g : Failure) → IsRefusal f → IsRefusal g → Holds (raise_if b f >> raise_if c g)
checked_twice true c f g h k = h
checked_twice false true f g h k = k
checked_twice false false f g h k = tt

check_all-Holds :
    {A : Type 0} (check : A → Result Failure (Unit {0})) (xs : List A)
    → ((x : A) → Holds (check x))
    → Holds (check_all check xs)
unfolding check_all
check_all-Holds check [] h = tt
check_all-Holds check (x ∷ xs) h =
    next (check x) (λ u. check_all check xs) (h x) (λ u. check_all-Holds check xs h)

provenance_error-Holds : (r : Result ProvenanceError (Unit {0})) → Holds (provenance_error r)
provenance_error-Holds (ok u) = tt
provenance_error-Holds (err e) = tt

add_flow-Holds : (s : FirstPass) (r : Result Stop Flow) → Returns r → Holds (add_flow s r)
unfolding add_flow
add_flow-Holds s (ok f) h = tt
add_flow-Holds s (err (returned e)) h = tt
add_flow-Holds s (err (passed raised)) h = absurd h

-- What the adapter of a record gives, if there is one, is returned.
abbrev MayReturn : Option (Result Stop ProtocolEvent) → Type 0
MayReturn none = Unit
MayReturn (some r) = Returns r

module _ (py : Python) (takes_nan : Bool) (is_ip : String → Bool) (fresh : ℕ → String)
    (acquisition_id : String) where
  first_pass-Holds :
      (entries : List Entry) (s : FirstPass)
      → All (IsReadable py) entries
      → Holds (first_pass py takes_nan is_ip fresh acquisition_id entries s)
  unfolding first_pass first_step
  first_pass-Holds [] s h = tt
  first_pass-Holds (malformed e ∷ entries) s h = first_pass-Holds entries s h.1
  first_pass-Holds (stopped ∷ entries) s h = absurd h.0
  first_pass-Holds (raw r ∷ entries) s h =
      next (first_step py takes_nan is_ip fresh acquisition_id (raw r) s)
        (first_pass py takes_nan is_ip fresh acquisition_id entries)
        (if_ind Holds (r.log_type == "conn")
          (λ e. add_flow-Holds s _ (convert_conn-Returns py r h.0 takes_nan (fresh s.drawn)))
          (λ e. tt))
        (λ t. first_pass-Holds entries t h.1)

  convert_event-MayReturn :
      (index : Dict String) (event_id : String) (r : RawZeekRecord)
      → IsTame py r
      → MayReturn (convert_event py takes_nan is_ip fresh acquisition_id index event_id r)
  unfolding convert_event
  convert_event-MayReturn index event_id r h =
      if_ind MayReturn (r.log_type == "dns") (λ e. convert_dns-Returns py r h event_id index)
        λ e.
          if_ind MayReturn (r.log_type == "http") (λ e. convert_http-Returns py r h event_id index)
            λ e.
              if_ind MayReturn (r.log_type == "ssl")
                (λ e. convert_tls-Returns py r h event_id index) (λ e. tt)

  check_artifact-Holds :
      (e : ProtocolEvent) (a : Artifact)
      → Holds (check_artifact py takes_nan is_ip fresh acquisition_id e a)
  unfolding check_artifact
  check_artifact-Holds e a =
      next (provenance_error (validate_artifact_provenance a e)) _
        (provenance_error-Holds (validate_artifact_provenance a e)) (λ u. checked _ _ tt)

  add_event-Holds :
      (s : SecondPass) (o : Option (Result Stop ProtocolEvent))
      → MayReturn o
      → Holds (add_event py takes_nan is_ip fresh acquisition_id s o)
  unfolding add_event
  add_event-Holds s none h = tt
  add_event-Holds s (some (err (returned e))) h = tt
  add_event-Holds s (some (err (passed raised))) h = absurd h
  add_event-Holds s (some (ok event)) h =
      next (check_all (check_artifact py takes_nan is_ip fresh acquisition_id event) _) _
        (check_all-Holds _ _ (check_artifact-Holds event)) (λ u. tt)

  second_pass-Holds :
      (index : Dict String) (entries : List Entry) (s : SecondPass)
      → All (IsReadable py) entries
      → Holds (second_pass py takes_nan is_ip fresh acquisition_id index entries s)
  unfolding second_pass second_step
  second_pass-Holds index [] s h = tt
  second_pass-Holds index (malformed e ∷ entries) s h = second_pass-Holds index entries s h.1
  second_pass-Holds index (stopped ∷ entries) s h = absurd h.0
  second_pass-Holds index (raw r ∷ entries) s h =
      next (second_step py takes_nan is_ip fresh acquisition_id index (raw r) s)
        (second_pass py takes_nan is_ip fresh acquisition_id index entries)
        (add_event-Holds s _ (convert_event-MayReturn index (fresh s.drawn) r h.0))
        (λ t. second_pass-Holds index entries t h.1)

  check_event_references-Holds :
      (ids : List String) (e : ProtocolEvent)
      → Holds (check_event_references py takes_nan is_ip fresh acquisition_id ids e)
  unfolding check_event_references
  check_event_references-Holds ids e =
      checked_twice (not (e.acquisition_id == acquisition_id)) (not (elem e.flow_id ids)) _ _ tt tt

  check_artifact_references-Holds :
      (ids known : List String) (a : Artifact)
      → Holds (check_artifact_references py takes_nan is_ip fresh acquisition_id ids known a)
  unfolding check_artifact_references
  check_artifact_references-Holds ids known a =
      checked_twice (is_broken known a.source_event_id) (is_broken ids a.flow_id) _ _ tt tt

  assemble_package-Holds :
      (first : FirstPass) (second : SecondPass)
      → Holds (assemble_package py takes_nan is_ip fresh acquisition_id first second)
  unfolding assemble_package check_flow
  assemble_package-Holds first second =
      next (check_all _ first.flows) _ (check_all-Holds _ _ (λ f. checked _ _ tt)) λ u.
        next (check_all _ second.protocol_events) _
          (check_all-Holds _ _ (check_event_references-Holds _))
          λ u.
            next (check_all _ second.artifacts) _
              (check_all-Holds _ _ (check_artifact_references-Holds _ _)) λ u. tt

  pub process_entries-Holds :
      (entries : List Entry)
      → All (IsReadable py) entries
      → Holds (process_entries py takes_nan is_ip fresh acquisition_id entries)
  unfolding process_entries
  process_entries-Holds entries h =
      next (first_pass py takes_nan is_ip fresh acquisition_id entries _) _
        (first_pass-Holds entries _ h)
        λ first.
          next (second_pass py takes_nan is_ip fresh acquisition_id first.flow_index entries _) _
            (second_pass-Holds first.flow_index entries _ h)
            λ second. assemble_package-Holds first second
