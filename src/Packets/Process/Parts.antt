-- ===== src/Packets/Process/Parts.antt =====
-- What the events and the artifacts of a package under construction have
-- (backend/app/engines/packet_intelligence/orchestrator.py).
use net_sleuth_ai.Shared.{
  ℕ, String, true, false, Option, none, some, List, [], ◌∷◌, ◌++◌, map, ◌≡◌, refl, arith, elem,
  elem-append, All, Result, ok, sym, subst, some-injective,
}
use net_sleuth_ai.Correlation.Domain.{Timestamp, ProtocolEvent, Artifact}
use net_sleuth_ai.Packets.Conversion.{Aware}
use net_sleuth_ai.Packets.Process.{Failure, SecondPass, check_all, is_broken}
use net_sleuth_ai.Packets.Process.Drawn.{AreDrawn}

pub check_all-passes :
    {A : Type 0} (check : A → Result Failure (Unit {0})) (xs : List A)
    → All (λ x. check x ≡ ok tt) xs
    → check_all check xs ≡ ok tt
unfolding check_all
check_all-passes check [] h = refl
check_all-passes check (x ∷ xs) h = rw h.0 (check_all-passes check xs h.1)

pub record IsEventIn (acquisition_id : String) (flow_ids : List String) (e : ProtocolEvent)
    : Type 0 where
  pub same_acquisition : e.acquisition_id ≡ acquisition_id
  pub aware : Aware e.timestamp
  pub has_parent : elem e.flow_id flow_ids ≡ true

-- The artifact names an event and a flow that are listed, and was seen first and last at times with
-- zones.
pub record IsArtifactIn (acquisition_id : String) (flow_ids event_ids : List String) (a : Artifact)
    : Type 0 where
  pub same_acquisition : a.acquisition_id ≡ acquisition_id
  pub event_id : String
  pub names_event : a.source_event_id ≡ some event_id
  pub has_event : elem event_id event_ids ≡ true
  pub flow_id : String
  pub names_flow : a.flow_id ≡ some flow_id
  pub has_flow : elem flow_id flow_ids ≡ true
  pub first : Timestamp
  pub seen_first : a.first_seen ≡ some first
  pub first_aware : Aware first
  pub last : Timestamp
  pub seen_last : a.last_seen ≡ some last
  pub last_aware : Aware last

-- A reference to something that is listed is not broken.
pub is_broken-of_elem :
    (ids : List String) (o : Option String) {id : String}
    → o ≡ some id
    → elem id ids ≡ true
    → is_broken ids o ≡ false
is_broken-of_elem ids none e h = cc
is_broken-of_elem ids (some s) e h =
    ground (arith, subst (λ t. elem t ids ≡ true) (sym (some-injective e)) h)

abbrev pub event_ids : List ProtocolEvent → List String
event_ids events = map (λ e. e.event_id) events

abbrev pub artifact_ids : List Artifact → List String
artifact_ids artifacts = map (λ a. a.artifact_id) artifacts

pub record AreEvents (fresh : ℕ → String) (acquisition_id : String) (flow_ids : List String)
    (s : SecondPass) : Type 0 where
  pub ids : AreDrawn fresh s.drawn (event_ids s.protocol_events)
  pub ids_of_artifacts : AreDrawn fresh s.drawn (artifact_ids s.artifacts)
  pub settled : All (IsEventIn acquisition_id flow_ids) s.protocol_events
  pub traced : All (IsArtifactIn acquisition_id flow_ids (event_ids s.protocol_events)) s.artifacts

module _ (acquisition_id : String) (flow_ids before after : List String) where
  -- More events break no reference.
  pub IsArtifactIn-append :
      (a : Artifact)
      → IsArtifactIn acquisition_id flow_ids before a
      → IsArtifactIn acquisition_id flow_ids (before ++ after) a
  IsArtifactIn-append a h = record {
    same_acquisition = h.same_acquisition;
    event_id = h.event_id;
    names_event = h.names_event;
    has_event = ground (arith, h.has_event, elem-append h.event_id before after);
    flow_id = h.flow_id;
    names_flow = h.names_flow;
    has_flow = h.has_flow;
    first = h.first;
    seen_first = h.seen_first;
    first_aware = h.first_aware;
    last = h.last;
    seen_last = h.seen_last;
    last_aware = h.last_aware;
  }
