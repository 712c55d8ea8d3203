-- ===== src/Packets/Provenance.antt =====
-- That the artifacts of an event lead back to it.
use net_sleuth_ai.Shared.{
  ℕ, suc, String, Bool, true, false, Option, none, some, List, [], ◌∷◌, ◌==◌, if◌then◌else◌, ok,
  ◌≡◌, ◌↔◌, refl, ap, arith, eq_iff, eq_refl, All, All-append, if_ind, Bool-cases, inl, inr,
}
use net_sleuth_ai.Correlation.Domain.{
  ProtocolData, dns_data, http_data, tls_data, other_data, ProtocolEvent, ArtifactType, ip, domain,
  user_agent, Artifact,
}
use net_sleuth_ai.Packets.Artifacts.{
  Extract, of_field, of_answers, extracts, build_artifact, build_all, extract, names_other,
  validate_artifact_provenance,
}

-- The references of an artifact are the event's.
pub record LeadsTo (a : Artifact) (e : ProtocolEvent) : Type 0 where
  pub same_event : a.source_event_id ≡ some e.event_id
  pub same_flow : a.flow_id ≡ some e.flow_id
  pub same_acquisition : a.acquisition_id ≡ e.acquisition_id

accepts-LeadsTo :
    (a : Artifact) (e : ProtocolEvent)
    → (e.event_id == "") ≡ false
    → LeadsTo a e
    → validate_artifact_provenance a e ≡ ok tt
unfolding validate_artifact_provenance
accepts-LeadsTo a e n l = ground (
  arith,
  n,
  l.same_event,
  l.same_flow,
  l.same_acquisition,
  eq_refl e.event_id,
  eq_refl e.flow_id,
  eq_refl e.acquisition_id,
)

named : (o : Option String) (s : String) → names_other o s ≡ false → o ≡ some s
named none s h = cc
named (some t) s h = ap some ((eq_iff t s).0 (ground (arith, h)))

LeadsTo-of_accepted :
    (a : Artifact) (e : ProtocolEvent) → validate_artifact_provenance a e ≡ ok tt → LeadsTo a e
unfolding validate_artifact_provenance
LeadsTo-of_accepted a e h =
    let event = named a.source_event_id e.event_id in
    let flow = named a.flow_id e.flow_id in
    record {
      same_event = event (ground (arith, h));
      same_flow = flow (ground (arith, h));
      same_acquisition = ground (arith, h, eq_iff a.acquisition_id e.acquisition_id);
    }

-- For an event with an identifier, the provenance of an artifact is accepted if and only if the
-- event, the flow and the acquisition that it names are the event's.
pub validate_artifact_provenance-accepts_iff :
    (a : Artifact) (e : ProtocolEvent)
    → (e.event_id == "") ≡ false
    → validate_artifact_provenance a e ≡ ok tt ↔ LeadsTo a e
validate_artifact_provenance-accepts_iff a e n = (LeadsTo-of_accepted a e, accepts-LeadsTo a e n)

module _ (is_ip : String → Bool) where
  abbrev pub IsTyped : ArtifactType → String → Type 0
  IsTyped ip s = is_ip s ≡ true
  IsTyped _ s = Unit

  -- What is extracted: a text that is not empty, and an address if its type says so.
  abbrev IsClean : Extract → Type 0
  IsClean x = ((x.1 == "") ≡ false) × IsTyped x.0 x.1

  of_field-IsClean :
      (type : ArtifactType) (o : Option String)
      → ((s : String) → IsTyped type s)
      → All IsClean (of_field type o)
  unfolding of_field
  of_field-IsClean type none typed = tt
  of_field-IsClean type (some s) typed =
      if_ind (All IsClean) (s == "") (λ e. tt) (λ e. ((e, typed s), tt))

  answer-IsTyped : (s : String) → IsTyped (if is_ip s then ip else domain) s
  answer-IsTyped s = elim (Bool-cases (is_ip s)) [ inl e ↦ rw e e | inr e ↦ rw e tt ]

  of_answers-IsClean : (answers : List String) → All IsClean (of_answers is_ip answers)
  unfolding of_answers
  of_answers-IsClean [] = tt
  of_answers-IsClean (a ∷ answers) =
      if_ind (All IsClean) (a == "") (λ e. of_answers-IsClean answers)
        (λ e. ((e, answer-IsTyped a), of_answers-IsClean answers))

  extracts-IsClean : (d : ProtocolData) → All IsClean (extracts is_ip d)
  unfolding extracts
  extracts-IsClean (dns_data d) =
      All-append IsClean (of_field domain d.query) (of_answers is_ip d.answers)
        (of_field-IsClean domain d.query (λ s. tt)) (of_answers-IsClean d.answers)
  extracts-IsClean (http_data d) =
      All-append IsClean (of_field domain d.host) (of_field user_agent d.user_agent)
        (of_field-IsClean domain d.host (λ s. tt))
        (of_field-IsClean user_agent d.user_agent (λ s. tt))
  extracts-IsClean (tls_data d) = of_field-IsClean domain d.server_name (λ s. tt)
  extracts-IsClean (other_data d) = tt

  -- An artifact as the rest of the pipeline relies on.
  pub record IsTraceable (e : ProtocolEvent) (a : Artifact) : Type 0 where
    pub accepted : validate_artifact_provenance a e ≡ ok tt
    pub not_empty : (a.value == "") ≡ false
    pub typed : IsTyped a.type a.value
    pub first : a.first_seen ≡ some e.timestamp
    pub last : a.last_seen ≡ some e.timestamp

  build_all-IsTraceable :
      (fresh : ℕ → String) (n : ℕ) (e : ProtocolEvent) (xs : List Extract)
      → (e.event_id == "") ≡ false
      → All IsClean xs
      → All (IsTraceable e) (build_all is_ip fresh n e xs)
  unfolding build_all build_artifact
  build_all-IsTraceable fresh n e [] named clean = tt
  build_all-IsTraceable fresh n e (x ∷ xs) named clean = (
    record {
      accepted =
          accepts-LeadsTo (build_artifact is_ip (fresh n) e x) e named
            (record { same_event = refl; same_flow = refl; same_acquisition = refl });
      not_empty = clean.0.0;
      typed = clean.0.1;
      first = refl;
      last = refl;
    },
    build_all-IsTraceable fresh (suc n) e xs named clean.1,
  )

  -- Every artifact that is extracted from an event with an identifier passes the check of its
  -- provenance against the event, has a value that is not empty, is an address if its type says so,
  -- and is seen first and last at the time of the event.
  pub extract-IsTraceable :
      (fresh : ℕ → String) (n : ℕ) (e : ProtocolEvent)
      → (e.event_id == "") ≡ false
      → All (IsTraceable e) (extract is_ip fresh n e)
  unfolding extract
  extract-IsTraceable fresh n e named =
      build_all-IsTraceable fresh n e (extracts is_ip e.protocol_data) named
        (extracts-IsClean e.protocol_data)
