-- ===== src/Packets/Process/FlowRecord.antt =====
-- The flows that the first pass of `process_acquisition` keeps
-- (backend/app/engines/packet_intelligence/orchestrator.py).
use net_sleuth_ai.Shared.{
  ℕ, String, Bool, not, ◌&&◌, Option, none, some, List, [], ◌∷◌, ◌++◌, map, map-append,
  append_assoc, append-nil, present, ◌==◌, if◌then◌else◌, ◌≡◌, refl, sym, ◌∙◌, ap, Result, ok, err,
  raise_if, ◌>>=◌, >>=-eq-ok, ok-injective, inl, inr, Bool-cases,
}
use net_sleuth_ai.Correlation.Domain.{Flow}
use net_sleuth_ai.Packets.Json.{Python, get}
use net_sleuth_ai.Packets.Zeek.{RawZeekRecord, Entry, raw, malformed, stopped}
use net_sleuth_ai.Packets.Adapters.{Stop, returned, passed}
use net_sleuth_ai.Packets.Adapters.Conn.{
  is_text, takes_uid, fits_contract, lacks_required, required_of, optionals_of, flow_of,
  convert_conn,
}
use net_sleuth_ai.Packets.Process.{Failure, FirstPass, add_flow, first_step, first_pass}

-- A flow without its identifier.
abbrev pub unnamed : Flow → Flow
unnamed f = record f { flow_id = "" }

-- What an adapter returned, by a function that forgets identifiers.
abbrev pub returned_as {ℓ} : {B : Type ℓ} → (B → B) → Result Stop B → Option B
returned_as forget (ok b) = some (forget b)
returned_as forget (err stop) = none

pub returned_as->>= :
    {A B : Type 0} (forget : B → B) (first : Result Stop A) (f g : A → Result Stop B)
    → ((a : A) → returned_as forget (f a) ≡ returned_as forget (g a))
    → returned_as forget (first >>= f) ≡ returned_as forget (first >>= g)
returned_as->>= forget (ok a) f g h = h a
returned_as->>= forget (err e) f g h = refl

module _ (py : Python) (takes_nan : Bool) where
  -- The flow of an entry, if it is a record of conn.log that the adapter takes.
  abbrev pub flow_in : Entry → Option Flow
  flow_in (raw r) =
      if r.log_type == "conn" then returned_as unnamed (convert_conn py takes_nan "" r) else none
  flow_in e = none

  unnamed-convert_conn :
      (flow_id : String) (r : RawZeekRecord)
      → returned_as unnamed (convert_conn py takes_nan flow_id r)
        ≡ returned_as unnamed (convert_conn py takes_nan "" r)
  unfolding convert_conn flow_of
  unnamed-convert_conn flow_id r =
      returned_as->>= unnamed (raise_if (not (r.log_type == "conn")) _) _ _ λ u.
        returned_as->>= unnamed (raise_if (lacks_required r.fields) _) _ _ λ u.
          returned_as->>= unnamed (required_of py r) _ _ λ required.
            returned_as->>= unnamed (optionals_of py r) _ _ λ o.
              returned_as->>= unnamed (raise_if (not (takes_uid (get "uid" r.fields))) _) _ _ λ u.
                returned_as->>= unnamed
                  (raise_if
                    (not (is_text (get "uid" r.fields) && fits_contract py takes_nan required o)) _)
                  _ _ λ u. refl

pub present-cons :
    {A : Type 0} (o : Option A) (os : List (Option A))
    → present (o ∷ os) ≡ present (o ∷ []) ++ present os
present-cons none os = refl
present-cons (some a) os = refl

-- The flows are longer by one, or as they were.
add_flow-unnamed :
    (s t : FirstPass) (result : Result Stop Flow)
    → add_flow s result ≡ ok t
    → map unnamed t.flows ≡ map unnamed s.flows ++ present (returned_as unnamed result ∷ [])
unfolding add_flow
add_flow-unnamed s t (ok f) h =
    ap (λ (q : FirstPass). map unnamed q.flows) (sym (ok-injective h))
    ∙ map-append unnamed s.flows (f ∷ [])
add_flow-unnamed s t (err (returned e)) h =
    ap (λ (q : FirstPass). map unnamed q.flows) (sym (ok-injective h))
    ∙ sym (append-nil (map unnamed s.flows))
add_flow-unnamed s t (err (passed raised)) h = cc

module _ (py : Python) (takes_nan : Bool) (is_ip : String → Bool) (fresh : ℕ → String)
    (acquisition_id : String) where
  same_flows :
      (s t : FirstPass)
      → ◌≡◌ {A = Result Failure FirstPass} (ok s) (ok t)
      → map unnamed t.flows ≡ map unnamed s.flows ++ []
  same_flows s t h =
      ap (λ (q : FirstPass). map unnamed q.flows) (sym (ok-injective h))
      ∙ sym (append-nil (map unnamed s.flows))

  first_step-flows :
      (e : Entry) (s t : FirstPass)
      → first_step py takes_nan is_ip fresh acquisition_id e s ≡ ok t
      → map unnamed t.flows ≡ map unnamed s.flows ++ present (flow_in py takes_nan e ∷ [])
  unfolding first_step
  first_step-flows (malformed e) s t h = same_flows s t h
  first_step-flows stopped s t h = cc
  first_step-flows (raw r) s t h = elim (Bool-cases (r.log_type == "conn")) [
    | inl e ↦ rw e (
        add_flow-unnamed s t (convert_conn py takes_nan (fresh s.drawn) r) (rw e at h)
        ∙ ap (λ o. map unnamed s.flows ++ present (o ∷ []))
            (unnamed-convert_conn py takes_nan (fresh s.drawn) r))
    | inr e ↦ rw e (same_flows s t (rw e at h))
  ]

  pub first_pass-flows :
      (entries : List Entry) (s t : FirstPass)
      → first_pass py takes_nan is_ip fresh acquisition_id entries s ≡ ok t
      → map unnamed t.flows ≡ map unnamed s.flows ++ present (map (flow_in py takes_nan) entries)
  unfolding first_pass
  first_pass-flows [] s t h = same_flows s t h
  first_pass-flows (e ∷ entries) s t h =
      let step = first_step py takes_nan is_ip fresh acquisition_id e s in
      let (m, one, rest) =
        >>=-eq-ok step (first_pass py takes_nan is_ip fresh acquisition_id entries) h in
      let now = present (flow_in py takes_nan e ∷ []) in
      let later = present (map (flow_in py takes_nan) entries) in
      first_pass-flows entries m t rest
      ∙ ap (λ fs. fs ++ later) (first_step-flows e s m one)
      ∙ append_assoc (map unnamed s.flows) now later
      ∙ ap (λ fs. map unnamed s.flows ++ fs)
          (sym (present-cons (flow_in py takes_nan e) (map (flow_in py takes_nan) entries)))
