-- ===== src/Correlation/Investigation/Rules/Sources.antt =====
-- Where the evidence that a verdict names comes from.
use net_sleuth_ai.Shared.{
  ◌+◌, All-append, All-map-select, String, true, ◌||◌, List, [], ◌≡◌, arith, ◌∷◌, ◌++◌, eq_refl,
  ltb, leb, eqb, any, select, elem, is_empty, length, lookup, if_ind, member, Option, none, some,
  is_some, refl, if_ind, All, All-weaken, set_of, All-set_of,
}
use net_sleuth_ai.Correlation.Domain.{ProtocolEvent, Flow, EvidenceIndex}
use net_sleuth_ai.Correlation.Investigation.Rules.{
  keep, Verdict, is_dns, is_web, is_outbound, destinations, ports, matched_flows, matched_events,
  verdict, ids_of, c2_verdict, dns_verdict, recon_verdict, exfiltration_verdict, web_verdict,
  unknown_verdict, was_rejected,
}
use net_sleuth_ai.Correlation.Investigation.Rules.Signals.{verdict_ind}

-- All evidence that a verdict names has the property.
abbrev pub Names : (String → Type 0) → Verdict → Type 0
Names P v = All P v.supporting × All P v.contradicting

module _ (P : String → Type 0) (flows : List (String × Flow))
    (events : List (String × ProtocolEvent)) (of_flows : All P (ids_of flows))
    (of_events : All P (ids_of events)) where
  c2_verdict-Names : Names P (c2_verdict flows events)
  unfolding c2_verdict
  c2_verdict-Names =
      if_ind (Names P)
        (leb 2 (length flows) || leb 2 (length events) || leb 2 (length flows + length events))
        (λ _. (
          All-set_of P (ids_of events ++ ids_of flows)
              (All-append P (ids_of events) (ids_of flows) of_events of_flows),
          tt,
        ))
        (λ _.
          if_ind (Names P) (any was_rejected flows)
            (λ _. (
              tt,
              All-set_of P (ids_of (select was_rejected flows))
                  (All-map-select P (λ p. p.0) was_rejected flows of_flows),
            ))
            (λ _.
              if_ind (Names P) (eqb (length flows) 1 || eqb (length events) 1) (λ _. (tt, tt))
                (λ _. (tt, tt))))

  dns_verdict-Names : Names P (dns_verdict events)
  unfolding dns_verdict
  dns_verdict-Names =
      if_ind (Names P) (is_empty (select is_dns events)) (λ _. (tt, tt))
        (λ _. (
          All-set_of P (ids_of (select is_dns events))
              (All-map-select P (λ p. p.0) is_dns events of_events),
          tt,
        ))

  recon_verdict-Names : Names P (recon_verdict flows)
  unfolding recon_verdict
  recon_verdict-Names =
      if_ind (Names P)
        (ltb 1 (length (set_of (destinations flows))) || ltb 1 (length (set_of (ports flows))))
        (λ _. (All-set_of P (ids_of flows) of_flows, tt)) (λ _. (tt, tt))

  exfiltration_verdict-Names : Names P (exfiltration_verdict flows)
  unfolding exfiltration_verdict
  exfiltration_verdict-Names =
      if_ind (Names P) (is_empty (ids_of (select is_outbound flows))) (λ _. (tt, tt))
        (λ _. (
          All-set_of P (ids_of (select is_outbound flows))
              (All-map-select P (λ p. p.0) is_outbound flows of_flows),
          tt,
        ))

  web_verdict-Names : Names P (web_verdict events)
  unfolding web_verdict
  web_verdict-Names =
      if_ind (Names P) (is_empty (select is_web events)) (λ _. (tt, tt))
        (λ _. (
          All-set_of P (ids_of (select is_web events))
              (All-map-select P (λ p. p.0) is_web events of_events),
          tt,
        ))

  pub verdict-Names : (type : String) → Names P (verdict type flows events)
  verdict-Names type =
      verdict_ind flows events (Names P) type c2_verdict-Names dns_verdict-Names recon_verdict-Names
        exfiltration_verdict-Names web_verdict-Names (λ _. unfold unknown_verdict in (tt, tt))

-- What is matched is among the hypothesis' evidence, and known to the index.
abbrev pub IsListed : EvidenceIndex → List String → String → Type 0
IsListed index ids i =
    (elem i ids ≡ true) × ((member i index.flows || member i index.events) ≡ true)

IsListed-cons :
    (index : EvidenceIndex) (j : String) (ids : List String) (i : String)
    → IsListed index ids i
    → IsListed index (j ∷ ids) i
IsListed-cons index j ids i h = (ground arith, h.1)

kept {ℓ} :
    {A : Type ℓ} (P : String → Type 0) (i : String) (o : Option A) (rest : List (String × A))
    → (is_some o ≡ true → P i)
    → All P (ids_of rest)
    → All P (ids_of (keep i o rest))
unfolding keep
kept P i none rest h r = r
kept P i (some a) rest h r = (h refl, r)

module _ (index : EvidenceIndex) where
  grow :
      (j : String) (ids names : List String)
      → All (IsListed index ids) names
      → All (IsListed index (j ∷ ids)) names
  grow j ids =
      All-weaken (IsListed index ids) (IsListed index (j ∷ ids)) (IsListed-cons index j ids)

  matched_flows-IsListed :
      (ids : List String) → All (IsListed index ids) (ids_of (matched_flows index ids))
  unfolding matched_flows
  matched_flows-IsListed [] = tt
  matched_flows-IsListed (i ∷ ids) =
      kept (IsListed index (i ∷ ids)) i (lookup i index.flows) (matched_flows index ids)
        (λ e. (ground (arith, eq_refl i), ground arith))
        (grow i ids (ids_of (matched_flows index ids)) (matched_flows-IsListed ids))

  matched_events-IsListed :
      (ids : List String) → All (IsListed index ids) (ids_of (matched_events index ids))
  unfolding matched_events
  matched_events-IsListed [] = tt
  matched_events-IsListed (i ∷ ids) =
      let rest = grow i ids (ids_of (matched_events index ids)) (matched_events-IsListed ids) in
      if_ind {A = List (String × ProtocolEvent)} (λ l. All (IsListed index (i ∷ ids)) (ids_of l))
        (member i index.flows) (λ _. rest)
        (λ _.
          kept (IsListed index (i ∷ ids)) i (lookup i index.events) (matched_events index ids)
            (λ e. (ground (arith, eq_refl i), ground arith)) rest)

-- The verdict on a hypothesis names only evidence that the hypothesis lists and the index holds.
pub verdict-IsListed :
    (index : EvidenceIndex) (type : String) (ids : List String)
    → Names (IsListed index ids) (verdict type (matched_flows index ids) (matched_events index ids))
verdict-IsListed index type ids =
    verdict-Names (IsListed index ids) (matched_flows index ids) (matched_events index ids)
      (matched_flows-IsListed index ids) (matched_events-IsListed index ids) type
