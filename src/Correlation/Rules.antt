-- ===== src/Correlation/Rules.antt =====
-- `apply_rules` and `CorrelationEngine.correlate`
-- (backend/app/engines/correlation/correlation/rules.py and correlation_engine.py).
pub mod Graph
pub mod Repeat
pub mod Preservation
mod Examples
use net_sleuth_ai.Shared.{
  String, Bool, ◌&&◌, ◌||◌, none, some, List, [], ◌∷◌, ◌++◌, map, ◌==◌, leb, if◌then◌else◌, any,
  elem, select, sort_by, concat,
}
use net_sleuth_ai.Correlation.Entities.{Entity, Relationship, InvestigationContext}
use net_sleuth_ai.Correlation.Investigation.Context.{TimelineEvent}

-- The arguments of a call of `add_rel`.
pub record Link : Type 0 where
  pub src : String
  pub tgt : String
  pub rel_type : String
  pub reason : String

abbrev pub is_link : String → String → String → Relationship → Bool
is_link src tgt rel_type r =
    r.source_entity_id == src && r.target_entity_id == tgt && r.relationship_type == rel_type

pub relation_exists : List Relationship → List Relationship → String → String → String → Bool
relation_exists old new src tgt rel_type =
    any (is_link src tgt rel_type) old || any (is_link src tgt rel_type) new

-- No identifier of an entity is empty, so the checks of `Relationship` pass.
abbrev pub relationship : Link → Relationship
relationship l = record {
  relationship_id = concat ("rel-" ∷ l.src ∷ "-" ∷ l.rel_type ∷ "-" ∷ l.tgt ∷ []);
  source_entity_id = l.src;
  relationship_type = l.rel_type;
  target_entity_id = l.tgt;
  confidence = 100;
  evidence_ids = [];
  first_seen = none;
  last_seen = none;
  reason = some l.reason;
}

-- `old` are the relationships of the context, `new` those that the rules have added.
pub add_rel : List Relationship → Link → List Relationship → List Relationship
add_rel old l new =
    if relation_exists old new l.src l.tgt l.rel_type then new else new ++ relationship l ∷ []

pub add_rels : List Relationship → List Link → List Relationship → List Relationship
add_rels old [] new = new
add_rels old (l ∷ ls) new = add_rels old ls (add_rel old l new)

abbrev pub of_type : String → List Entity → List Entity
of_type type = select (λ e. e.entity_type == type)

abbrev pub link : String → String → Entity → Entity → Link
link rel_type reason a b = record {
  src = a.entity_id;
  tgt = b.entity_id;
  rel_type = rel_type;
  reason = reason;
}

-- The first address with each of the others.
unfoldable pub communications : List Entity → List Link
communications [] = []
communications (first ∷ ips) =
    map (link "communicates_with" "Observed bilateral IP traffic." first) ips

-- `for a in xs: for b in ys`
unfoldable pub pairs : (Entity → Entity → Link) → List Entity → List Entity → List Link
pairs f [] ys = []
pairs f (x ∷ xs) ys = map (f x) ys ++ pairs f xs ys

unfoldable pub associations : List Entity → List Entity → List Entity → List Link
associations [] ips domains = []
associations (f ∷ fs) ips domains =
    map (link "associated_with" "Finding involves IP asset." f) ips
    ++ (map (link "associated_with" "Finding involves domain asset." f) domains
        ++ associations fs ips domains)

-- The calls of `add_rel`, in order.
pub rule_links : List Entity → List Link
rule_links entities =
    let ips = of_type "ip" entities in
    let domains = of_type "domain" entities in
    communications ips
    ++ (pairs (link "queries_domain" "IP resolved or queried domain.") ips domains
        ++ (pairs (link "downloads_artifact" "IP transferred artifact file.") ips
              (of_type "artifact" entities)
            ++ associations (of_type "finding" entities) ips domains))

-- `id in entities_by_id`
abbrev pub is_entity : List Entity → String → Bool
is_entity entities id = elem id (map (λ e. e.entity_id) entities)

abbrev pub is_anchored : List Entity → Relationship → Bool
is_anchored entities r =
    is_entity entities r.source_entity_id && is_entity entities r.target_entity_id

abbrev pub no_later : TimelineEvent → TimelineEvent → Bool
no_later a b = leb a.timestamp.moment b.timestamp.moment

pub apply_rules : InvestigationContext → InvestigationContext
apply_rules ctx = record ctx {
  relationships =
      select (is_anchored ctx.entities) ctx.relationships
      ++ add_rels ctx.relationships (rule_links ctx.entities) [];
  timeline_events = sort_by no_later ctx.timeline_events;
}

unfoldable pub correlate : InvestigationContext → InvestigationContext
correlate = apply_rules
