-- ===== src/Correlation/Observations.antt =====
-- What a protocol event shows on the timeline: the branches of the loop over the events in
-- `TimelineReconstructor.reconstruct` (backend/app/engines/correlation/timeline/builder.py). An empty
-- text counts as missing where Python tests it.
use net_sleuth_ai.Shared.{
  String, Bool, false, not, ◌||◌, Option, none, some, List, [], ◌∷◌, ◌==◌, if◌then◌else◌, lookup,
  concat, strip,
}
use net_sleuth_ai.Correlation.Domain.{
  ProtocolData, dns_data, http_data, tls_data, other_data, ProtocolEvent,
}

-- `x or y` of two texts that may be missing
abbrev pub or_else : Option String → Option String → Option String
or_else (some s) other = if s == "" then other else some s
or_else none other = other

-- `bool(x)` and the text that an f-string shows
abbrev pub is_given : Option String → Bool
is_given none = false
is_given (some s) = not (s == "")

abbrev pub shown : Option String → String
shown none = "None"
shown (some s) = s

-- `p_data.get("query") or getattr(event.protocol_data, "query", None)`
pub dns_query : ProtocolData → Option String
dns_query (dns_data d) = or_else d.query d.query
dns_query (other_data d) = or_else (lookup "query" d) none
dns_query _ = none

-- An object without the field has the default, the empty text.
pub http_method : ProtocolData → Option String
http_method (http_data d) = or_else d.method d.method
http_method (other_data d) = or_else (lookup "method" d) (some "")
http_method _ = some ""

pub http_uri : ProtocolData → Option String
http_uri (http_data d) = or_else d.uri d.uri
http_uri (other_data d) = or_else (lookup "uri" d) (some "")
http_uri _ = some ""

pub tls_sni : ProtocolData → Option String
tls_sni (tls_data d) = or_else d.server_name d.server_name
tls_sni (other_data d) = or_else (lookup "server_name" d) none
tls_sni _ = none

-- The local variables of an event that is worth showing, and the event.
pub record Observation : Type 0 where
  pub event : ProtocolEvent
  pub dedupe_key : String
  pub title : String
  pub description : String
  pub ref_entities : List String

abbrev named : ProtocolEvent → String → String → String → String → Observation
named e prefix title text name = record {
  event = e;
  dedupe_key = concat (prefix ∷ name ∷ []);
  title = title;
  description = text;
  ref_entities = concat ("domain:" ∷ name ∷ []) ∷ [];
}

-- `p_data` is empty for an empty `dict` only, which has none of the entries.
unfoldable pub observed : ProtocolEvent → Option Observation
unfolding dns_query http_method http_uri tls_sni
observed e =
    let q = dns_query e.protocol_data in
    let method = http_method e.protocol_data in
    let uri = http_uri e.protocol_data in
    let sni = tls_sni e.protocol_data in
    if e.protocol == "dns"
    then if is_given q
      then some (
          named e "dns:" "DNS Query Observed"
            (concat ("DNS resolution query for " ∷ shown q ∷ " — external domain look-up" ∷ []))
            (shown q))
      else none
    else if e.protocol == "http"
    then if is_given method || is_given uri
      then some (record {
        event = e;
        dedupe_key = concat ("http:" ∷ shown method ∷ ":" ∷ shown uri ∷ []);
        title = strip (concat ("HTTP " ∷ shown method ∷ " Communication" ∷ []));
        description =
            concat
              ("HTTP " ∷ shown method ∷ " request to " ∷ shown uri ∷ " — application traffic" ∷ []);
        ref_entities = [];
      })
      else none
    else if e.protocol == "tls"
    then if is_given sni
      then some (
          named e "tls:" "TLS Encrypted Session"
            (concat
              ("TLS session established with SNI " ∷ shown sni ∷ " — encrypted connection" ∷ []))
            (shown sni))
      else none
    else none
