-- ===== src/Packets/Samples.antt =====
-- A host, logs and identifiers that the tests of the packet engine share
-- (backend/app/engines/packet_intelligence).
use net_sleuth_ai.Shared.{
  ℕ, zero, suc, ◌+◌, String, true, false, Option, none, some, [], ◌∷◌, ◌==◌, ◌≡◌, refl, ap, arith,
  if◌then◌else◌, append_nonempty,
}
use Prim.Native.String.len
use Prim.Native.String.{len}
use Prim.Native.String
use package.text.Mathlib.TextPositions.{len-append}
use net_sleuth_ai.Correlation.Domain.{finite, whole, Flow, dns_data, ProtocolEvent}
use net_sleuth_ai.Correlation.Samples.{at}
use net_sleuth_ai.Packets.Json.{
  Json, Fields, no_field, field, no_value, value, integer, real, text, array, object, Python,
}
use net_sleuth_ai.Packets.Runner.{Host, exited}
use net_sleuth_ai.Packets.Zeek.{complete}
use net_sleuth_ai.Packets.Process.Drawn.{IsSupply}

-- Identifiers of growing length.
unfoldable pub unary : ℕ → String
unary zero = "u"
unary (suc n) = (String.◌++◌) "u" (unary n)

len-unary : (n : ℕ) → len (unary n) ≡ n + 1
unfolding unary
len-unary zero = refl
len-unary (suc n) = omega (arith, len-append "u" (unary n), len-unary n)

unary-not_empty : (n : ℕ) → (unary n == "") ≡ false
unfolding unary
unary-not_empty zero = refl
unary-not_empty (suc n) = append_nonempty "u" (unary n) refl

pub unary-IsSupply : IsSupply unary
unary-IsSupply = record {
  injective = λ i j h. omega (arith, len-unary i, len-unary j, ap len h);
  not_empty = unary-not_empty;
}

abbrev pub python : Python
python = record {
  read_float = λ s. none;
  read_int = λ s. none;
  shown = λ v. "";
  last_second = 9000000000000000000;
}

abbrev pub conn_line : Fields
conn_line = field "ts" (real (finite false 1700000000250000)) (
    field "uid" (text "C1") (
      field "id.orig_h" (text "10.0.0.5") (
        field "id.orig_p" (integer (whole false 40000)) (
          field "id.resp_h" (text "203.0.113.53") (
            field "id.resp_p" (integer (whole false 53))
              (field "proto" (text "udp") (field "service" (text "-") no_field)))))))

abbrev pub dns_line : Fields
dns_line = field "ts" (integer (whole false 1700000001)) (
    field "uid" (text "C1") (
      field "query" (text "evil.example") (
        field "answers" (array (value (text "203.0.113.9") (value (text "-") no_value))) no_field)))

-- The lines of the sample, by their first letter.
abbrev pub loads : String → Option Json
loads s =
    if s == "conn"
    then some (object conn_line)
    else if s == "dns"
    then some (object dns_line)
    else none

abbrev pub host : Host
host = record {
  docker_on_path = true;
  docker_info = exited (whole false 0);
  zeek_version = exited (whole false 0);
  resolve = λ path. some (record { parts = "/" ∷ "evidence" ∷ path ∷ []; exists = true });
  makes_directory = true;
  execution = exited (whole false 0);
  listing = some (("dns.log", true) ∷ ("old", false) ∷ ("conn.log", true) ∷ []);
  output_directory = some (
      ("conn.log", record { lines = "# fields" ∷ "conn" ∷ "{" ∷ []; ending = complete })
      ∷ ("dns.log", record { lines = " dns " ∷ []; ending = complete })
      ∷ []);
  allowed_evidence_roots = ("/" ∷ "tmp" ∷ []) ∷ ("/" ∷ "evidence" ∷ []) ∷ [];
}

-- What the adapters make of the two lines.
abbrev pub flow : Flow
flow = record {
  flow_id = "u";
  zeek_uid = "C1";
  acquisition_id = "acq";
  timestamp = at 63835596800250000;
  start_time = some (at 63835596800250000);
  end_time = none;
  source = record { ip = "10.0.0.5"; port = 40000 };
  destination = record { ip = "203.0.113.53"; port = 53 };
  protocol = "udp";
  service = none;
  duration = none;
  orig_bytes = none;
  resp_bytes = none;
  orig_packets = none;
  resp_packets = none;
  connection_state = none;
}

abbrev pub event : ProtocolEvent
event = record {
  event_id = "uuu";
  flow_id = "u";
  zeek_uid = "C1";
  acquisition_id = "acq";
  timestamp = at 63835596801000000;
  protocol = "dns";
  protocol_data = dns_data (record {
    query = some "evil.example";
    query_type = none;
    answers = "203.0.113.9" ∷ [];
    response_code = none;
  });
}
