-- ===== src/Acquisition/Examples.antt =====
-- Runs of the acquisition on small files.
use net_sleuth_ai.Shared.{
  ℕ, true, none, some, List, [], ◌∷◌, ◌++◌, ◌≡◌, refl, append-nil, append_assoc, lower, decimal,
  length, ok, err,
}
use net_sleuth_ai.Acquisition.{
  invalid_capture, hash_failure, other_os_error, ResolvedPath, HashAlgorithm, format_of, acquire,
}
use net_sleuth_ai.Acquisition.Contract.{IsCapture, reference_of, acquire-returns_iff}

-- A stand-in for a digest: it counts.
abbrev counting : HashAlgorithm
counting = record {
  State = List ℕ;
  new = [];
  update = λ s bytes. s ++ bytes;
  hexdigest = λ s. decimal (length s);
  update_nothing = append-nil;
  update_append = append_assoc;
}

abbrev bytes : List ℕ
bytes = 212 ∷ 195 ∷ 178 ∷ 161 ∷ 2 ∷ 0 ∷ []

abbrev capture : ResolvedPath
capture = record {
  path = "/evidence/day.PCAP";
  exists = true;
  is_file = true;
  suffix = ".PCAP";
  name = "day.PCAP";
  st_size = some 6;
  opened = ok (record { bytes = bytes; fault = none });
}

abbrev torn : ResolvedPath
torn = record capture { opened = ok (record { bytes = bytes; fault = some other_os_error }) }

abbrev renamed : ResolvedPath
renamed = record capture { opened = ok (record { bytes = 80 ∷ 75 ∷ 3 ∷ 4 ∷ []; fault = none }) }

-- A file that breaks after its mark is found out when it is hashed.
torn_run : acquire counting "A" "E" (some torn) ≡ err hash_failure
unfolding acquire lower
torn_run = refl

renamed_run : acquire counting "A" "E" (some renamed) ≡ err invalid_capture
unfolding acquire lower
renamed_run = refl

is_capture : IsCapture (some capture)
unfolding lower format_of
is_capture = record {
  resolved = capture;
  resolves = refl;
  existing = refl;
  regular = refl;
  supported = refl;
  size = 6;
  sized = refl;
  filled = refl;
  bytes = bytes;
  intact = refl;
  format = "pcap";
  recognised = refl;
}

acquire-returns_iff_example :
    acquire counting "A" "E" (some capture) ≡ ok (reference_of counting "A" "E" is_capture)
acquire-returns_iff_example =
    (acquire-returns_iff counting "A" "E" (some capture)
        (reference_of counting "A" "E" is_capture)).1
      (is_capture, refl)
