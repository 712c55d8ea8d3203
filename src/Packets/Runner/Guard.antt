-- ===== src/Packets/Runner/Guard.antt =====
-- That Zeek only runs on captures in the allowed folders
-- (backend/app/engines/packet_intelligence/zeek/runner.py).
use net_sleuth_ai.Shared.{
  String, true, Option, none, some, List, [], ◌∷◌, ◌++◌, any, ◌≡◌, refl, sym, ap, arith, eq_iff, ok,
  >>=-eq-ok, >>-eq-ok, ok-injective, ◌⊎◌, inl, inr, Bool-cases,
}
use net_sleuth_ai.Packets.Zeek.{ZeekRunnerResult}
use net_sleuth_ai.Packets.Runner.{
  Host, Resolved, is_under, resolved_or_fail, check_resolved, validate_input_path,
  directory_entries, run_zeek,
}

-- The path continues one of the roots.
abbrev pub LiesIn : List (List String) → List String → Type 0
LiesIn [] path = ⊥
LiesIn (root ∷ roots) path = ((rest : List String) × (path ≡ root ++ rest)) ⊎ LiesIn roots path

-- A path at which something exists, a file or a folder, in a folder that is allowed.
pub record IsAllowed (host : Host) (capture_reference : String) : Type 0 where
  pub resolved : Resolved
  pub resolves : host.resolve capture_reference ≡ some resolved
  pub exists : resolved.exists ≡ true
  pub inside : LiesIn host.allowed_evidence_roots resolved.parts

is_under-prefix :
    (root path : List String)
    → is_under root path ≡ true
    → (rest : List String) × (path ≡ root ++ rest)
unfolding is_under
is_under-prefix [] path h = (path, refl)
is_under-prefix (r ∷ root) [] h = cc
is_under-prefix (r ∷ root) (p ∷ path) h =
    let (rest, e) = is_under-prefix root path (ground (arith, h)) in
    let same = (eq_iff r p).0 (ground (arith, h)) in (rest, cc (e, same))

LiesIn-of_any :
    (roots : List (List String)) (path : List String)
    → any (λ root. is_under root path) roots ≡ true
    → LiesIn roots path
LiesIn-of_any [] path h = cc
LiesIn-of_any (root ∷ roots) path h = elim (Bool-cases (is_under root path)) [
  | inl e ↦ inl (is_under-prefix root path e)
  | inr e ↦ inr (LiesIn-of_any roots path (ground (arith, h, e)))
]

resolved_or_fail-eq : (o : Option Resolved) (r : Resolved) → resolved_or_fail o ≡ ok r → o ≡ some r
resolved_or_fail-eq none r h = cc
resolved_or_fail-eq (some q) r h = ap some (ok-injective h)

check_resolved-eq-ok :
    (host : Host) (resolved : Resolved) (path : List String)
    → check_resolved host resolved ≡ ok path
    → (resolved.exists ≡ true) × LiesIn host.allowed_evidence_roots resolved.parts
unfolding check_resolved
check_resolved-eq-ok host resolved path h = (
  ground (arith, h),
  LiesIn-of_any host.allowed_evidence_roots resolved.parts (ground (arith, h)),
)

validate_input_path-IsAllowed :
    (host : Host) (capture_reference : String) (path : List String)
    → validate_input_path host capture_reference ≡ ok path
    → IsAllowed host capture_reference
unfolding validate_input_path
validate_input_path-IsAllowed host capture_reference path h =
    let (resolved, e, checks) =
      >>=-eq-ok (resolved_or_fail (host.resolve capture_reference)) (check_resolved host) h in
    let (there, inside) = check_resolved-eq-ok host resolved path checks in
    record {
      resolved = resolved;
      resolves = resolved_or_fail-eq (host.resolve capture_reference) resolved e;
      exists = there;
      inside = inside;
    }

-- If `ZeekRunner.run` returns, then the capture is a path at which something exists, a file or a
-- folder; the path continues one of the allowed folders; and the result is about the acquisition
-- that was asked for.
pub run_zeek-IsAllowed :
    (host : Host) (acquisition_id capture_reference : String) (result : ZeekRunnerResult)
    → run_zeek host acquisition_id capture_reference ≡ ok result
    → IsAllowed host capture_reference × (result.acquisition_id ≡ acquisition_id)
unfolding run_zeek
run_zeek-IsAllowed host acquisition_id capture_reference result h =
    let (_, version) = >>-eq-ok _ _ h in
    let (_, input) = >>-eq-ok _ _ version in
    let (path, valid, directory) = >>=-eq-ok (validate_input_path host capture_reference) _ input in
    let (_, run) = >>-eq-ok _ _ directory in
    let (_, listing) = >>-eq-ok _ _ run in
    let (entries, _, made) = >>=-eq-ok (directory_entries host.listing) _ listing in
    (
      validate_input_path-IsAllowed host capture_reference path valid,
      ap (λ (r : ZeekRunnerResult). r.acquisition_id) (sym (ok-injective made)),
    )
