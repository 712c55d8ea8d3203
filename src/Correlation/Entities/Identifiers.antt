-- ===== src/Correlation/Entities/Identifiers.antt =====
-- Which identifiers an entity can have (`Entity.__post_init__` of backend/app/engines/correlation/
-- domain/entity.py).
use Prim.Native.Char.{Char, code}
use Prim.Native.String.{[] as end, ◌∷◌ as ◌∷∷◌, ◌++◌ as ◌+++◌}
use text.Mathlib.TextLemmas.{cons-append, nil-append, append-nil}
use net_sleuth_ai.Shared.{
  String, Bool, true, false, not, ◌&&◌, some, [], ◌∷◌, ◌==◌, ◌≡◌, refl, ap, ◌∙◌, arith, eqb, concat,
  append_nonempty, ok,
}
use net_sleuth_ai.Correlation.Entities.{split_colon, check_entity_id}

-- `":" not in text`
unfoldable pub colonless : String → Bool
colonless end = true
colonless (c ∷∷ s) = not (eqb (code c) b':') && colonless s

split_colon-cons :
    (c : Char) (u : String) → eqb (code c) b':' ≡ true → split_colon (c ∷∷ u) ≡ some (end, u)
unfolding split_colon
split_colon-cons c u h = rw h refl

-- The colon in front of a text.
colon_first : (u : String) → (":" +++ u) ≡ (":" ∷∷ u)
colon_first u = cons-append ":" end u ∙ ap (λ (t : String). ":" ∷∷ t) (nil-append u)

split_colon-append :
    (ns u : String) → colonless ns ≡ true → split_colon (ns +++ (":" +++ u)) ≡ some (ns, u)
unfolding split_colon colonless
split_colon-append end u h =
    rw (nil-append (":" +++ u), colon_first u) (split_colon-cons ":" u refl)
split_colon-append (c ∷∷ s) u h =
    let ih = split_colon-append s u (ground (arith, h)) in
    let other : eqb (code c) b':' ≡ false = ground (arith, h) in
    rw (cons-append c s (":" +++ u)) (rw (other, ih) refl)

-- An identifier of a namespace without a colon and a value, neither empty, is accepted.
pub check_entity_id-of_parts :
    (ns val : String)
    → colonless ns ≡ true
    → (ns == "") ≡ false
    → (val == "") ≡ false
    → check_entity_id (concat (ns ∷ ":" ∷ val ∷ [])) ≡ ok tt
unfolding check_entity_id concat
check_entity_id-of_parts ns val plain named valued =
    let whole = ns +++ (":" +++ (val +++ "")) in
    rw (append_nonempty ns (":" +++ (val +++ "")) named, split_colon-append ns (val +++ "") plain)
      (rw (append-nil val, named, valued) refl)
