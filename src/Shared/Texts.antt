-- ===== src/Shared/Texts.antt =====
-- Python's texts: comparison, joining, `str` of a number, and `lower` and `strip` over ASCII.
use Prim.Native.Nat.{ℕ, zero, suc, ◌+◌, ◌-◌, ◌/◌, ◌%◌, Ordering}
use Prim.Native.Char.{Char, code}
use Prim.Native.String.{String, [], ◌∷◌, ◌++◌, compare}
use Prim.Native.String.compare
use mathlib.Core.List.{List}
use mathlib.Core.Option.{Option, none, some}
use mathlib.Core.Option
use mathlib.Core.Path.{◌≡◌, refl, sym, ◌∙◌}
use mathlib.Core.Logic.{inl, inr}
use mathlib.Core.Bool.{Bool, true, false, ◌||◌, ◌&&◌}
use text.Mathlib.Text.{◌==◌, starts_with}
use text.Mathlib.TextEquality.{eq_iff}
use text.Mathlib.TextPositions.{compare_refl, eq_refl}
use text.Mathlib.TextLemmas.{cons-append}
use native.Mathlib.Omega.{arith}
use net_sleuth_ai.Shared.Tests.{Bool-cases, eqb, ltb, if◌then◌else◌}

-- One text is not two literals that differ.
pub ==-exclusive : (s a b : String) → (a == b) ≡ false → (s == a) ≡ true → (s == b) ≡ false
==-exclusive s a b d h = elim (Bool-cases (s == b)) [
  | inl e ↦ cc (d, (eq_iff a b).1 (sym ((eq_iff s a).0 h) ∙ (eq_iff s b).0 e))
  | inr e ↦ e
]

-- The order by which `sorted` compares texts.
abbrev pub text_leb : String → String → Bool
text_leb s t = elim (compare s t) [ Ordering.gt ↦ false | _ ↦ true ]

-- One of two texts is at most the other.
pub text_leb-total : (s t : String) → text_leb s t ≡ false → text_leb t s ≡ true
text_leb-total [] [] h = ground (arith, compare_refl [])
text_leb-total [] (d ∷ t) h = ground (arith, h, compare.nil-cons d t)
text_leb-total (c ∷ s) [] h = ground (arith, compare.nil-cons c s)
text_leb-total (c ∷ s) (d ∷ t) h =
    ground (arith, h, compare.cons-cons c d s t, compare.cons-cons d c t s, text_leb-total s t)

cons_nonempty : (c : Char) (s : String) → ((c ∷ s) == "") ≡ false
cons_nonempty c s = ground (arith, compare.cons-nil c s)

-- What begins with a text that is not empty is not empty.
pub append_nonempty : (t s : String) → (t == "") ≡ false → ((t ++ s) == "") ≡ false
append_nonempty [] s h = cc (h, eq_refl "")
append_nonempty (c ∷ t) s h = rw (cons-append c t s) (cons_nonempty c (t ++ s))

-- An f-string is the concatenation of its pieces.
unfoldable pub concat : List String → String
concat List.[] = ""
concat (List.◌∷◌ s rest) = s ++ concat rest

-- `sep.join(texts)`
unfoldable pub join : String → List String → String
join sep List.[] = ""
join sep (List.◌∷◌ s List.[]) = s
join sep (List.◌∷◌ s (List.◌∷◌ t rest)) = s ++ (sep ++ join sep (List.◌∷◌ t rest))

-- What stands before the suffix, if the text ends in it.
unfoldable pub before_suffix : String → String → Option String
before_suffix suffix [] = if "" == suffix then some "" else none
before_suffix suffix (c ∷ s) =
    let rest = before_suffix suffix s in
    if (c ∷ s) == suffix then some "" else Option.map (λ front. c ∷ front) rest

split_cons : Char → List String → List String
split_cons c List.[] = List.◌∷◌ (c ∷ "") List.[]
split_cons c (List.◌∷◌ s rest) = List.◌∷◌ (c ∷ s) rest

-- `text.split(",")`
unfoldable pub split_commas : String → List String
unfolding split_cons
split_commas [] = List.◌∷◌ "" List.[]
split_commas (c ∷ s) =
    let rest = split_commas s in if eqb (code c) 44 then List.◌∷◌ "" rest else split_cons c rest

-- `text[:n]`
unfoldable pub prefix : ℕ → String → String
prefix zero s = ""
prefix (suc n) [] = ""
prefix (suc n) (c ∷ s) = c ∷ prefix n s

text_length : String → ℕ
text_length [] = 0
text_length (c ∷ s) = suc (text_length s)

-- `skip` characters of an occurrence are still to pass.
replace_from : String → String → ℕ → String → String
replace_from old new skip [] = ""
replace_from old new skip (c ∷ s) =
    let here = eqb skip 0 && starts_with (c ∷ s) old in
    (if here then new else if eqb skip 0 then c ∷ "" else "")
    ++ replace_from old new (if here then text_length old - 1 else skip - 1) s

-- `text.replace(old, new)` for an `old` that is not empty
unfoldable pub replace : String → String → String → String
unfolding text_length replace_from
replace old new s = replace_from old new 0 s

digit : ℕ → String
digit n =
    if eqb n 0
    then "0"
    else if eqb n 1
    then "1"
    else if eqb n 2
    then "2"
    else if eqb n 3
    then "3"
    else if eqb n 4
    then "4"
    else if eqb n 5
    then "5"
    else if eqb n 6
    then "6"
    else if eqb n 7
    then "7"
    else if eqb n 8
    then "8"
    else "9"

digits : ℕ → ℕ → String
digits zero n = ""
digits (suc fuel) n =
    let rest = digits fuel (n / 10) in if ltb n 10 then digit n else rest ++ digit (n % 10)

-- `str(n)`: a number has no more digits than its own value plus one.
unfoldable pub decimal : ℕ → String
unfolding digit digits
decimal n = digits (n + 1) n

-- `f"{x:.2f}"` of a number of hundredths
abbrev pub two_places : ℕ → String
two_places n = concat (
    List.◌∷◌ (decimal (n / 100))
      (List.◌∷◌ "." (List.◌∷◌ (decimal (n % 100 / 10)) (List.◌∷◌ (decimal (n % 10)) List.[]))))

-- `f"{x:.1f}"` of a number of hundredths: a half goes to the even digit.
abbrev pub one_place : ℕ → String
one_place n =
    let q = n / 10 in
    let r = n % 10 in
    let tenths = if ltb 5 r || (eqb r 5 && eqb (q % 2) 1) then q + 1 else q in
    concat
      (List.◌∷◌ (decimal (tenths / 10)) (List.◌∷◌ "." (List.◌∷◌ (decimal (tenths % 10)) List.[])))

-- The character that stands in `to` where `c` stands in `from`.
translate : Char → String → String → Char
translate c [] to = c
translate c (u ∷ from) [] = c
translate c (u ∷ from) (l ∷ to) = if eqb (code c) (code u) then l else translate c from to

unfoldable pub lower : String → String
unfolding translate
lower [] = []
lower (c ∷ s) = translate c "ABCDEFGHIJKLMNOPQRSTUVWXYZ" "abcdefghijklmnopqrstuvwxyz" ∷ lower s

unfoldable pub upper : String → String
unfolding translate
upper [] = []
upper (c ∷ s) = translate c "abcdefghijklmnopqrstuvwxyz" "ABCDEFGHIJKLMNOPQRSTUVWXYZ" ∷ upper s

is_blank : Char → Bool
is_blank c = eqb (code c) 32 || (ltb 8 (code c) && ltb (code c) 14)

lstrip : String → String
lstrip [] = []
lstrip (c ∷ s) = if is_blank c then lstrip s else c ∷ s

-- A character in front of a text that has been stripped at its end.
put_front : Char → String → String
put_front c [] = if is_blank c then [] else c ∷ []
put_front c (d ∷ s) = c ∷ (d ∷ s)

rstrip : String → String
rstrip [] = []
rstrip (c ∷ s) = put_front c (rstrip s)

unfoldable pub strip : String → String
unfolding is_blank lstrip put_front rstrip
strip s = rstrip (lstrip s)

text_runs :
    concat (List.◌∷◌ (decimal 407) (List.◌∷◌ (strip (lower "  Open\n")) List.[])) ≡ "407open"
unfolding concat decimal strip lower
text_runs = refl

split_run : concat (split_commas "a,b,") ≡ "ab"
unfolding concat split_commas
split_run = refl

suffix_run : before_suffix ".log" "conn.log" ≡ some "conn"
unfolding before_suffix
suffix_run = refl

prefix_run : prefix 2 "abc" ≡ "ab"
unfolding prefix
prefix_run = refl

replace_run : replace "+00:00" "Z" "2024-05-01T10:00:00+00:00" ≡ "2024-05-01T10:00:00Z"
unfolding replace
replace_run = refl
