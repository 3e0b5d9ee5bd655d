-- ===== src/Common/Text.antt =====
-- Text as the Go code builds it: `fmt.Sprintf` with %s and %d, `json.Marshal` of a list of strings,
-- and the splits of package `strings`.
use Prim.Native.Nat.{ℕ, zero, suc, ◌/◌, ◌%◌}
use Prim.Native.Char.{Char, code}
use Prim.Native.String
use Prim.Native.String.{String}
use mathlib.Core.Bool.{false, ◌||◌}
use mathlib.Core.Path.{◌≡◌, refl}
use mathlib.Core.Option.{Option, none, some}
use mathlib.Core.List.{List, [], ◌∷◌}
use text.Mathlib.TextLemmas.{nil-append, cons-append, append-nil}
use wto.Common.Lists.{get_elem?}
use wto.Common.Tests.{ltb, eqb, if◌then◌else◌}

-- The pieces of a format string and its arguments, put together.
abbrev pub concat : List String → String
concat [] = ""
concat (s ∷ rest) = String.◌++◌ s (concat rest)

-- The digits of both bases; 0 to 15 are the numbers that are looked up.
abbrev digits : List String
digits =
    "0" ∷ "1" ∷ "2" ∷ "3" ∷ "4" ∷ "5" ∷ "6" ∷ "7" ∷ "8" ∷ "9" ∷ "a" ∷ "b" ∷ "c" ∷ "d" ∷ "e" ∷ "f"
    ∷ []

digit : ℕ → String
digit n = elim (get_elem? digits n) [ none ↦ "" | some d ↦ d ]

show_fuel : ℕ → ℕ → String
show_fuel zero n = digit n
show_fuel (suc f) n =
    let longer = String.◌++◌ (show_fuel f (n / 10)) (digit (n % 10)) in
    if ltb n 10 then digit n else longer

-- %d of a number that is not negative. A number has fewer digits than its value plus one.
unfoldable pub show_nat : ℕ → String
unfolding show_fuel digit
show_nat n = show_fuel n n

show_nat_tests : (show_nat 0 ≡ "0") × (show_nat 1207 ≡ "1207")
unfolding show_nat
show_nat_tests = (refl, refl)

-- One character inside a JSON text, as encoding/json writes it with HTML escaping on.
json_char : Char → String
unfolding digit
json_char ch =
    let c = code ch in
    if eqb c b'"'
    then "\\\""
    else if eqb c 0x5c
    then "\\\\"
    else if eqb c 0x0a
    then "\\n"
    else if eqb c 0x0d
    then "\\r"
    else if eqb c 0x09
    then "\\t"
    else if eqb c 0x08
    then "\\b"
    else if eqb c 0x0c
    then "\\f"
    else if ltb c 0x20 || eqb c b'<' || eqb c b'>' || eqb c b'&'
    then concat ("\\u00" ∷ digit (c / 16) ∷ digit (c % 16) ∷ [])
    else if eqb c 0x2028
    then "\\u2028"
    else if eqb c 0x2029
    then "\\u2029"
    else String.◌∷◌ ch String.[]

json_chars : String → String
unfolding json_char
json_chars String.[] = ""
json_chars (String.◌∷◌ ch s) = String.◌++◌ (json_char ch) (json_chars s)

json_string : String → String
unfolding json_chars
json_string s = concat ("\"" ∷ json_chars s ∷ "\"" ∷ [])

json_items : List String → String
unfolding json_string
json_items [] = "]"
json_items (s ∷ rest) = concat ("," ∷ json_string s ∷ json_items rest ∷ [])

-- json.Marshal of a list of strings that is not nil.
unfoldable pub json_strings : List String → String
unfolding json_items
json_strings [] = "[]"
json_strings (s ∷ rest) = concat ("[" ∷ json_string s ∷ json_items rest ∷ [])

json_strings_test : json_strings ("a<\"" ∷ "b" ∷ []) ≡ "[\"a\\u003c\\\"\",\"b\"]"
unfolding json_strings
json_strings_test = refl

-- The text before the first `sep` and the text after it.
cut : ℕ → String → Option (String × String)
cut sep String.[] = none
cut sep (String.◌∷◌ c s) =
    let rest = cut sep s in
    if eqb (code c) sep
    then some ("", s)
    else elim rest [ none ↦ none | some (before, after) ↦ some (String.◌∷◌ c before, after) ]

abbrev pair_list : String → Option (String × String) → List String
pair_list s none = s ∷ []
pair_list s (some (before, after)) = before ∷ after ∷ []

-- strings.SplitN(s, "/", 2)
unfoldable pub split_slash : String → List String
unfolding cut
split_slash s = pair_list s (cut b'/' s)

split_from : ℕ → String → String → List String
split_from sep cur String.[] = cur ∷ []
split_from sep cur (String.◌∷◌ c s) =
    let closed = cur ∷ split_from sep "" s in
    let longer = split_from sep (String.◌++◌ cur (String.◌∷◌ c String.[])) s in
    if eqb (code c) sep then closed else longer

-- strings.Split(s, ".")
unfoldable pub split_dots : String → List String
unfolding split_from
split_dots s = split_from b'.' "" s

split_tests :
    (split_dots "spec.template" ≡ "spec" ∷ "template" ∷ [])
    × (split_slash "job/a/b" ≡ "job" ∷ "a/b" ∷ [])
    × (split_slash "job" ≡ "job" ∷ [])
unfolding split_dots split_slash
split_tests = (refl, refl, refl)

abbrev pub NoSlash : String → Type 0
NoSlash String.[] = Unit
NoSlash (String.◌∷◌ c s) = (eqb (code c) b'/' ≡ false) × NoSlash s

cut-append : (a b : String) → NoSlash a → cut b'/' (String.◌++◌ a (String.◌++◌ "/" b)) ≡ some (a, b)
unfolding cut
cut-append String.[] b h = rw nil-append (rw cons-append (rw nil-append))
cut-append (String.◌∷◌ c a) b (ne, h) =
    rw (cons-append c a (String.◌++◌ "/" b)) (rw (ne, cut-append a b h))

-- A name that is put together from two parts at a slash is taken apart at that slash.
pub split_slash-append :
    (a b : String) → NoSlash a → split_slash (concat (a ∷ "/" ∷ b ∷ [])) ≡ a ∷ b ∷ []
unfolding split_slash
split_slash-append a b h = rw append-nil (rw (cut-append a b h))
