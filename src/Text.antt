-- ===== src/Text.antt =====
-- The functions of Go's package strings that the program uses, on texts of runes. The lower case is
-- that of the letters of ASCII.
use Prim.Native.Char.{Char, code}
use pkd_server_go.Prelude.{
  ℕ, ◌-◌, String, Bool, true, false, not, ◌&&◌, ◌||◌, List, [], ◌∷◌, Option, none, some, leb, eqb,
  is_some, ◌==◌, select, if◌then◌else◌,
}
use pkd_server_go.Encoding.{char_of}
use pkd_server_go.Signing.{cut_prefix}

abbrev is_empty : String → Bool
is_empty String.[] = true
is_empty (String.◌∷◌ c s) = false

-- unicode.IsSpace
unfoldable pub is_space : ℕ → Bool
is_space c =
    leb 9 c && leb c 13
    || eqb c 32
    || eqb c 0x85
    || eqb c 0xa0
    || eqb c 0x1680
    || leb 0x2000 c && leb c 0x200a
    || eqb c 0x2028
    || eqb c 0x2029
    || eqb c 0x202f
    || eqb c 0x205f
    || eqb c 0x3000

unfoldable pub trim_left : (ℕ → Bool) → String → String
trim_left p String.[] = ""
trim_left p (String.◌∷◌ c s) =
    let rest = trim_left p s in if p (code c) then rest else String.◌∷◌ c s

unfoldable pub trim_right : (ℕ → Bool) → String → String
trim_right p String.[] = ""
trim_right p (String.◌∷◌ c s) =
    let rest = trim_right p s in if p (code c) && is_empty rest then "" else String.◌∷◌ c rest

-- strings.TrimSpace, and strings.Trim with the quote as its cutset
abbrev pub trim : (ℕ → Bool) → String → String
trim p s = trim_right p (trim_left p s)

unfoldable pub has_suffix : String → String → Bool
has_suffix suffix String.[] = suffix == ""
has_suffix suffix (String.◌∷◌ c s) = suffix == String.◌∷◌ c s || has_suffix suffix s

unfoldable pub contains : String → String → Bool
contains part String.[] = part == ""
contains part (String.◌∷◌ c s) = is_some (cut_prefix part (String.◌∷◌ c s)) || contains part s

abbrev add_rune : Char → List String → List String
add_rune c [] = String.◌∷◌ c "" ∷ []
add_rune c (s ∷ rest) = String.◌∷◌ c s ∷ rest

-- strings.Split, at every rune that passes the test
unfoldable pub split : (ℕ → Bool) → String → List String
split p String.[] = "" ∷ []
split p (String.◌∷◌ c s) = let rest = split p s in if p (code c) then "" ∷ rest else add_rune c rest

-- strings.Fields
unfoldable pub fields : String → List String
fields s = select (λ x. not (is_empty x)) (split is_space s)

-- strings.SplitN with a separator of one rune and at most two parts: `none` where there is one part
unfoldable pub cut : ℕ → String → Option (String × String)
cut sep String.[] = none
cut sep (String.◌∷◌ c s) =
    if eqb (code c) sep
    then some ("", s)
    else elim (cut sep s) [ none ↦ none | some (left, right) ↦ some (String.◌∷◌ c left, right) ]

abbrev lower_rune : Char → Char
lower_rune c =
    if leb b'A' (code c) && leb (code c) b'Z'
    then char_of "abcdefghijklmnopqrstuvwxyz" (code c - 65)
    else c

unfoldable pub to_lower : String → String
to_lower String.[] = ""
to_lower (String.◌∷◌ c s) = String.◌∷◌ (lower_rune c) (to_lower s)
