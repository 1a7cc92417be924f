-- ===== src/Encoding.antt =====
-- Base64 of encoding/base64, as the program uses it: RawURLEncoding and StdEncoding.
use Prim.Native.Char.{Char, code}
use pkd_server_go.Prelude.{
  ℕ, zero, suc, ◌+◌, ◌-◌, ◌*◌, ◌/◌, ◌%◌, String, ◌&&◌, ◌||◌, List, [], ◌∷◌, ◌++◌, Option, none,
  some, leb, eqb, if◌then◌else◌,
}
pub mod RoundTrip

abbrev pub alphabet : String
alphabet = "ABCDEFGHIJKLMNOPQRSTUVWXYZabcdefghijklmnopqrstuvwxyz0123456789-_"

-- the character at a place, and A outside the text
unfoldable pub char_of : String → ℕ → Char
char_of String.[] i = "A"
char_of (String.◌∷◌ c s) zero = c
char_of (String.◌∷◌ c s) (suc i) = char_of s i

abbrev pub encode_digit : ℕ → Char
encode_digit d = char_of alphabet d

-- RawURLEncoding.EncodeToString
unfoldable pub encode_raw_url : List ℕ → String
encode_raw_url [] = ""
encode_raw_url (a ∷ []) =
    String.◌∷◌ (encode_digit (a / 4)) (String.◌∷◌ (encode_digit (a % 4 * 16)) "")
encode_raw_url (a ∷ b ∷ []) =
    String.◌∷◌ (encode_digit (a / 4))
      (String.◌∷◌ (encode_digit (a % 4 * 16 + b / 16)) (String.◌∷◌ (encode_digit (b % 16 * 4)) ""))
encode_raw_url (a ∷ b ∷ c ∷ rest) = String.◌∷◌ (encode_digit (a / 4)) (
    String.◌∷◌ (encode_digit (a % 4 * 16 + b / 16)) (
      String.◌∷◌ (encode_digit (b % 16 * 4 + c / 64))
        (String.◌∷◌ (encode_digit (c % 64)) (encode_raw_url rest))))

-- the value of a character of the URL alphabet
unfoldable pub decode_digit : ℕ → Option ℕ
decode_digit c =
    if leb b'A' c && leb c b'Z'
    then some (c - 65)
    else if leb b'a' c && leb c b'z'
    then some (c - 71)
    else if leb b'0' c && leb c b'9'
    then some (c + 4)
    else if eqb c 45
    then some 62
    else if eqb c 95
    then some 63
    else none

-- the values of the characters; the decoder skips line ends
unfoldable pub digits_of : String → Option (List ℕ)
digits_of String.[] = some []
digits_of (String.◌∷◌ c s) = elim (digits_of s) [
  | none ↦ none
  | some ds ↦
      if eqb (code c) 10 || eqb (code c) 13
      then some ds
      else elim (decode_digit (code c)) [ none ↦ none | some d ↦ some (d ∷ ds) ]
]

-- four characters are three bytes; the spare bits of the last one are not checked
unfoldable pub pack : List ℕ → Option (List ℕ)
pack [] = some []
pack (a ∷ []) = none
pack (a ∷ b ∷ []) = some ((a * 4 + b / 16) ∷ [])
pack (a ∷ b ∷ c ∷ []) = some ((a * 4 + b / 16) ∷ (b % 16 * 16 + c / 4) ∷ [])
pack (a ∷ b ∷ c ∷ d ∷ rest) = elim (pack rest) [
  | none ↦ none
  | some bytes ↦ some ((a * 4 + b / 16) ∷ (b % 16 * 16 + c / 4) ∷ (c % 4 * 64 + d) ∷ bytes)
]

-- RawURLEncoding.DecodeString
unfoldable pub decode_raw_url : String → Option (List ℕ)
decode_raw_url s = elim (digits_of s) [ none ↦ none | some ds ↦ pack ds ]

-- the value of a character of the standard alphabet
unfoldable pub decode_std_digit : ℕ → Option ℕ
decode_std_digit c =
    if eqb c 43
    then some 62
    else if eqb c 47
    then some 63
    else if eqb c 45 || eqb c 95
    then none
    else decode_digit c

unfoldable pub codes_of : String → List ℕ
codes_of String.[] = []
codes_of (String.◌∷◌ c s) =
    let rest = codes_of s in if eqb (code c) 10 || eqb (code c) 13 then rest else code c ∷ rest

abbrev digits : List ℕ → Option (List ℕ)
digits [] = some []
digits (c ∷ cs) = elim (decode_std_digit c) [
  | none ↦ none
  | some d ↦ elim (digits cs) [ none ↦ none | some ds ↦ some (d ∷ ds) ]
]

abbrev pack_last : Option (List ℕ) → List ℕ → Option (List ℕ)
pack_last none rest = none
pack_last (some ds) [] = pack ds
pack_last (some ds) (c ∷ cs) = none

-- four characters are three bytes; the last four may end in one or two `=`
unfoldable pub pack_std : List ℕ → Option (List ℕ)
pack_std [] = some []
pack_std (a ∷ b ∷ c ∷ d ∷ rest) =
    let more = pack_std rest in
    if eqb c b'=' && eqb d b'='
    then pack_last (digits (a ∷ b ∷ [])) rest
    else if eqb d b'='
    then pack_last (digits (a ∷ b ∷ c ∷ [])) rest
    else elim (digits (a ∷ b ∷ c ∷ d ∷ [])) [
      | none ↦ none
      | some ds ↦ elim more [
        | none ↦ none
        | some bytes ↦ elim (pack ds) [ none ↦ none | some first ↦ some (first ++ bytes) ]
      ]
    ]
pack_std _ = none

-- StdEncoding.DecodeString
unfoldable pub decode_std : String → Option (List ℕ)
unfolding codes_of
decode_std s = pack_std (codes_of s)
