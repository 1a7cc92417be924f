-- ===== src/Json.antt =====
-- JSON values, as encoding/json reads them into Go's structs and maps. Numbers are integers: the
-- messages of the protocol hold none.
use Prim.Native.Char.{code}
use pkd_server_go.Prelude.{
  ℕ, ◌+◌, String, Bool, true, false, ◌&&◌, Option, none, some, leb, eqb, ◌==◌, if◌then◌else◌,
}

mutual
  pub data Json : Type 0 where
    null : Json
    boolean : Bool → Json
    num : ℕ → Json
    str : String → Json
    arr : Items → Json
    obj : Fields → Json

  pub data Items : Type 0 where
    nil : Items
    cons : Json → Items → Items

  pub data Fields : Type 0 where
    end : Fields
    field : String → Json → Fields → Fields

-- `raw[name]` of a `map[string]interface{}`: the last field of that name.
unfoldable pub member : String → Fields → Option Json
member name end = none
member name (field k v rest) = elim (member name rest) [
  | some w ↦ some w
  | none ↦ if k == name then some v else none
]

-- Case folding of encoding/json: letters by case, and the two other runes that fold to a letter.
unfoldable pub fold_code : ℕ → ℕ
fold_code c =
    if leb b'A' c && leb c b'Z'
    then c + 32
    else if eqb c 0x212a
    then b'k'
    else if eqb c 0x17f
    then b's'
    else c

unfoldable pub fold_eq : String → String → Bool
unfolding fold_code
fold_eq String.[] String.[] = true
fold_eq String.[] (String.◌∷◌ d t) = false
fold_eq (String.◌∷◌ c s) String.[] = false
fold_eq (String.◌∷◌ c s) (String.◌∷◌ d t) =
    eqb (fold_code (code c)) (fold_code (code d)) && fold_eq s t

-- A field of a struct with the type `string`: each field of the object whose name fits, in their
-- order, is stored, and null stores nothing. `none` is an error of the decoder.
unfoldable pub read_string : String → Fields → String → Option String
read_string name end current = some current
read_string name (field k (str s) rest) current =
    read_string name rest (if fold_eq k name then s else current)
read_string name (field k null rest) current = read_string name rest current
read_string name (field k v rest) current =
    let more = read_string name rest current in if fold_eq k name then none else more
