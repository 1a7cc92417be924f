-- ===== src/Encoding/RoundTrip.antt =====
-- What is written in base64url is read again.
use Prim.Native.Char.{code}
use pkd_server_go.Prelude.{
  ℕ, zero, suc, ◌+◌, ◌*◌, ◌/◌, ◌%◌, ◌<◌, String, ◌≡◌, refl, ap, ◌∙◌, Bool, true, false, not, ◌&&◌,
  ◌||◌, List, [], ◌∷◌, Option, none, some, arith, eqb, eqb_iff, All, Option-cases, Bool-cases, inl,
  inr,
}
use pkd_server_go.Encoding.{
  char_of, encode_digit, encode_raw_url, decode_digit, digits_of, pack, decode_raw_url,
}

-- A test on all numbers below a bound.
unfoldable pub all_below : ℕ → (ℕ → Bool) → Bool
all_below zero p = true
all_below (suc n) p = p n && all_below n p

pub below : (n : ℕ) (p : ℕ → Bool) (d : ℕ) → all_below n p ≡ true → d < n → p d ≡ true
unfolding all_below
below zero p d h l = ground arith
below (suc n) p d h l = elim (Bool-cases (eqb d n)) [
  | inl same ↦ ap p ((eqb_iff d n).0 same) ∙ ground arith
  | inr less ↦ below n p d (ground arith) (ground arith)
]

abbrev is_digit : ℕ → Option ℕ → Bool
is_digit d none = false
is_digit d (some e) = eqb e d

abbrev reads_back : ℕ → Bool
reads_back d =
    not (eqb (code (encode_digit d)) 10 || eqb (code (encode_digit d)) 13)
    && is_digit d (decode_digit (code (encode_digit d)))

digits_read : all_below 64 reads_back ≡ true
unfolding all_below char_of decode_digit
digits_read = refl

-- A text and the values of its characters.
record Spells (s : String) (ds : List ℕ) : Type 0 where
  values : digits_of s ≡ some ds

Spells-empty : Spells "" []
unfolding digits_of
Spells-empty = record { values = refl }

Spells-digit :
    (d : ℕ) {s : String} {ds : List ℕ}
    → d < 64
    → Spells s ds
    → Spells (String.◌∷◌ (encode_digit d) s) (d ∷ ds)
unfolding digits_of
Spells-digit d {s} {ds} l h =
    let t = below 64 reads_back d digits_read l in
    let v = h.values in
    elim (Option-cases (decode_digit (code (encode_digit d)))) [
      | inl e ↦ ground arith
      | inr (e, f) ↦ record { values = ground arith }
    ]

sextets : List ℕ → List ℕ
sextets [] = []
sextets (a ∷ []) = (a / 4) ∷ (a % 4 * 16) ∷ []
sextets (a ∷ b ∷ []) = (a / 4) ∷ (a % 4 * 16 + b / 16) ∷ (b % 16 * 4) ∷ []
sextets (a ∷ b ∷ c ∷ rest) =
    (a / 4) ∷ (a % 4 * 16 + b / 16) ∷ (b % 16 * 4 + c / 64) ∷ (c % 64) ∷ sextets rest

abbrev pub IsByte : ℕ → Type 0
IsByte b = b < 256

encode_raw_url-Spells : (bs : List ℕ) → All IsByte bs → Spells (encode_raw_url bs) (sextets bs)
unfolding encode_raw_url sextets
encode_raw_url-Spells [] h = Spells-empty
encode_raw_url-Spells (a ∷ []) (l, h) =
    Spells-digit (a / 4) (omega arith) (Spells-digit (a % 4 * 16) (omega arith) Spells-empty)
encode_raw_url-Spells (a ∷ b ∷ []) (l, (m, h)) = Spells-digit (a / 4) (omega arith) (
    Spells-digit (a % 4 * 16 + b / 16) (omega arith)
      (Spells-digit (b % 16 * 4) (omega arith) Spells-empty))
encode_raw_url-Spells (a ∷ b ∷ c ∷ rest) (l, (m, (n, h))) = Spells-digit (a / 4) (omega arith) (
    Spells-digit (a % 4 * 16 + b / 16) (omega arith) (
      Spells-digit (b % 16 * 4 + c / 64) (omega arith)
        (Spells-digit (c % 64) (omega arith) (encode_raw_url-Spells rest h))))

pack-sextets : (bs : List ℕ) → All IsByte bs → pack (sextets bs) ≡ some bs
unfolding pack sextets
pack-sextets [] h = refl
pack-sextets (a ∷ []) h = let l = h.0 in ap (λ x. some (x ∷ [])) (omega arith)
pack-sextets (a ∷ b ∷ []) h =
    let l = h.0 in
    let m = h.1.0 in
    let first : a / 4 * 4 + (a % 4 * 16 + b / 16) / 16 ≡ a = omega arith in
    let second : (a % 4 * 16 + b / 16) % 16 * 16 + b % 16 * 4 / 4 ≡ b = omega arith in cc
pack-sextets (a ∷ b ∷ c ∷ rest) (l, (m, (n, h))) =
    let first : a / 4 * 4 + (a % 4 * 16 + b / 16) / 16 ≡ a = omega arith in
    let second : (a % 4 * 16 + b / 16) % 16 * 16 + (b % 16 * 4 + c / 64) / 4 ≡ b = omega arith in
    let third : (b % 16 * 4 + c / 64) % 4 * 64 + c % 64 ≡ c = omega arith in
    let later = pack-sextets rest h in ground arith

decode_raw_url-Spells :
    (s : String) (ds bs : List ℕ) → Spells s ds → pack ds ≡ some bs → decode_raw_url s ≡ some bs
unfolding decode_raw_url
decode_raw_url-Spells s ds bs h e = let v = h.values in ground arith

-- Any list of bytes is read back from its text in base64url.
pub decode-encode_raw_url :
    (bs : List ℕ) → All IsByte bs → decode_raw_url (encode_raw_url bs) ≡ some bs
decode-encode_raw_url bs h =
    decode_raw_url-Spells _ _ bs (encode_raw_url-Spells bs h) (pack-sextets bs h)
