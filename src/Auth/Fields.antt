-- ===== src/Auth/Fields.antt =====
-- Where bytes.Split of internal/auth/key_manager.go and strings.Split cut a text.
use Prim.Native.Char.{Char, code}
use Prim.Native.String.{◌++◌ as text_append}
use Prim.Native.String.append
use pkd_server_go.Prelude.{
  ℕ, ◌+◌, ◌*◌, ◌/◌, ◌%◌, ◌<◌, String, ◌≡◌, refl, ap, ◌∙◌, Bool, true, false, not, ◌&&◌, [], ◌∷◌,
  arith, eqb, All,
}
use pkd_server_go.Encoding.{encode_digit, char_of, encode_raw_url}
use pkd_server_go.Encoding.RoundTrip.{all_below, below, IsByte}
use pkd_server_go.Signing.{Bytes}
use pkd_server_go.Text.{split}
use pkd_server_go.Auth.KeyFile.{is_colon, sealed_file}

-- No character of the text passes the test.
unfoldable pub free_of : (ℕ → Bool) → String → Bool
free_of p String.[] = true
free_of p (String.◌∷◌ c s) = not (p (code c)) && free_of p s

split-free_of : (p : ℕ → Bool) (s : String) → free_of p s ≡ true → split p s ≡ s ∷ []
unfolding free_of split
split-free_of p String.[] h = refl
split-free_of p (String.◌∷◌ c s) h = ground (arith, split-free_of p s)

split-append :
    (p : ℕ → Bool) (c : Char) (s t : String)
    → free_of p s ≡ true
    → p (code c) ≡ true
    → split p (text_append s (String.◌∷◌ c t)) ≡ s ∷ split p t
unfolding free_of split
split-append p c String.[] t h q = ap (split p) (append.nil (String.◌∷◌ c t)) ∙ ground arith
split-append p c (String.◌∷◌ d s) t h q =
    ap (split p) (append.cons d s (String.◌∷◌ c t)) ∙ ground (arith, split-append p c s t)

abbrev no_colon : ℕ → Bool
no_colon d = not (eqb (code (encode_digit d)) 58)

digits_without_colon : all_below 64 no_colon ≡ true
unfolding all_below char_of
digits_without_colon = refl

digit : (d : ℕ) → d < 64 → eqb (code (encode_digit d)) 58 ≡ false
digit d l = let h = below 64 no_colon d digits_without_colon l in ground arith

encode_raw_url-free_of : (bs : Bytes) → All IsByte bs → free_of is_colon (encode_raw_url bs) ≡ true
unfolding free_of encode_raw_url
encode_raw_url-free_of [] h = refl
encode_raw_url-free_of (a ∷ []) (l, h) =
    let d1 = digit (a / 4) (omega arith) in
    let d2 = digit (a % 4 * 16) (omega arith) in ground arith
encode_raw_url-free_of (a ∷ b ∷ []) (l, (m, h)) =
    let d1 = digit (a / 4) (omega arith) in
    let d2 = digit (a % 4 * 16 + b / 16) (omega arith) in
    let d3 = digit (b % 16 * 4) (omega arith) in ground arith
encode_raw_url-free_of (a ∷ b ∷ c ∷ rest) (l, (m, (n, h))) =
    let d1 = digit (a / 4) (omega arith) in
    let d2 = digit (a % 4 * 16 + b / 16) (omega arith) in
    let d3 = digit (b % 16 * 4 + c / 64) (omega arith) in
    let d4 = digit (c % 64) (omega arith) in ground (arith, encode_raw_url-free_of rest h)

-- The two fields of a file with a password.
pub split-sealed_file :
    (salt encrypted : Bytes)
    → All IsByte salt
    → All IsByte encrypted
    → split is_colon (sealed_file salt encrypted)
      ≡ encode_raw_url salt ∷ encode_raw_url encrypted ∷ []
split-sealed_file salt encrypted hs he =
    ap (λ t. split is_colon (text_append (encode_raw_url salt) t))
      (append.cons ":" "" (encode_raw_url encrypted)
        ∙ ap (λ t. String.◌∷◌ ":" t) (append.nil (encode_raw_url encrypted)))
    ∙ split-append is_colon ":" (encode_raw_url salt) (encode_raw_url encrypted)
        (encode_raw_url-free_of salt hs) refl
    ∙ ap (λ t. encode_raw_url salt ∷ t)
        (split-free_of is_colon (encode_raw_url encrypted) (encode_raw_url-free_of encrypted he))
